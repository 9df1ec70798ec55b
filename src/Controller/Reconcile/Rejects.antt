-- ===== src/Controller/Reconcile/Rejects.antt =====
-- What `Reconcile` of proxmoxcluster_controller.go does with a Ceph spec that can never converge.
pub mod Reported
use multiprox.Prelude.{◌≡◌, refl, sym, subst, none, some, [], ◌∷◌, All}
use multiprox.Api.Cluster
use multiprox.Api.Cluster.{Phase, ProxmoxCluster}
use multiprox.Ceph.Validate.{CephError, validate_ceph}
use multiprox.Errors.{Result, ok, err}
use multiprox.Controller.Kube.{
  Key, Call, get_cluster, update_cluster, update_cluster_status, Run, Kube,
}
use multiprox.Controller.Pass.{modify, the_cluster, ◌>>=◌, attempt, request}
use multiprox.Controller.Pass.Keeps.{
  Assertion, Outcome, Keeps, Keeps-relax, Keeps-pure, Keeps-if, Keeps-bind,
}
use multiprox.Controller.Status.{finalizer_name, fetch_cluster}
use multiprox.Controller.Status.Stable.{
  Stable-pure, Stable-update_status, Stable-add_finalizer, Keeps-set_condition,
}
use multiprox.Controller.Steps.{Requeue}
use multiprox.Controller.Reconcile.{
  reject, validated, ensure_finalizer, handle, start_from, reconcile,
}
use multiprox.Controller.Reconcile.Conditions.{Laws}
use multiprox.Controller.Reconcile.Rejects.Reported.{IfOk, Rejected, start_from-Rejected}
use multiprox.Controller.Reconcile.Fetched.{fresh_run, reconcile-All}

-- the calls that fetch the cluster, write its metadata, or say that it failed
abbrev pub OnlyReports : Call → Type 0
OnlyReports (get_cluster _) = Unit
OnlyReports (update_cluster _) = Unit
OnlyReports (update_cluster_status c) = c.status.phase ≡ Cluster.failed
OnlyReports _ = ⊥

abbrev pub Nothing : Assertion
Nothing _ = Unit

module _ (k : Kube) (laws : Laws k) where
  Keeps-reject : (e : CephError) → Keeps OnlyReports Nothing (reject k e) (λ _. Nothing) Nothing
  unfolding reject
  Keeps-reject e =
      Keeps-bind (Keeps-set_condition k {K = Nothing} _ _ _ _ _ (λ v now g j. tt)) (λ _.
        Keeps-bind
          (Stable-update_status k laws.retry (λ key. tt) Cluster.failed (λ c latest j. refl))
          (λ _. Stable-pure none))

  Keeps-handle :
      (cluster : ProxmoxCluster) (e : CephError)
      → validate_ceph cluster ≡ some e
      → Keeps OnlyReports Nothing
          (ensure_finalizer k cluster.meta.finalizers >>= λ _. validated k (validate_ceph cluster))
          (λ _. Nothing)
          Nothing
  Keeps-handle cluster e p =
      Keeps-bind
        (Keeps-if (k.contains_finalizer cluster.meta.finalizers finalizer_name)
          (λ _. Stable-pure tt) (λ _. Stable-add_finalizer k laws.retry (λ key. tt) (λ c. tt)))
        (λ _.
          subst (λ o. Keeps OnlyReports Nothing (validated k o) (λ _. Nothing) Nothing) (sym p)
            (Keeps-reject e))

  Keeps-start_from :
      (cluster : ProxmoxCluster) (e : CephError)
      → cluster.meta.deletion_timestamp ≡ none
      → validate_ceph cluster ≡ some e
      → Keeps OnlyReports Nothing (start_from k (ok cluster)) (λ _. Nothing) Nothing
  unfolding modify the_cluster ◌>>=◌
  Keeps-start_from cluster e alive p = record {
    holds = λ s h j.
        let s' : Run = record s { cluster = cluster } in
        subst (λ d. Outcome OnlyReports (λ _. Nothing) Nothing (handle k d s')) (sym alive)
          ((Keeps-handle cluster e p).holds s' h tt);
  }

-- Whatever the API server answers, and where the libraries behave as documented, a pass over a
-- cluster that is not being deleted and whose Ceph spec is invalid creates, patches and deletes
-- nothing and runs nothing in a pod: it writes the finalizer and a status with the phase Failed at
-- most. If it ends without an error, it asks for no requeue, and its last call writes the status
-- with the phase Failed and a condition CephInitialized that is false, with the reason
-- InvalidCephSpec and the text of the error.
pub reconcile-OnlyReports :
    (k : Kube) (key : Key) (cluster nothing : ProxmoxCluster) (e : CephError)
    → Laws k
    → k.server.on_get_cluster [] key ≡ ok cluster
    → cluster.meta.deletion_timestamp ≡ none
    → validate_ceph cluster ≡ some e
    → All OnlyReports (reconcile k key (fresh_run nothing)).1.history
      × IfOk (Rejected k e) (reconcile k key (fresh_run nothing))
unfolding reconcile fetch_cluster attempt request ◌>>=◌
reconcile-OnlyReports k key cluster nothing e laws fetched alive invalid = (
  reconcile-All k key cluster nothing fetched tt (Keeps-start_from k laws cluster e alive invalid),
  subst
      (λ r.
        IfOk (Rejected k e)
          (start_from k r (record { history = get_cluster key ∷ []; cluster = nothing })))
      (sym fetched)
      (start_from-Rejected k laws e cluster alive invalid
        (record { history = get_cluster key ∷ []; cluster = nothing })),
)
