-- ===== src/Controller/Reconcile/Releases.antt =====
-- What `Reconcile` of proxmoxcluster_controller.go does with a cluster that is being deleted.
use multiprox.Prelude.{◌≡◌, refl, sym, subst, String, false, none, some, List, [], All}
use multiprox.Api.Meta.{Time}
use multiprox.Api.Cluster.{ProxmoxCluster}
use multiprox.Errors.{Result, ok, err}
use multiprox.Controller.Kube.{Key, Call, get_cluster, update_cluster, Run, Kube}
use multiprox.Controller.Pass.{modify, ◌>>=◌}
use multiprox.Controller.Pass.Keeps.{Assertion, Outcome, Keeps, Keeps-relax, Keeps-pure, Keeps-bind}
use multiprox.Controller.Status.{finalizer_name}
use multiprox.Controller.Status.Stable.{Stable-remove_finalizer}
use multiprox.Controller.Steps.{Requeue}
use multiprox.Controller.Reconcile.{reconcile_delete, handle, start_from, reconcile}
use multiprox.Controller.Reconcile.Conditions.{Laws}
use multiprox.Controller.Reconcile.Rejects.{Nothing}
use multiprox.Controller.Reconcile.Fetched.{fresh_run, reconcile-Outcome}

-- a pass that succeeds asks for no other one
abbrev pub AsksNoRequeue : Result Requeue → Type 0
AsksNoRequeue (ok requeue) = requeue ≡ none
AsksNoRequeue (err e) = Unit

abbrev IsNone : Requeue → Assertion
IsNone requeue _ = requeue ≡ none

-- the cluster is fetched, or written without the operator's finalizer
abbrev pub OnlyReleases : Kube → Call → Type 0
OnlyReleases k (get_cluster _) = Unit
OnlyReleases k (update_cluster c) = k.contains_finalizer c.meta.finalizers finalizer_name ≡ false
OnlyReleases k _ = ⊥

-- `RemoveFinalizer` leaves none of the finalizers that it removes.
abbrev pub IsRemoval : Kube → Type 0
IsRemoval k =
    (finalizers : List String) (f : String)
    → k.contains_finalizer (k.remove_finalizer finalizers f).0 f ≡ false

module _ (k : Kube) (laws : Laws k) (removal : IsRemoval k) where
  Keeps-reconcile_delete : Keeps (OnlyReleases k) Nothing (reconcile_delete k) IsNone Nothing
  unfolding reconcile_delete
  Keeps-reconcile_delete =
      Keeps-bind
        (Stable-remove_finalizer k laws.retry (λ key. tt)
          (λ latest. removal latest.meta.finalizers finalizer_name))
        (λ _.
          Keeps-relax {J = IsNone none} (λ v j. refl) (λ r v h. h) (λ v h. h)
            (Keeps-pure {K = IsNone} none))

  Keeps-start_from :
      (cluster : ProxmoxCluster) (since : Time)
      → cluster.meta.deletion_timestamp ≡ some since
      → Keeps (OnlyReleases k) Nothing (start_from k (ok cluster)) IsNone Nothing
  unfolding modify ◌>>=◌
  Keeps-start_from cluster since deleted = record {
    holds = λ s h j.
        let s' : Run = record s { cluster = cluster } in
        subst (λ d. Outcome (OnlyReleases k) IsNone Nothing (handle k d s')) (sym deleted)
          (Keeps-reconcile_delete.holds s' h tt);
  }

Outcome-release :
    (k : Kube) (out : Result Requeue × Run)
    → Outcome (OnlyReleases k) IsNone Nothing out
    → All (OnlyReleases k) out.1.history × AsksNoRequeue out.0
Outcome-release k (ok r, s) h = h
Outcome-release k (err e, s) h = h

-- Whatever the API server answers, and where the libraries behave as documented, a pass over a
-- cluster that is being deleted makes no call but to fetch the cluster and to write it without the
-- operator's finalizer, and if it succeeds it asks for no requeue.
pub reconcile-OnlyReleases :
    (k : Kube) (key : Key) (cluster nothing : ProxmoxCluster) (since : Time)
    → Laws k
    → IsRemoval k
    → k.server.on_get_cluster [] key ≡ ok cluster
    → cluster.meta.deletion_timestamp ≡ some since
    → All (OnlyReleases k) (reconcile k key (fresh_run nothing)).1.history
      × AsksNoRequeue (reconcile k key (fresh_run nothing)).0
reconcile-OnlyReleases k key cluster nothing since laws removal fetched deleted =
    Outcome-release k _ (
      reconcile-Outcome k key cluster nothing fetched tt
        (Keeps-start_from k laws removal cluster since deleted))
