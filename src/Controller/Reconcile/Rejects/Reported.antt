-- ===== src/Controller/Reconcile/Rejects/Reported.antt =====
-- How `Reconcile` of proxmoxcluster_controller.go ends for a Ceph spec that can never converge: with
-- the status write that says so.
use multiprox.Prelude.{◌≡◌, refl, sym, subst, false, none, some, List, ◌∷◌}
use multiprox.Api.Meta.{Time, Condition, false_status}
use multiprox.Api.Cluster
use multiprox.Api.Cluster.{Phase, ProxmoxCluster, ProxmoxClusterStatus, condition_ceph_initialized}
use multiprox.Ceph.Validate.{CephError, validate_ceph, error_text}
use multiprox.Errors.{Result, ok, err}
use multiprox.Controller.Kube.{Key, update_cluster_status, History, Run, Pass, Kube}
use multiprox.Controller.Pass.{pure, request, modify, the_cluster, ◌>>=◌, continue}
use multiprox.Controller.Pass.Keeps.{Retries, last, again}
use multiprox.Controller.Status.{
  new_condition, set_phase, with_condition, set_resource_version, fetch_cluster, write_status,
  update_status, set_condition,
}
use multiprox.Controller.Reconcile.{reject, validated, ensure_finalizer, handle, start_from}
use multiprox.Controller.Reconcile.Conditions.{Laws}
use multiprox.Controller.Steps.{Requeue}

-- the status says Failed, and its last condition that was set is that Ceph is not initialised, for
-- this reason
pub record SaysInvalid (k : Kube) (e : CephError) (s : ProxmoxClusterStatus) : Type 0 where
  pub phase : s.phase ≡ Cluster.failed
  pub condition : Condition
  pub type : condition.type ≡ condition_ceph_initialized
  pub status : condition.status ≡ false_status
  pub reason : condition.reason ≡ "InvalidCephSpec"
  pub message : condition.message ≡ error_text e
  pub now : Time
  pub others : List Condition
  pub conditions : s.conditions ≡ k.set_status_condition now others condition

-- the last call writes such a status
abbrev pub Reported : Kube → CephError → History → Type 0
Reported k e (update_cluster_status c ∷ h) = SaysInvalid k e c.status
Reported k e _ = ⊥

-- the end of a pass that rejects the spec
abbrev pub Rejected : Kube → CephError → Requeue → History → Type 0
Rejected k e requeue h = (requeue ≡ none) × Reported k e h

-- what holds of the calls where a step ends with a result
abbrev pub IfOk : {A : Type 0} → (A → History → Type 0) → Result A × Run → Type 0
IfOk H (ok a, s) = H a s.history
IfOk H (err e, s) = Unit

module _ {A B : Type 0} where
  IfOk-continue :
      (H : B → History → Type 0) (f : A → Pass B)
      → ((a : A) (s : Run) → IfOk H (f a s))
      → (out : Result A × Run) → IfOk H (continue out.0 f out.1)
  IfOk-continue H f g (ok a, s) = g a s
  IfOk-continue H f g (err e, s) = tt

module _ (k : Kube) (laws : Laws k) (e : CephError) where
  module _ (desired : ProxmoxClusterStatus) (says : SaysInvalid k e desired) (key : Key) where
    write_status-Reported : (s : Run) → IfOk (λ _. Reported k e) (write_status k desired key s)
    unfolding write_status ◌>>=◌ modify request
    write_status-Reported s =
        IfOk-continue (λ _. Reported k e) _
          (λ latest s. written latest s (k.server.on_update_cluster_status s.history _))
          (fetch_cluster k key s)
      where
        written :
            (latest : ProxmoxCluster) (s : Run) (answer : Result ProxmoxCluster)
            → IfOk
                (λ _. Reported k e)
                (continue answer
                  (λ stored. modify (set_resource_version stored.meta.resource_version))
                  (record s {
                    history =
                        update_cluster_status (record latest { status = desired }) ∷ s.history;
                  }))
        written latest s (ok stored) = says
        written latest s (err x) = tt

    retried-Reported :
        (s : Run) (out : Result (Unit {0}) × Run)
        → Retries (write_status k desired key) s out
        → IfOk (λ _. Reported k e) out
    retried-Reported s out (last p) = subst (IfOk (λ _. Reported k e)) p (write_status-Reported s)
    retried-Reported s out (again {s' = s'} p c r) = retried-Reported s' out r

  ended :
      (out : Result (Unit {0}) × Run)
      → IfOk (λ _. Reported k e) out
      → IfOk (Rejected k e) (continue out.0 (λ _. pure none) out.1)
  unfolding pure
  ended (ok _, s) h = (refl, h)
  ended (err x, s) h = tt

  -- what `reject` sets, and the status that it writes
  abbrev invalid : Run → Condition
  invalid s =
      new_condition condition_ceph_initialized false "" "InvalidCephSpec" (error_text e)
        s.cluster.meta.generation

  abbrev failed_status : Run → ProxmoxClusterStatus
  failed_status s =
      (set_phase Cluster.failed
        (with_condition k (k.server.now s.history) (invalid s) s.cluster)).status

  failed_status-SaysInvalid : (s : Run) → SaysInvalid k e (failed_status s)
  failed_status-SaysInvalid s = record {
    phase = refl;
    condition = invalid s;
    type = refl;
    status = refl;
    reason = refl;
    message = refl;
    now = k.server.now s.history;
    others = s.cluster.status.conditions;
    conditions = refl;
  }

  reject-Rejected : (s : Run) → IfOk (Rejected k e) (reject k e s)
  unfolding reject set_condition update_status ◌>>=◌ modify the_cluster
  reject-Rejected s =
      ended _
        (retried-Reported (failed_status s) (failed_status-SaysInvalid s) _ _ _ (laws.retry _ _))

  handle-Rejected :
      (cluster : ProxmoxCluster)
      → validate_ceph cluster ≡ some e
      → (s : Run)
      → IfOk (Rejected k e) (
          (ensure_finalizer k cluster.meta.finalizers >>= λ _. validated k (validate_ceph cluster))
            s)
  unfolding ◌>>=◌
  handle-Rejected cluster p s =
      IfOk-continue (Rejected k e) _
        (λ _ s. subst (λ o. IfOk (Rejected k e) (validated k o s)) (sym p) (reject-Rejected s))
        (ensure_finalizer k cluster.meta.finalizers s)

  pub start_from-Rejected :
      (cluster : ProxmoxCluster)
      → cluster.meta.deletion_timestamp ≡ none
      → validate_ceph cluster ≡ some e
      → (s : Run) → IfOk (Rejected k e) (start_from k (ok cluster) s)
  unfolding modify the_cluster ◌>>=◌
  start_from-Rejected cluster alive p s =
      let s' : Run = record s { cluster = cluster } in
      subst (λ d. IfOk (Rejected k e) (handle k d s')) (sym alive) (handle-Rejected cluster p s')
