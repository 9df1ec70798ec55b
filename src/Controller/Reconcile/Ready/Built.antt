-- ===== src/Controller/Reconcile/Ready/Built.antt =====
-- Steps 7 to 11 of `Reconcile` in proxmoxcluster_controller.go: what stands behind a status that says
-- Ready.
use multiprox.Prelude.{
  ℕ, ◌≡◌, ◌∙◌, ap, refl, subst, String, Bool, true, false, not, Option, none, some, List, All-of,
  ◌==◌, if◌then◌else◌,
}
use multiprox.Prelude.Int.{eqb_ℤ, eqb_ℤ_iff}
use multiprox.Api.Meta.{Condition, true_status, false_status}
use multiprox.Node.Projection.{is_true}
use multiprox.Api.Cluster
use multiprox.Api.Cluster.{
  Phase, CephSpec, CephStatus, ProxmoxCluster, condition_statefulset_ready,
  condition_cluster_initialized, condition_all_nodes_joined, condition_quorum_healthy,
  condition_ceph_initialized,
}
use multiprox.Ceph.Plan.{CephStep, init, mon, mgr, osd, pool, status, ceph_plan}
use multiprox.Ceph.Status.{ceph_usable}
use multiprox.Workload.Objects.{StatefulSet}
use multiprox.Errors.{Result, ok, err, is_not_found}
use multiprox.Controller.Kube.{Key, key_of, Call, update_cluster_status, Kube, History}
use multiprox.Controller.Pass.Keeps.{
  Assertion, Keeps, Stable, Keeps-relax, Keeps-if, Keeps-bind, Keeps-bind_seen, Keeps-answered,
  Keeps-given,
}
use multiprox.Controller.Status.Stable.{
  IsPlain, Stable-pure, Stable-raise, Stable-bind, Keeps-set_condition,
}
use multiprox.Controller.Steps.{ceph_step_condition, requeue_long}
use multiprox.Controller.Steps.Keeps.{
  MaySet, MayWait, Stable-set_condition, Stable-write, Stable-initialize, Stable-join,
}
use multiprox.Controller.Steps.Usable.{DoneUsable, Keeps-reconcile_ceph}
use multiprox.Controller.Reconcile.{
  has_condition, become_ready, after_ceph, reconcile_storage, build_cluster, wait_for_pods, gate,
  converge,
}
use multiprox.Controller.Reconcile.Conditions.{
  Laws, IsTrue, IsTrue-other, condition_set, is_true_of_not,
}

-- usable where the spec asks for Ceph
abbrev pub StorageReady : Option CephSpec → Option CephStatus → Type 0
StorageReady none st = Unit
StorageReady (some _) st = ceph_usable st ≡ true

-- a read of the StatefulSet of this cluster found as many ready pods as the spec has nodes
abbrev pub PodsReady : Kube → ProxmoxCluster → Type 0
PodsReady k cluster =
    (h : History) × (key : Key) × (sts : StatefulSet) × (key.name ≡ cluster.meta.name)
    × (k.server.on_get_stateful_set h key ≡ ok sts)
    × (sts.ready_replicas ≡ cluster.spec.nodes)

abbrev pub IsBuilt : Kube → ProxmoxCluster → List Condition → Option CephStatus → Type 0
IsBuilt k cluster conditions st =
    PodsReady k cluster
    × (k.is_status_condition_true conditions condition_statefulset_ready ≡ true)
    × (k.is_status_condition_true conditions condition_cluster_initialized ≡ true)
    × (k.is_status_condition_true conditions condition_all_nodes_joined ≡ true)
    × StorageReady cluster.spec.ceph st

abbrev pub IfReady : Phase → Type 0 → Type 0
IfReady Cluster.ready T = T
IfReady _ T = Unit

-- a status that says Ready stands on a built cluster
abbrev pub ReadyIsBuilt : Kube → ProxmoxCluster → Call → Type 0
ReadyIsBuilt k cluster (update_cluster_status c) =
    IfReady c.status.phase (IsBuilt k cluster c.status.conditions c.status.ceph)
ReadyIsBuilt k cluster _ = Unit

module _ (k : Kube) (laws : Laws k) (fetched : ProxmoxCluster) where
  abbrev pub P : Call → Type 0
  P = ReadyIsBuilt k fetched

  abbrev pub Spec : Assertion
  Spec v = (v.spec ≡ fetched.spec) × (v.name ≡ fetched.meta.name)

  abbrev pub Gated : Assertion
  Gated v = Spec v × IsTrue k condition_statefulset_ready v

  abbrev pub Joined : Assertion
  Joined v =
      Gated v × (IsTrue k condition_cluster_initialized v × IsTrue k condition_all_nodes_joined v)

  abbrev pub Built : Assertion
  Built v = Joined v × StorageReady fetched.spec.ceph v.ceph

  pub plain : (c : Call) → IsPlain c → P c
  plain (update_cluster_status c) p = absurd p
  plain _ p = tt

  pub wait : (J : Assertion) → MayWait P J
  wait J Cluster.ready p cluster latest j = absurd p
  wait J _ p cluster latest j = tt

  -- a condition of another type keeps what is true
  set_other :
      (set : String)
      → (set == condition_statefulset_ready) ≡ false
      → (set == condition_cluster_initialized) ≡ false
      → (set == condition_all_nodes_joined) ≡ false
      → MaySet k Joined set
  set_other set p q r v now c e ((spec, gate), (made, joined)) = (
    (spec, IsTrue-other k laws now v.conditions c set condition_statefulset_ready e p gate),
    (
      IsTrue-other k laws now v.conditions c set condition_cluster_initialized e q made,
      IsTrue-other k laws now v.conditions c set condition_all_nodes_joined e r joined,
    ),
  )

  set_ceph_step : (step : CephStep) → MaySet k Joined (ceph_step_condition step)
  unfolding ceph_step_condition
  set_ceph_step init = set_other _ refl refl refl
  set_ceph_step mon = set_other _ refl refl refl
  set_ceph_step mgr = set_other _ refl refl refl
  set_ceph_step osd = set_other _ refl refl refl
  set_ceph_step pool = set_other _ refl refl refl
  set_ceph_step status = set_other _ refl refl refl

  set_gated : (set : String) → (set == condition_statefulset_ready) ≡ false → MaySet k Gated set
  set_gated set p v now c e (spec, ready) =
      (spec, IsTrue-other k laws now v.conditions c set condition_statefulset_ready e p ready)

  module _ (pods : PodsReady k fetched) where
    Keeps-become_ready : Keeps P Built (become_ready k) (λ _. Spec) Spec
    unfolding become_ready
    Keeps-become_ready =
        Keeps-relax {J = Built} (λ v h. h) (λ a v h. h.0.0.0) (λ v h. h.0.0.0)
          (Stable-bind
            (Stable-set_condition k laws.retry plain _ _ _ _ _ (λ v now c e h.
              (set_other condition_quorum_healthy refl refl refl v now c e h.0, h.1)))
            (λ _.
              Stable-bind
                (Stable-write k laws.retry plain Cluster.ready
                  (λ cluster latest h. (pods, h.0.0.1, h.0.1.0, h.0.1.1, h.1)))
                (λ _. Stable-pure requeue_long)))

    Keeps-after_ceph :
        (spec : CephSpec)
        → some spec ≡ fetched.spec.ceph
        → (waiting : Option (Option ℕ))
        → Keeps P (DoneUsable Joined waiting) (after_ceph k waiting) (λ _. Spec) Spec
    Keeps-after_ceph spec p none =
        Keeps-relax {J = Built} (λ v h. (h.0, subst (λ o. StorageReady o v.ceph) p h.1))
          (λ a v h. h) (λ v h. h) Keeps-become_ready
    Keeps-after_ceph spec p (some requeue) =
        Keeps-relax {J = Spec} (λ v h. h.0.0) (λ a v h. h) (λ v h. h) (Stable-pure requeue)

    Keeps-reconcile_storage :
        (o : Option CephSpec)
        → o ≡ fetched.spec.ceph
        → Keeps P Joined (reconcile_storage k o) (λ _. Spec) Spec
    Keeps-reconcile_storage none p =
        Keeps-relax {J = Built} (λ v h. (h, subst (λ o. StorageReady o v.ceph) p tt)) (λ a v h. h)
          (λ v h. h) Keeps-become_ready
    Keeps-reconcile_storage (some spec) p =
        Keeps-bind
          (Keeps-relax {J = Joined} (λ v h. h) (λ a v h. h) (λ v h. h.0.0)
            (Keeps-reconcile_ceph k laws.retry plain (wait Joined) set_ceph_step (λ v st h. h)
              (λ key. tt)
              (λ cluster h. All-of (λ t. Key → Unit {0}) (λ t key. tt) (ceph_plan cluster)) spec))
          (Keeps-after_ceph spec p)

    pub Keeps-build_cluster : Keeps P Gated (build_cluster k) (λ _. Spec) Spec
    unfolding build_cluster
    Keeps-build_cluster = Keeps-bind_seen (λ cluster spec.
        Keeps-if (not (has_condition k condition_cluster_initialized cluster))
          (λ _.
            Keeps-relax {J = Gated} (λ v h. h.0) (λ a v h. h.0) (λ v h. h.0)
              (Stable-initialize k laws.retry plain (wait Gated) (λ key. tt) (set_gated _ refl)))
          (λ p.
            Keeps-if (not (has_condition k condition_all_nodes_joined cluster))
              (λ _.
                Keeps-relax {J = Gated} (λ v h. h.0) (λ a v h. h.0) (λ v h. h.0)
                  (Stable-join k laws.retry plain (wait Gated) (λ key. tt) (set_gated _ refl)
                    (set_gated _ refl)))
              (λ q.
                Keeps-relax {J = Joined}
                  (λ v h. (
                    h.0,
                    (
                      subst (IsTrue k condition_cluster_initialized) h.1 (is_true_of_not _ p),
                      subst (IsTrue k condition_all_nodes_joined) h.1 (is_true_of_not _ q),
                    ),
                  ))
                  (λ a v h. h) (λ v h. h)
                  (Keeps-reconcile_storage cluster.spec.ceph (ap (λ s. s.ceph) spec.0.0)))))

  Stable-wait_for_pods : Stable P Spec (wait_for_pods k)
  Stable-wait_for_pods =
      Stable-bind (Stable-write k laws.retry plain Cluster.pending (wait Spec Cluster.pending tt))
        (λ _. Stable-pure _)

  is_true_of : (b : Bool) → is_true (if b then true_status else false_status) ≡ b
  is_true_of true = refl
  is_true_of false = refl

  abbrev Answer : Key → Result StatefulSet → Type 0
  Answer key found = (h : History) × (k.server.on_get_stateful_set h key ≡ found)

  Stable-gate :
      (key : Key)
      → key.name ≡ fetched.meta.name
      → (found : Result StatefulSet) → Answer key found
      → Stable P Spec (gate k found)
  Stable-gate key named (err e) answer =
      Keeps-if (is_not_found e) (λ _. Stable-wait_for_pods) (λ _. Stable-raise e)
  Stable-gate key named (ok sts) (h, answer) = Keeps-bind_seen (λ cluster spec.
      let is_full = eqb_ℤ sts.ready_replicas cluster.spec.nodes in
      Keeps-bind
        (Keeps-relax {J = Spec} (λ v h. h.0) (λ a v h. h) (λ v h. h)
          (Keeps-set_condition k
            {K = λ v.
              Spec v
              × (k.is_status_condition_true v.conditions condition_statefulset_ready ≡ is_full)}
            condition_statefulset_ready is_full "AllPodsReady" "NotAllPodsReady" _
            (λ v now g spec. (spec, condition_set k laws now v.conditions _ ∙ is_true_of is_full))))
        (λ _.
          Keeps-if is_full
            (λ p.
              let full =
                (eqb_ℤ_iff sts.ready_replicas cluster.spec.nodes).0 p ∙ ap (λ s. s.nodes) spec.0 in
              Keeps-relax {J = Gated} (λ v h. (h.0, h.1 ∙ p)) (λ a v h. h) (λ v h. h)
                (Keeps-build_cluster (h, key, sts, named, answer, full)))
            (λ p.
              Keeps-relax {J = Spec} (λ v h. h.0) (λ a v h. h) (λ v h. h) Stable-wait_for_pods)))

  pub Stable-converge : Stable P Spec (converge k)
  unfolding converge
  Stable-converge = Keeps-bind_seen (λ cluster spec.
      Keeps-relax {J = Spec} (λ v h. h.0) (λ a v h. h) (λ v h. h)
        (Keeps-bind (Keeps-answered _ _ tt)
          (λ found. Keeps-given (λ answer. Stable-gate (key_of cluster.meta) spec.1 found answer))))
