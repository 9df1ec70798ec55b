-- ===== src/Controller/Reconcile/Permits.antt =====
-- Steps 7 to 11 of `Reconcile` in proxmoxcluster_controller.go keep what each of their calls
-- and assignments keeps.
use multiprox.Prelude.{
  ℕ, ◌≡◌, refl, sym, String, Bool, true, false, not, Option, none, some, All, ◌==◌,
}
use multiprox.Prelude.Int.{eqb_ℤ}
use multiprox.Api.Cluster
use multiprox.Api.Cluster.{
  Phase, CephSpec, CephStatus, ProxmoxCluster, condition_statefulset_ready,
  condition_cluster_initialized, condition_all_nodes_joined, condition_quorum_healthy,
  condition_ceph_initialized,
}
use multiprox.Ceph.Plan.{CephStep, init, mon, mgr, osd, pool, status, ceph_plan}
use multiprox.Workload.Objects.{StatefulSet}
use multiprox.Errors.{Result, ok, err, is_not_found}
use multiprox.Controller.Kube.{Call, Kube}
use multiprox.Controller.Pass.Keeps.{
  View, view, Assertion, Keeps, Stable, IsRetry, Keeps-relax, Keeps-if, Keeps-bind, Keeps-bind_seen,
  Stable-request, Stable-attempt,
}
use multiprox.Controller.Status.Stable.{
  IsPlain, MayExec, MayWrite, Stable-pure, Stable-raise, Stable-bind, Stable-the_cluster,
}
use multiprox.Controller.Nodes.Stable.{MayPrune}
use multiprox.Controller.Steps.{ceph_step_condition, join}
use multiprox.Controller.Steps.Keeps.{MaySet, Stable-set_condition, Stable-write, Stable-initialize}
use multiprox.Controller.Steps.Usable.{DoneUsable, Keeps-reconcile_ceph}
use multiprox.Controller.Reconcile.{
  has_condition, become_ready, after_ceph, reconcile_storage, build_cluster, wait_for_pods, gate,
  converge,
}
use multiprox.Controller.Reconcile.Frame.{Frame}

-- the calls and assignments of a pass that may be made while `J` holds
pub record Permits (k : Kube) (P : Call → Type 0) (J : Assertion) : Type 0 where
  pub retry : IsRetry k.retry_on_conflict
  pub plain : (c : Call) → IsPlain c → P c
  pub write : (phase : Phase) → MayWrite P J phase
  pub set : (type : String) → (type == condition_all_nodes_joined) ≡ false → MaySet k J type
  pub put_ceph : (v : View) (st : CephStatus) → J v → J (record v { ceph = some st })
  pub initialize : MayExec P "/scripts/cluster-init.sh"
  pub inventory : MayExec P "/scripts/cluster-inventory.sh"
  pub plan :
      (cluster : ProxmoxCluster)
      → J (view cluster)
      → All (λ t. MayExec P t.script) (ceph_plan cluster)
  pub ceph_status :
      (cluster : ProxmoxCluster) (ceph : CephSpec)
      → J (view cluster)
      → cluster.spec.ceph ≡ some ceph
      → MayExec P "/scripts/ceph-status.sh"
  pub prune : MayPrune P J
  pub join_nodes :
      (cluster : ProxmoxCluster)
      → J (view cluster)
      → has_condition k condition_all_nodes_joined cluster ≡ false
      → Stable P J (join k)

is_false_of_not : (b : Bool) → not b ≡ true → b ≡ false
is_false_of_not true p = sym p
is_false_of_not false p = refl

module _ (k : Kube) {P : Call → Type 0} {J : Assertion} (may : Permits k P J) where
  set_step : (step : CephStep) → MaySet k J (ceph_step_condition step)
  unfolding ceph_step_condition
  set_step init = may.set _ refl
  set_step mon = may.set _ refl
  set_step mgr = may.set _ refl
  set_step osd = may.set _ refl
  set_step pool = may.set _ refl
  set_step status = may.set _ refl

  Stable-become_ready : Stable P J (become_ready k)
  unfolding become_ready
  Stable-become_ready =
      Stable-bind
        (Stable-set_condition k may.retry may.plain _ _ _ _ _
          (may.set condition_quorum_healthy refl))
        (λ _.
          Stable-bind (Stable-write k may.retry may.plain Cluster.ready (may.write Cluster.ready))
            (λ _. Stable-pure _))

  Keeps-after_ceph :
      (waiting : Option (Option ℕ))
      → Keeps P (DoneUsable J waiting) (after_ceph k waiting) (λ _. J) J
  Keeps-after_ceph none =
      Keeps-relax {J = J} (λ v h. h.0) (λ a v h. h) (λ v h. h) Stable-become_ready
  Keeps-after_ceph (some requeue) = Stable-pure requeue

  Stable-reconcile_storage :
      (cluster : ProxmoxCluster)
      → J (view cluster)
      → (o : Option CephSpec) → cluster.spec.ceph ≡ o
      → Stable P J (reconcile_storage k o)
  Stable-reconcile_storage cluster j none p = Stable-become_ready
  Stable-reconcile_storage cluster j (some ceph) p =
      Keeps-bind
        (Keeps-reconcile_ceph k may.retry may.plain (λ phase _. may.write phase) set_step
          may.put_ceph (may.ceph_status cluster ceph j p) may.plan ceph)
        Keeps-after_ceph

  Stable-build_cluster : Stable P J (build_cluster k)
  unfolding build_cluster
  Stable-build_cluster = Keeps-bind_seen (λ cluster j.
      Keeps-relax {J = J} (λ v h. h.0) (λ a v h. h) (λ v h. h)
        (Keeps-if (not (has_condition k condition_cluster_initialized cluster))
          (λ _.
            Stable-initialize k may.retry may.plain (λ phase _. may.write phase) may.initialize
              (may.set condition_cluster_initialized refl))
          (λ _.
            Keeps-if (not (has_condition k condition_all_nodes_joined cluster))
              (λ q. may.join_nodes cluster j (is_false_of_not _ q))
              (λ _. Stable-reconcile_storage cluster j cluster.spec.ceph refl))))

  Stable-wait_for_pods : Stable P J (wait_for_pods k)
  Stable-wait_for_pods =
      Stable-bind (Stable-write k may.retry may.plain Cluster.pending (may.write Cluster.pending))
        (λ _. Stable-pure _)

  Stable-gate : (found : Result StatefulSet) → Stable P J (gate k found)
  Stable-gate (err e) = Keeps-if (is_not_found e) (λ _. Stable-wait_for_pods) (λ _. Stable-raise e)
  Stable-gate (ok sts) = Stable-bind Stable-the_cluster (λ cluster.
      Stable-bind
        (Stable-set_condition k may.retry may.plain _ _ _ _ _
          (may.set condition_statefulset_ready refl))
        (λ _.
          Keeps-if (eqb_ℤ sts.ready_replicas cluster.spec.nodes) (λ _. Stable-build_cluster)
            (λ _. Stable-wait_for_pods)))

  Stable-converge : Stable P J (converge k)
  unfolding converge
  Stable-converge =
      Stable-bind Stable-the_cluster
        (λ cluster. Stable-bind (Stable-attempt (Stable-request _ _ (may.plain _ tt))) Stable-gate)

  pub Permits-Frame : Frame k P J
  Permits-Frame = record {
    retry = may.retry;
    plain = may.plain;
    wait = λ phase _. may.write phase;
    reject = may.set condition_ceph_initialized refl;
    inventory = may.inventory;
    prune = may.prune;
    converge = Stable-converge;
  }
