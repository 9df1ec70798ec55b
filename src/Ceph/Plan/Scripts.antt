-- ===== src/Ceph/Plan/Scripts.antt =====
-- The scripts of `CephPlan` in ceph.go.
use multiprox.Prelude.{
  ◌≡◌, ℕ, String, some, inl, inr, List, [], ◌∷◌, ◌++◌, map, All, All-append, Option-cases,
}
use multiprox.Prelude.Int.{indices}
use multiprox.Api.Cluster.{CephSpec, ProxmoxCluster}
use multiprox.Ceph.Counts.{effective_mon_count, effective_mgr_count}
use multiprox.Ceph.Plan.{
  CephStep, mon, mgr, osd, CephTask, node_task, ceph_plan, init_tasks, mon_tasks, mgr_tasks,
  osd_tasks, pool_tasks,
}

-- what holds of the five scripts of the plan
pub record OfPlan (Q : String → Type 0) : Type 0 where
  pub init : Q "/scripts/ceph-init.sh"
  pub mon : Q "/scripts/ceph-mon.sh"
  pub mgr : Q "/scripts/ceph-mgr.sh"
  pub osd : Q "/scripts/ceph-osd.sh"
  pub pool : Q "/scripts/ceph-pool.sh"

module _ (Q : String → Type 0) where
  abbrev OfTasks : List CephTask → Type 0
  OfTasks = All (λ t. Q t.script)

  node_tasks-script :
      (step : CephStep) (script : String)
      → Q script
      → (is : List ℕ) → OfTasks (map (node_task step script) is)
  node_tasks-script step script q [] = tt
  node_tasks-script step script q (i ∷ is) = (q, node_tasks-script step script q is)

  some_tasks :
      (cluster : ProxmoxCluster)
      → OfPlan Q
      → OfTasks (
          init_tasks
          ++ (mon_tasks cluster ++ (mgr_tasks cluster ++ (osd_tasks cluster ++ pool_tasks))))
  some_tasks cluster q =
      All-append _ init_tasks _ (q.init, tt)
        (All-append _ (mon_tasks cluster) _
          (node_tasks-script mon _ q.mon (indices (effective_mon_count cluster)))
          (All-append _ (mgr_tasks cluster) _
            (node_tasks-script mgr _ q.mgr (indices (effective_mgr_count cluster)))
            (All-append _ (osd_tasks cluster) pool_tasks
              (node_tasks-script osd _ q.osd (indices cluster.spec.nodes)) (q.pool, tt))))

  -- what holds of the five scripts holds of each task of the plan
  pub ceph_plan-script :
      (cluster : ProxmoxCluster)
      → ((ceph : CephSpec) → cluster.spec.ceph ≡ some ceph → OfPlan Q)
      → OfTasks (ceph_plan cluster)
  unfolding ceph_plan
  ceph_plan-script cluster q = elim (Option-cases cluster.spec.ceph) [
    | inl e ↦ rw (e, ceph_plan) tt
    | inr (ceph, e) ↦ rw (e, ceph_plan) (some_tasks cluster (q ceph e))
  ]
