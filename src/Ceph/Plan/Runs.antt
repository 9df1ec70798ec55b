-- ===== src/Ceph/Plan/Runs.antt =====
-- How often the plan executes each script on each node.
use multiprox.Prelude.{
  ℕ, zero, suc, ◌+◌, String, ◌≡◌, Bool, false, ◌&&◌, ◌==◌, some, List, [], ◌∷◌, ◌++◌, map, arith,
  eqb, leb, ltb, if◌then◌else◌, range_from,
}
use multiprox.Prelude.Int.{ℤ, pos, negsuc, pos_part, indices}
use multiprox.Api.Cluster.{CephSpec, ProxmoxCluster}
use multiprox.Ceph.Counts.{effective_mon_count, effective_mgr_count}
use multiprox.Ceph.Plan.{
  CephStep, init, mon, mgr, osd, pool, status, CephTask, node_task, init_tasks, pool_tasks,
  ceph_plan,
}
use multiprox.Ceph.Plan.Order.{script_of}

-- the task executes this script on this node, whatever its label
abbrev pub is_run : String → ℕ → CephTask → Bool
is_run script i t = script == t.script && eqb i t.ordinal

-- how many tasks of the list execute this script on this node
pub runs : String → ℕ → List CephTask → ℕ
runs script i [] = 0
runs script i (t ∷ ts) = (if is_run script i t then 1 else 0) + runs script i ts

-- the nodes that a step is meant for
abbrev pub is_target : ProxmoxCluster → CephStep → ℕ → Bool
is_target cluster init i = eqb i 0
is_target cluster mon i = ltb i (pos_part (effective_mon_count cluster))
is_target cluster mgr i = ltb i (pos_part (effective_mgr_count cluster))
is_target cluster osd i = ltb i (pos_part cluster.spec.nodes)
is_target cluster pool i = eqb i 0
is_target cluster status i = false

module _ (wanted : String) (i : ℕ) where
  runs-append :
      (xs ys : List CephTask) → runs wanted i (xs ++ ys) ≡ runs wanted i xs + runs wanted i ys
  unfolding runs
  runs-append [] ys = omega arith
  runs-append (t ∷ ts) ys = omega (arith, runs-append ts ys)

  runs-range :
      (s : CephStep) (script : String) (j n : ℕ)
      → runs wanted i (map (node_task s script) (range_from j n))
        ≡ (if wanted == script && leb j i && ltb i (j + n) then 1 else 0)
  unfolding runs
  runs-range s script j zero = ground arith
  runs-range s script j (suc n) = ground (arith, runs-range s script (suc j) n)

  runs-node_tasks :
      (s : CephStep) (script : String) (n : ℤ)
      → runs wanted i (map (node_task s script) (indices n))
        ≡ (if wanted == script && ltb i (pos_part n) then 1 else 0)
  unfolding runs
  runs-node_tasks s script (pos n) = ground (arith, runs-range s script 0 n)
  runs-node_tasks s script (negsuc n) = ground arith

  plan_tasks-runs :
      (mons mgrs nodes : ℤ)
      → runs wanted i (
          init_tasks
          ++ (map (node_task mon "/scripts/ceph-mon.sh") (indices mons)
              ++ (map (node_task mgr "/scripts/ceph-mgr.sh") (indices mgrs)
                  ++ (map (node_task osd "/scripts/ceph-osd.sh") (indices nodes) ++ pool_tasks))))
        ≡ runs wanted i init_tasks
          + ((if wanted == "/scripts/ceph-mon.sh" && ltb i (pos_part mons) then 1 else 0)
              + ((if wanted == "/scripts/ceph-mgr.sh" && ltb i (pos_part mgrs) then 1 else 0)
                  + ((if wanted == "/scripts/ceph-osd.sh" && ltb i (pos_part nodes) then 1 else 0)
                      + runs wanted i pool_tasks)))
  plan_tasks-runs mons mgrs nodes = rw (runs-append init_tasks _) (
      rw (runs-append (map (node_task mon "/scripts/ceph-mon.sh") (indices mons)) _) (
        rw (runs-append (map (node_task mgr "/scripts/ceph-mgr.sh") (indices mgrs)) _) (
          rw (runs-append (map (node_task osd "/scripts/ceph-osd.sh") (indices nodes)) _) (
            rw (runs-node_tasks mon _ mons)
              (rw (runs-node_tasks mgr _ mgrs) (rw (runs-node_tasks osd _ nodes)))))))

-- With Ceph asked for, the plan executes the script of each step exactly once on each node that the
-- step is meant for, and on no other node: those of the configuration and the pools on node 0, that
-- of a monitor on each of the first nodes up to the effective count, likewise that of a manager, and
-- that of the OSDs on every node. The status script is not in the plan.
pub ceph_plan-runs :
    (cluster : ProxmoxCluster) {ceph : CephSpec} (step : CephStep) (i : ℕ)
    → cluster.spec.ceph ≡ some ceph
    → runs (script_of step) i (ceph_plan cluster) ≡ (if is_target cluster step i then 1 else 0)
unfolding ceph_plan runs
ceph_plan-runs cluster init i e =
    rw (e, ceph_plan)
      (rw (plan_tasks-runs (script_of init) i _ _ cluster.spec.nodes) (ground arith))
ceph_plan-runs cluster mon i e =
    rw (e, ceph_plan) (rw (plan_tasks-runs (script_of mon) i _ _ cluster.spec.nodes) (ground arith))
ceph_plan-runs cluster mgr i e =
    rw (e, ceph_plan) (rw (plan_tasks-runs (script_of mgr) i _ _ cluster.spec.nodes) (ground arith))
ceph_plan-runs cluster osd i e =
    rw (e, ceph_plan) (rw (plan_tasks-runs (script_of osd) i _ _ cluster.spec.nodes) (ground arith))
ceph_plan-runs cluster pool i e =
    rw (e, ceph_plan)
      (rw (plan_tasks-runs (script_of pool) i _ _ cluster.spec.nodes) (ground arith))
ceph_plan-runs cluster status i e =
    rw (e, ceph_plan)
      (rw (plan_tasks-runs (script_of status) i _ _ cluster.spec.nodes) (ground arith))
