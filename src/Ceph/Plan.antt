-- ===== src/Ceph/Plan.antt =====
-- `CephTask`, `CephPlan` and `StatusTask` of ceph.go.
pub mod Order
pub mod Runs
pub mod Scripts
use multiprox.Prelude.{ℕ, String, Bool, true, false, Option, none, some, List, [], ◌∷◌, ◌++◌, map}
use multiprox.Prelude.Int.{indices}
use multiprox.Api.Cluster.{ProxmoxCluster}
use multiprox.Ceph.Counts.{effective_mon_count, effective_mgr_count}

pub data CephStep : Type 0 where
  init mon mgr osd pool status : CephStep

-- an ordinal counts from zero
pub record CephTask : Type 0 where
  pub step : CephStep
  pub step0 : Bool
  pub ordinal : ℕ
  pub script : String

unfoldable pub command : CephTask → List String
command t = "bash" ∷ t.script ∷ []

abbrev pub leader_task : CephStep → String → CephTask
leader_task step script = record { step = step; step0 = true; ordinal = 0; script = script }

abbrev pub node_task : CephStep → String → ℕ → CephTask
node_task step script i = record { step = step; step0 = false; ordinal = i; script = script }

abbrev pub init_tasks : List CephTask
init_tasks = leader_task init "/scripts/ceph-init.sh" ∷ []

abbrev pub mon_tasks : ProxmoxCluster → List CephTask
mon_tasks cluster =
    map (node_task mon "/scripts/ceph-mon.sh") (indices (effective_mon_count cluster))

abbrev pub mgr_tasks : ProxmoxCluster → List CephTask
mgr_tasks cluster =
    map (node_task mgr "/scripts/ceph-mgr.sh") (indices (effective_mgr_count cluster))

abbrev pub osd_tasks : ProxmoxCluster → List CephTask
osd_tasks cluster = map (node_task osd "/scripts/ceph-osd.sh") (indices cluster.spec.nodes)

abbrev pub pool_tasks : List CephTask
pool_tasks = leader_task pool "/scripts/ceph-pool.sh" ∷ []

unfoldable pub ceph_plan : ProxmoxCluster → List CephTask
ceph_plan cluster = elim cluster.spec.ceph [
  | none ↦ []
  | some _ ↦
      init_tasks ++ (mon_tasks cluster ++ (mgr_tasks cluster ++ (osd_tasks cluster ++ pool_tasks)))
]

unfoldable pub status_task : CephTask
status_task = leader_task status "/scripts/ceph-status.sh"
