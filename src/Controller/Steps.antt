-- ===== src/Controller/Steps.antt =====
-- Steps 8 to 10 of `Reconcile`, `reconcileCeph` and `cephStepCondition` of
-- proxmoxcluster_controller.go: the scripts that build the cluster.
pub mod Keeps
pub mod Usable
pub mod Ran
pub mod Counts
pub mod Walks
pub mod Completes
use multiprox.Prelude.{
  ℕ, suc, ◌-◌, String, Bool, true, false, ◌&&◌, not, Option, none, some, List, [], ◌∷◌, ◌==◌,
  if◌then◌else◌, range_from,
}
use multiprox.Prelude.Int.{ℤ, pos, negsuc, leb_ℤ, eqb_ℤ}
use multiprox.Text.Strings.{◌+++◌, show_list}
use multiprox.Text.Decimal.{show_ℕ, show_ℤ}
use multiprox.Api.Cluster
use multiprox.Api.Cluster.{
  CephSpec, CephStatus, ProxmoxCluster, condition_cluster_initialized, condition_all_nodes_joined,
  condition_quorum_healthy, condition_ceph_initialized, condition_ceph_mons_ready,
  condition_ceph_osds_ready, condition_ceph_pools_ready, condition_ceph_healthy,
}
use multiprox.Ceph.Counts.{effective_mon_count, effective_mgr_count}
use multiprox.Ceph.Pools.{pool_names}
use multiprox.Ceph.Plan.{
  CephStep, init, mon, mgr, osd, pool, status, CephTask, ceph_plan, status_task,
}
use multiprox.Ceph.Status.{parse_ceph_status, ceph_usable}
use multiprox.Errors.{Error, Result, ok, err}
use multiprox.Exec.{truncate}
use multiprox.Controller.Kube.{Pass, Kube}
use multiprox.Controller.Pass.{pure, the_cluster, modify, ◌>>=◌, ◌>>◌}
use multiprox.Controller.Status.{update_status, set_condition, exec_script}

-- `ctrl.Result`, by the seconds of its `RequeueAfter`
abbrev pub Requeue : Type 0
Requeue = Option ℕ

abbrev pub requeue_short : Requeue
requeue_short = some 15

abbrev pub requeue_medium : Requeue
requeue_medium = some 30

abbrev pub requeue_long : Requeue
requeue_long = some 120

abbrev pub show_step : CephStep → String
show_step init = "init"
show_step mon = "mon"
show_step mgr = "mgr"
show_step osd = "osd"
show_step pool = "pool"
show_step status = "status"

unfoldable pub ceph_step_condition : CephStep → String
ceph_step_condition init = condition_ceph_initialized
ceph_step_condition mon = condition_ceph_mons_ready
ceph_step_condition mgr = condition_ceph_mons_ready
ceph_step_condition osd = condition_ceph_osds_ready
ceph_step_condition pool = condition_ceph_pools_ready
ceph_step_condition status = condition_ceph_healthy

-- `for i := int32(1); i < n; i++`
abbrev pub later_indices : ℤ → List ℕ
later_indices (pos n) = range_from 1 (n - 1)
later_indices (negsuc n) = []

abbrev pub set_joined_nodes : ℕ → ProxmoxCluster → ProxmoxCluster
set_joined_nodes n c = record c { status = record c.status { joined_nodes = pos n } }

abbrev pub set_ceph : CephStatus → ProxmoxCluster → ProxmoxCluster
set_ceph st c = record c { status = record c.status { ceph = some st } }

abbrev pub mon_message : ProxmoxCluster → CephSpec → String
mon_message cluster ceph =
    let mons = effective_mon_count cluster in
    let base =
      show_ℤ mons
      +++ " monitor(s) and "
      +++ show_ℤ (effective_mgr_count cluster)
      +++ " manager(s) created" in
    if eqb_ℤ ceph.mon_count mons
    then base
    else base
      +++ " (monCount "
      +++ show_ℤ ceph.mon_count
      +++ " adjusted to "
      +++ show_ℤ mons
      +++ ": capped at "
      +++ show_ℤ cluster.spec.nodes
      +++ " nodes, kept odd for quorum)"

abbrev pub health_message : CephStatus → String
health_message st =
    if st.health_detail == "" then st.health else st.health +++ ": " +++ st.health_detail

module _ (k : Kube) where
  abbrev pub finish_init : Option Error → Pass Requeue
  finish_init (some e) = do
    set_condition k condition_cluster_initialized false "" "InitFailed" (truncate e.text 400)
    update_status k Cluster.failed
    pure requeue_long
  finish_init none = do
    set_condition k condition_cluster_initialized true "ClusterCreated" ""
        "pvecm create succeeded on node-0"
    modify (set_joined_nodes 1)
    update_status k Cluster.joining
    pure requeue_short

  -- step 8
  unfoldable pub initialize : Pass Requeue
  initialize = do
    update_status k Cluster.initializing
    (out, error) ← exec_script k 0 "/scripts/cluster-init.sh"
    finish_init error

  abbrev pub next_join : ℕ → Pass (ℕ × Option Error) → Option Error → Pass (ℕ × Option Error)
  next_join joined rest none = rest
  next_join joined rest (some e) = pure (joined, some e)

  -- The loop over the later nodes: how many nodes are in the cluster at its end, and the error that
  -- ended it.
  unfoldable pub join_nodes : ℕ → List ℕ → Pass (ℕ × Option Error)
  join_nodes joined [] = pure (joined, none)
  join_nodes joined (i ∷ is) = do
    (out, error) ← exec_script k i "/scripts/cluster-join.sh"
    next_join joined (join_nodes (suc joined) is) error

  abbrev pub finish_join : ProxmoxCluster → ℕ × Option Error → Pass Requeue
  finish_join cluster (joined, some e) = do
    modify (set_joined_nodes joined)
    update_status k Cluster.joining
    pure requeue_medium
  finish_join cluster (joined, none) = do
    modify (set_joined_nodes joined)
    set_condition k condition_all_nodes_joined true "AllNodesJoined" ""
        ("all " +++ show_ℤ cluster.spec.nodes +++ " nodes joined")
    set_condition k condition_quorum_healthy true "QuorumOK" "" "Corosync quorum established"
    update_status k Cluster.joining
    pure requeue_short

  -- step 9
  unfoldable pub join : Pass Requeue
  join = do
    update_status k Cluster.joining
    cluster ← the_cluster
    joined ← join_nodes 1 (later_indices cluster.spec.nodes)
    finish_join cluster joined

  abbrev pub next_task :
      CephTask → Pass (Option (CephTask × Error)) → Option Error → Pass (Option (CephTask × Error))
  next_task t rest none = rest
  next_task t rest (some e) = pure (some (t, e))

  -- the loop over the plan: the task that failed, and its error
  unfoldable pub walk_plan : List CephTask → Pass (Option (CephTask × Error))
  walk_plan [] = pure none
  walk_plan (t ∷ ts) = do
    (out, error) ← exec_script k t.ordinal t.script
    next_task t (walk_plan ts) error

  -- Where the source returns `done`, the result is `none`.
  abbrev pub plan_failed : CephTask → Error → Pass (Option Requeue)
  plan_failed t e = do
    set_condition k (ceph_step_condition t.step) false "" (show_step t.step +++ "Failed")
        (truncate ("pod-" +++ show_ℕ t.ordinal +++ ": " +++ e.text) 400)
    update_status k Cluster.configuring_ceph
    pure (some requeue_medium)

  abbrev pub report_structure : ProxmoxCluster → CephSpec → Pass (Unit {0})
  report_structure cluster ceph = do
    set_condition k condition_ceph_initialized true "CephInitialized" ""
        "pveceph init completed; /etc/pve/ceph.conf present"
    set_condition k condition_ceph_mons_ready true "MonsCreated" "" (mon_message cluster ceph)
    set_condition k condition_ceph_pools_ready true "PoolsCreated" ""
        ("pools reconciled: " +++ show_list (pool_names cluster))

  abbrev pub not_usable : Pass (Option Requeue)
  not_usable = do update_status k Cluster.configuring_ceph; pure (some requeue_medium)

  abbrev pub report_status : CephStatus → Pass (Option Requeue)
  report_status st = do
    modify (set_ceph st)
    set_condition k condition_ceph_osds_ready (leb_ℤ st.osds_expected st.osds_ready) "AllOSDsUp"
        "OSDsNotReady" (show_ℤ st.osds_ready +++ "/" +++ show_ℤ st.osds_expected +++ " OSDs up")
    set_condition k condition_ceph_healthy (ceph_usable (some st)) "CephUsable" "CephNotUsable"
        (health_message st)
    if ceph_usable (some st) then pure none else not_usable

  abbrev pub poll_status : ProxmoxCluster → String × Option Error → Pass (Option Requeue)
  poll_status cluster (out, some _) = pure (some requeue_medium)
  poll_status cluster (out, none) = report_status (parse_ceph_status cluster out)

  abbrev pub after_plan :
      ProxmoxCluster → CephSpec → Option (CephTask × Error) → Pass (Option Requeue)
  after_plan cluster ceph (some (t, e)) = plan_failed t e
  after_plan cluster ceph none = do
    report_structure cluster ceph
    reply ← exec_script k status_task.ordinal status_task.script
    poll_status cluster reply

  unfoldable pub reconcile_ceph : CephSpec → Pass (Option Requeue)
  reconcile_ceph ceph = do
    update_status k Cluster.configuring_ceph
    cluster ← the_cluster
    failed ← walk_plan (ceph_plan cluster)
    after_plan cluster ceph failed
