-- ===== src/Node/Projection.antt =====
-- `ProxmoxNodeFor`, `nodePhase` and the messages of node.go.
pub mod Printed
pub mod Observes
pub mod Devices
use multiprox.Prelude.{
  ℕ, String, Bool, true, false, ◌&&◌, ◌||◌, Option, none, some, List, [], ◌∷◌, ◌++◌, map, ◌==◌,
  if◌then◌else◌,
}
use multiprox.Prelude.Int.{ℤ, pos, ltb_ℤ, leb_ℤ, indices}
use multiprox.Text.Strings.{◌+++◌}
use multiprox.Text.Decimal.{show_ℕ, show_ℤ}
use multiprox.Api.Meta.{
  Time, ConditionStatus, true_status, false_status, unknown_status, Condition, ObjectMeta, new_meta,
}
use multiprox.Api.Cluster.{CephSpec, ProxmoxCluster}
use multiprox.Api.Node
use multiprox.Api.Node.{
  NodePhase, ProxmoxNodeCephStatus, ProxmoxNodeStatus, ProxmoxNode, node_condition_pod_ready,
  node_condition_cluster_member, node_condition_ceph_osds_up,
}
use multiprox.Api.Pod.{
  Pod, PodPhase, pending, running, succeeded, failed, unknown, PodCondition, pod_ready, show_phase,
}
use multiprox.Ceph.Counts.{max_int32}
use multiprox.Workload.Names.{node_object_name}
use multiprox.Workload.Devices.{osd_device_path}
use multiprox.Node.Inventory.{NodeInventory}

abbrev pub is_true : ConditionStatus → Bool
is_true true_status = true
is_true false_status = false
is_true unknown_status = false

-- the loop that looks for the condition `Ready`
unfoldable pub ready_condition : List PodCondition → Bool
ready_condition [] = false
ready_condition (c ∷ cs) = (c.type == pod_ready && is_true c.status) || ready_condition cs

-- what `podReady` holds; `none` is the nil pod
abbrev pub is_pod_ready : Option Pod → Bool
is_pod_ready none = false
is_pod_ready (some pod) = ready_condition pod.conditions

-- the tests behind the `switch` on the pod's phase
abbrev pub running_phase : Bool → Bool → Bool → NodePhase
running_phase ready in_cluster online =
    if ready
    then (if in_cluster
        then (if online then NodePhase.ready else NodePhase.offline)
        else NodePhase.joining)
    else NodePhase.starting

abbrev pub phase_of : PodPhase → NodePhase → NodePhase
phase_of pending rest = NodePhase.pending
phase_of failed rest = NodePhase.failed
phase_of succeeded rest = NodePhase.failed
phase_of running rest = rest
phase_of unknown rest = rest

unfoldable pub node_phase : Option Pod → Bool → Bool → Bool → NodePhase
node_phase none ready in_cluster online = NodePhase.pending
node_phase (some pod) ready in_cluster online =
    phase_of pod.phase (running_phase ready in_cluster online)

unfoldable pub pod_ready_message : Option Pod → Bool → String
pod_ready_message none ready = "pod does not exist yet"
pod_ready_message (some pod) ready =
    if ready
    then "pod " +++ pod.name +++ " is Running and Ready on " +++ pod.node_name
    else "pod " +++ pod.name +++ " is " +++ show_phase pod.phase

unfoldable pub cluster_member_message : Bool → Bool → ℤ → String
unfolding show_ℤ
cluster_member_message in_cluster online node_id =
    if in_cluster
    then (if online
        then "node is an online Corosync member (nodeid " +++ show_ℤ node_id +++ ")"
        else "node is a member (nodeid " +++ show_ℤ node_id +++ ") but not currently reachable")
    else "node does not appear in `pvecm nodes`"

-- the condition that `setNodeCondition` appends
abbrev pub node_condition : String → Bool → String → String → String → Time → Condition
node_condition type ok true_reason false_reason message now = record {
  type = type;
  status = if ok then true_status else false_status;
  observed_generation = pos 0;
  last_transition_time = now;
  reason = if ok then true_reason else false_reason;
  message = message;
}

abbrev pub set_node_condition :
    ProxmoxNodeStatus → String → Bool → String → String → String → Time → ProxmoxNodeStatus
set_node_condition st type ok true_reason false_reason message now = record st {
  conditions = st.conditions ++ node_condition type ok true_reason false_reason message now ∷ [];
}

-- Go's zero value, with the time of the observation
abbrev pub observed : Time → ProxmoxNodeStatus
observed now = record {
  phase = NodePhase.unset;
  conditions = [];
  in_cluster = false;
  online = false;
  corosync_node_id = pos 0;
  pod_name = "";
  pod_ip = "";
  kubernetes_node = "";
  ceph = none;
  observed_at = some now;
}

abbrev pub with_pod : Option Pod → ProxmoxNodeStatus → ProxmoxNodeStatus
with_pod none st = st
with_pod (some pod) st = record st {
  pod_name = pod.name;
  pod_ip = pod.pod_ip;
  kubernetes_node = pod.node_name;
}

abbrev pub with_inventory : Option NodeInventory → ProxmoxNodeStatus → ProxmoxNodeStatus
with_inventory none st = st
with_inventory (some inv) st = record st {
  in_cluster = ltb_ℤ (pos 0) inv.node_id;
  online = inv.online;
  corosync_node_id = inv.node_id;
}

-- the daemons that the inventory reports
abbrev pub ceph_facts : Option NodeInventory → ProxmoxNodeCephStatus
ceph_facts none = record {
  monitor = false;
  manager = false;
  osds_up = pos 0;
  osds_total = pos 0;
  osd_summary = "";
  devices = [];
}
ceph_facts (some inv) = record {
  monitor = inv.monitor;
  manager = inv.manager;
  osds_up = inv.osds_up;
  osds_total = inv.osds_total;
  osd_summary = "";
  devices = [];
}

unfoldable pub node_ceph_status :
    ProxmoxCluster → CephSpec → Option NodeInventory → ProxmoxNodeCephStatus
unfolding osd_device_path show_ℤ
node_ceph_status cluster ceph inv =
    let per_node = max_int32 ceph.osds_per_node (pos 1) in
    let cs = ceph_facts inv in
    record cs {
      devices = map (osd_device_path cluster) (indices per_node);
      osd_summary = show_ℤ cs.osds_up +++ "/" +++ show_ℤ per_node;
    }

abbrev pub with_ceph :
    ProxmoxCluster → Option CephSpec → Option NodeInventory → ProxmoxNodeStatus → ProxmoxNodeStatus
with_ceph cluster none inv st = st
with_ceph cluster (some ceph) inv st = record st { ceph = some (node_ceph_status cluster ceph inv) }

abbrev pub osds_up_of : Option ProxmoxNodeCephStatus → ℤ
osds_up_of none = pos 0
osds_up_of (some cs) = cs.osds_up

-- the third condition, which is set only where Ceph is asked for
abbrev pub with_osd_condition : Option CephSpec → Time → ProxmoxNodeStatus → ProxmoxNodeStatus
with_osd_condition none now st = st
with_osd_condition (some ceph) now st =
    let expected = max_int32 ceph.osds_per_node (pos 1) in
    let osds_up = osds_up_of st.ceph in
    set_node_condition st node_condition_ceph_osds_up (leb_ℤ expected osds_up) "AllOSDsUp"
      "OSDsNotUp" (show_ℤ osds_up +++ "/" +++ show_ℤ expected +++ " OSDs up on this node") now

-- the status, with `cluster.Spec.Ceph` handed over
unfoldable pub status_with :
    ProxmoxCluster → Option CephSpec → Option Pod → Option NodeInventory → Time → ProxmoxNodeStatus
unfolding node_ceph_status node_phase pod_ready_message cluster_member_message ready_condition
    show_ℤ
status_with cluster ceph pod inv now =
    let ready = is_pod_ready pod in
    let seen = with_ceph cluster ceph inv (with_inventory inv (with_pod pod (observed now))) in
    let phased = record seen { phase = node_phase pod ready seen.in_cluster seen.online } in
    let with_ready =
      set_node_condition phased node_condition_pod_ready ready "PodReady" "PodNotReady"
        (pod_ready_message pod ready) now in
    let with_member =
      set_node_condition with_ready node_condition_cluster_member phased.in_cluster
        "IsClusterMember" "NotClusterMember"
        (cluster_member_message phased.in_cluster phased.online phased.corosync_node_id) now in
    with_osd_condition ceph now with_member

unfoldable pub node_status :
    ProxmoxCluster → Option Pod → Option NodeInventory → Time → ProxmoxNodeStatus
unfolding status_with
node_status cluster pod inv now = status_with cluster cluster.spec.ceph pod inv now

unfoldable pub proxmox_node_for :
    ProxmoxCluster → ℕ → Option Pod → Option NodeInventory → Time → ProxmoxNode
unfolding node_status node_object_name show_ℕ
proxmox_node_for cluster ordinal pod inv now =
    let name = node_object_name cluster ordinal in
    record {
      meta =
          new_meta name cluster.meta.namespace
            (("app.kubernetes.io/name", "proxmox-node")
              ∷ ("app.kubernetes.io/instance", cluster.meta.name)
              ∷ ("app.kubernetes.io/managed-by", "multiprox-operator")
              ∷ ("multiprox.io/cluster", cluster.meta.name)
              ∷ ("multiprox.io/ordinal", show_ℕ ordinal)
              ∷ [])
            ((
              "multiprox.io/projection",
              "observed-state; written by the operator, edits are overwritten on the next reconcile",
            )
              ∷ []);
      spec = record { cluster_ref = cluster.meta.name; node_name = name; ordinal = ordinal };
      status = node_status cluster pod inv now;
    }
