-- ===== src/Node/Projection/Observes.antt =====
-- What the projection of node.go says of a node.
use multiprox.Prelude.{◌≡◌, ◌≢◌, ◌↔◌, ◌⊎◌, Bool, true, false, Option, none, some, arith, eq_iff}
use multiprox.Prelude.Int.{pos, ◌<ℤ◌}
use multiprox.Api.Meta.{Time}
use multiprox.Api.Cluster.{CephSpec, ProxmoxCluster}
use multiprox.Api.Node.{
  node_condition_pod_ready, node_condition_cluster_member, node_condition_ceph_osds_up,
  ProxmoxNodeStatus,
}
use multiprox.Api.Pod.{Pod, running, unknown}
use multiprox.Node.Inventory.{NodeInventory}
use multiprox.Node.Projection.{ready_condition, status_with, node_status}
use multiprox.Node.Merge.{merge_node_status}
use multiprox.Node.Merge.Times.{HasUniqueTypes}
use multiprox.Node.Merge.Writes.{SameFacts, merge_node_status-twice}

-- a node in service: its pod runs and is ready, and Corosync has it as a member that is online
pub record InService (pod : Pod) (inv : NodeInventory) : Type 0 where
  pub runs : (pod.phase ≡ running) ⊎ (pod.phase ≡ unknown)
  pub pod_is_ready : ready_condition pod.conditions ≡ true
  pub member : pos 0 <ℤ inv.node_id
  pub reachable : inv.online ≡ true

-- `none` is a pod that does not exist, or a node that Proxmox does not know
abbrev pub IsInService : Option Pod → Option NodeInventory → Type 0
IsInService none inv = ⊥
IsInService (some pod) none = ⊥
IsInService (some pod) (some inv) = InService pod inv

member-ne-ready : node_condition_cluster_member ≢ node_condition_pod_ready
member-ne-ready = ground (arith, eq_iff node_condition_cluster_member node_condition_pod_ready)

osds-ne-ready : node_condition_ceph_osds_up ≢ node_condition_pod_ready
osds-ne-ready = ground (arith, eq_iff node_condition_ceph_osds_up node_condition_pod_ready)

osds-ne-member : node_condition_ceph_osds_up ≢ node_condition_cluster_member
osds-ne-member = ground (arith, eq_iff node_condition_ceph_osds_up node_condition_cluster_member)

ruleset types = (arith, member-ne-ready, osds-ne-ready, osds-ne-member)

status_with-HasUniqueTypes :
    (cluster : ProxmoxCluster) (ceph : Option CephSpec) (pod : Option Pod)
    (inv : Option NodeInventory) (now : Time)
    → HasUniqueTypes (status_with cluster ceph pod inv now).conditions
unfolding status_with
status_with-HasUniqueTypes cluster none none none now = ground types
status_with-HasUniqueTypes cluster none none (some n) now = ground types
status_with-HasUniqueTypes cluster none (some p) none now = ground types
status_with-HasUniqueTypes cluster none (some p) (some n) now = ground types
status_with-HasUniqueTypes cluster (some ceph) none none now = ground types
status_with-HasUniqueTypes cluster (some ceph) none (some n) now = ground types
status_with-HasUniqueTypes cluster (some ceph) (some p) none now = ground types
status_with-HasUniqueTypes cluster (some ceph) (some p) (some n) now = ground types

status_with-SameFacts :
    (cluster : ProxmoxCluster) (ceph : Option CephSpec) (pod : Option Pod)
    (inv : Option NodeInventory) (now later : Time)
    → SameFacts (status_with cluster ceph pod inv later) (status_with cluster ceph pod inv now)
unfolding status_with
status_with-SameFacts cluster none none none now later = ground arith
status_with-SameFacts cluster none none (some n) now later = ground arith
status_with-SameFacts cluster none (some p) none now later = ground arith
status_with-SameFacts cluster none (some p) (some n) now later = ground arith
status_with-SameFacts cluster (some ceph) none none now later = ground arith
status_with-SameFacts cluster (some ceph) none (some n) now later = ground arith
status_with-SameFacts cluster (some ceph) (some p) none now later = ground arith
status_with-SameFacts cluster (some ceph) (some p) (some n) now later = ground arith

-- `deep_equal` decides equality
module _ (deep_equal : ProxmoxNodeStatus → ProxmoxNodeStatus → Bool)
    (deep_equal_iff : (a b : ProxmoxNodeStatus) → (deep_equal a b ≡ true) ↔ (a ≡ b)) where
  -- A node that has not changed is written at most once: whatever was stored, the second of two
  -- reconciles that see the same pod and inventory, at whatever times, asks for no write and leaves
  -- the stored status, its times included, as the first left it.
  pub node_status-written_once :
      (existing : ProxmoxNodeStatus) (cluster : ProxmoxCluster) (pod : Option Pod)
      (inv : Option NodeInventory) (now later : Time)
      → merge_node_status deep_equal
          (merge_node_status deep_equal existing (node_status cluster pod inv now)).0
          (node_status cluster pod inv later)
        ≡ ((merge_node_status deep_equal existing (node_status cluster pod inv now)).0, false)
  unfolding node_status
  node_status-written_once existing cluster pod inv now later =
      merge_node_status-twice deep_equal deep_equal_iff existing _ _
        (status_with-HasUniqueTypes cluster cluster.spec.ceph pod inv now)
        (status_with-SameFacts cluster cluster.spec.ceph pod inv now later)
