-- ===== src/Api/Node.antt =====
-- proxmoxnode_types.go: the ProxmoxNode object, which shows the observed state of one node.
use multiprox.Prelude.{ℕ, String, Bool, Option, List}
use multiprox.Prelude.Int.{ℤ}
use multiprox.Api.Meta.{Time, Condition, ObjectMeta}

pub record ProxmoxNodeSpec : Type 0 where
  pub cluster_ref : String
  pub node_name : String
  pub ordinal : ℕ

-- `unset` is the empty text, Go's zero value
pub data NodePhase : Type 0 where
  unset pending starting joining ready offline failed : NodePhase

abbrev pub node_condition_pod_ready : String
node_condition_pod_ready = "PodReady"

abbrev pub node_condition_cluster_member : String
node_condition_cluster_member = "ClusterMember"

abbrev pub node_condition_ceph_osds_up : String
node_condition_ceph_osds_up = "CephOSDsUp"

pub record ProxmoxNodeCephStatus : Type 0 where
  pub monitor : Bool
  pub manager : Bool
  pub osds_up : ℤ
  pub osds_total : ℤ
  pub osd_summary : String
  pub devices : List String

pub record ProxmoxNodeStatus : Type 0 where
  pub phase : NodePhase
  pub conditions : List Condition
  pub in_cluster : Bool
  pub online : Bool
  pub corosync_node_id : ℤ
  pub pod_name : String
  pub pod_ip : String
  pub kubernetes_node : String
  pub ceph : Option ProxmoxNodeCephStatus
  pub observed_at : Option Time

pub record ProxmoxNode : Type 0 where
  pub meta : ObjectMeta
  pub spec : ProxmoxNodeSpec
  pub status : ProxmoxNodeStatus
