-- ===== src/Api/Cluster.antt =====
-- proxmoxcluster_types.go: the ProxmoxCluster object, its spec and its status.
use multiprox.Prelude.{String, Bool, Option, List}
use multiprox.Prelude.Int.{ℤ}
use multiprox.Api.Meta.{StringMap, Condition, ObjectMeta}

-- Types of k8s.io/api that the operator passes through to the pod.

-- a `resource.Quantity`, by the text that it was parsed from
pub record Quantity : Type 0 where
  pub text : String

pub record ResourceRequirements : Type 0 where
  pub limits : Option (List (String × Quantity))
  pub requests : Option (List (String × Quantity))

pub record Toleration : Type 0 where
  pub key : String
  pub operator : String
  pub value : String
  pub effect : String
  pub toleration_seconds : Option ℤ

pub record WeightedPodAffinityTerm : Type 0 where
  pub weight : ℤ
  pub match_labels : StringMap
  pub topology_key : String

-- an affinity that the user wrote, which is never looked into, or one built by the operator
pub data Affinity : Type 0 where
  authored : String → Affinity
  preferred_anti_affinity : List WeightedPodAffinityTerm → Affinity

-- The spec.

pub record PvcSpec : Type 0 where
  pub storage_class : Option String
  pub size : String

pub record StorageSpec : Type 0 where
  pub cluster_data : PvcSpec
  pub vm_storage : PvcSpec

pub record CorosyncSpec : Type 0 where
  pub transport : String
  pub crypto : String
  pub hash : String

pub record CephPoolSpec : Type 0 where
  pub name : String
  pub size : ℤ
  pub min_size : ℤ
  pub pg_num : ℤ
  pub content : List String
  pub add_as_storage : Option Bool

pub record CephSpec : Type 0 where
  pub osds_per_node : ℤ
  pub osd_size : String
  pub osd_storage_class : Option String
  pub osd_device_prefix : String
  pub network : String
  pub cluster_network : String
  pub mon_count : ℤ
  pub mgr_count : ℤ
  pub pools : List CephPoolSpec

abbrev pub default_pool_name : String
default_pool_name = "ceph-vm"

pub record ProxmoxClusterSpec : Type 0 where
  pub nodes : ℤ
  pub cluster_name : String
  pub image : String
  pub image_pull_policy : String
  pub image_pull_secrets : List String
  pub resources : ResourceRequirements
  pub storage : StorageSpec
  pub corosync : CorosyncSpec
  pub ceph : Option CephSpec
  pub node_selector : StringMap
  pub tolerations : List Toleration
  pub affinity : Option Affinity

-- The status. `unset` is the empty text, Go's zero value.

pub data Phase : Type 0 where
  unset pending initializing joining configuring_ceph ready degraded failed : Phase

abbrev pub condition_statefulset_ready : String
condition_statefulset_ready = "StatefulSetReady"

abbrev pub condition_cluster_initialized : String
condition_cluster_initialized = "ClusterInitialized"

abbrev pub condition_all_nodes_joined : String
condition_all_nodes_joined = "AllNodesJoined"

abbrev pub condition_quorum_healthy : String
condition_quorum_healthy = "QuorumHealthy"

abbrev pub condition_ceph_initialized : String
condition_ceph_initialized = "CephInitialized"

abbrev pub condition_ceph_mons_ready : String
condition_ceph_mons_ready = "CephMonsReady"

abbrev pub condition_ceph_osds_ready : String
condition_ceph_osds_ready = "CephOSDsReady"

abbrev pub condition_ceph_pools_ready : String
condition_ceph_pools_ready = "CephPoolsReady"

abbrev pub condition_ceph_healthy : String
condition_ceph_healthy = "CephHealthy"

pub record CephStatus : Type 0 where
  pub initialized : Bool
  pub monitors : List String
  pub managers : List String
  pub osds_ready : ℤ
  pub osds_expected : ℤ
  pub osd_summary : String
  pub pools : List String
  pub health : String
  pub health_detail : String

pub record ProxmoxClusterStatus : Type 0 where
  pub phase : Phase
  pub conditions : List Condition
  pub joined_nodes : ℤ
  pub cluster_id : String
  pub corosync_config_version : ℤ
  pub ceph : Option CephStatus
  pub observed_generation : ℤ

pub record ProxmoxCluster : Type 0 where
  pub meta : ObjectMeta
  pub spec : ProxmoxClusterSpec
  pub status : ProxmoxClusterStatus
