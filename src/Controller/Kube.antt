-- ===== src/Controller/Kube.antt =====
-- What the reconciler uses of Kubernetes and of its Go libraries, as parameters: the API server's
-- answers, the executor, the clock, and the helpers of client-go, apimachinery and
-- controller-runtime.
use multiprox.Prelude.{String, Bool, List}
use multiprox.Api.Meta.{Time, StringMap, Condition, ObjectMeta}
use multiprox.Api.Cluster.{ProxmoxCluster}
use multiprox.Api.Node.{ProxmoxNodeStatus, ProxmoxNode}
use multiprox.Api.Pod.{Pod}
use multiprox.Workload.Objects.{Service, ConfigMap, StatefulSet}
use multiprox.Errors.{Result}
use multiprox.Exec.{Executor}

-- `types.NamespacedName`
pub record Key : Type 0 where
  pub namespace : String
  pub name : String

abbrev pub key_of : ObjectMeta → Key
key_of meta = record { namespace = meta.namespace; name = meta.name }

-- a request to the API server, or a command run in a pod
pub data Call : Type 0 where
  get_cluster : Key → Call
  update_cluster update_cluster_status : ProxmoxCluster → Call
  get_service get_config_map get_stateful_set get_pod get_node : Key → Call
  create_service patch_service : Service → Call
  create_config_map patch_config_map : ConfigMap → Call
  create_stateful_set patch_stateful_set : StatefulSet → Call
  list_pods list_nodes : (namespace : String) (labels : StringMap) → Call
  create_node patch_node update_node_status : ProxmoxNode → Call
  delete_node : Key → Call
  exec : (pod : Key) (command : List String) → Call

-- the calls made so far, the last one first
abbrev pub History : Type 0
History = List Call

-- The server's answers. What other writers do between two calls shows in them, so each may depend on
-- the whole history. A write answers with the object as stored.
pub record Server : Type 0 where
  pub on_get_cluster : History → Key → Result ProxmoxCluster
  pub on_update_cluster : History → ProxmoxCluster → Result ProxmoxCluster
  pub on_update_cluster_status : History → ProxmoxCluster → Result ProxmoxCluster
  pub on_get_service : History → Key → Result Service
  pub on_write_service : History → Service → Result Service
  pub on_get_config_map : History → Key → Result ConfigMap
  pub on_write_config_map : History → ConfigMap → Result ConfigMap
  pub on_get_stateful_set : History → Key → Result StatefulSet
  pub on_write_stateful_set : History → StatefulSet → Result StatefulSet
  pub on_get_pod : History → Key → Result Pod
  pub on_list_pods : History → String → StringMap → Result (List Pod)
  pub on_get_node : History → Key → Result ProxmoxNode
  pub on_write_node : History → ProxmoxNode → Result ProxmoxNode
  pub on_list_nodes : History → String → StringMap → Result (List ProxmoxNode)
  pub on_delete_node : History → Key → Result (Unit {0})
  pub executor : History → Executor
  pub now : History → Time

-- `Run` is what a pass works on: the calls made and the cluster object in memory.
pub record Run : Type 0 where
  pub history : History
  pub cluster : ProxmoxCluster

-- A step of a pass. What was done before an error stays done.
abbrev pub Pass : Type 0 → Type 0
Pass A = Run → Result A × Run

pub record Kube : Type 0 where
  pub server : Server
  -- the fields `RestConfig` and `KubeClient` of the reconciler are set
  pub has_rest_config : Bool
  pub has_kube_client : Bool
  -- `retry.RetryOnConflict(retry.DefaultRetry, …)`
  pub retry_on_conflict : Pass (Unit {0}) → Pass (Unit {0})
  -- `meta.SetStatusCondition` and `meta.IsStatusConditionTrue`
  pub set_status_condition : Time → List Condition → Condition → List Condition
  pub is_status_condition_true : List Condition → String → Bool
  -- `controllerutil`
  pub set_controller_reference : ProxmoxCluster → ObjectMeta → Result ObjectMeta
  pub contains_finalizer : List String → String → Bool
  pub add_finalizer : List String → String → List String × Bool
  pub remove_finalizer : List String → String → List String × Bool
  -- `equality.Semantic.DeepEqual`
  pub deep_equal_map : StringMap → StringMap → Bool
  pub deep_equal_status : ProxmoxNodeStatus → ProxmoxNodeStatus → Bool
