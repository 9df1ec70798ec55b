-- ===== src/Workload/Names.antt =====
-- The names and labels of the objects: service.go, configmap.go, node.go.
pub mod Distinct
use multiprox.Prelude.{ℕ, String, [], ◌∷◌, ◌==◌, if◌then◌else◌}
use multiprox.Text.Strings.{◌+++◌}
use multiprox.Text.Decimal.{show_ℕ}
use multiprox.Api.Meta.{StringMap}
use multiprox.Api.Cluster.{ProxmoxCluster}

unfoldable pub headless_svc_name : ProxmoxCluster → String
headless_svc_name cluster = cluster.meta.name +++ "-headless"

unfoldable pub ui_svc_name : ProxmoxCluster → String
ui_svc_name cluster = cluster.meta.name +++ "-ui"

unfoldable pub config_map_name : ProxmoxCluster → String
config_map_name cluster = cluster.meta.name +++ "-config"

-- the name of the pod with this ordinal, and of the ProxmoxNode that shows it
unfoldable pub node_object_name : ProxmoxCluster → ℕ → String
unfolding show_ℕ
node_object_name cluster ordinal = cluster.meta.name +++ "-" +++ show_ℕ ordinal

unfoldable pub node_dns : ProxmoxCluster → ℕ → String
unfolding show_ℕ headless_svc_name
node_dns cluster ordinal =
    cluster.meta.name
    +++ "-"
    +++ show_ℕ ordinal
    +++ "."
    +++ headless_svc_name cluster
    +++ "."
    +++ cluster.meta.namespace
    +++ ".svc.cluster.local"

unfoldable pub cluster_labels : ProxmoxCluster → StringMap
cluster_labels cluster =
    ("app.kubernetes.io/name", "proxmox-cluster")
    ∷ ("app.kubernetes.io/instance", cluster.meta.name)
    ∷ ("app.kubernetes.io/managed-by", "multiprox-operator")
    ∷ []

unfoldable pub pod_labels : ProxmoxCluster → StringMap
pod_labels cluster =
    ("app.kubernetes.io/name", "proxmox-cluster")
    ∷ ("app.kubernetes.io/instance", cluster.meta.name)
    ∷ []

unfoldable pub coalesce : String → String → String
coalesce s def = if s == "" then def else s
