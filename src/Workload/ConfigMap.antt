-- ===== src/Workload/ConfigMap.antt =====
-- `ConfigMap`, `renderCorosync` and `datacenterCfg` of configmap.go.
pub mod Members
use multiprox.Prelude.{ℕ, suc, String, Option, none, some, List, [], ◌∷◌, ◌++◌, map}
use multiprox.Prelude.Int.{ℤ, pos, negsuc, indices}
use multiprox.Text.Strings.{◌+++◌, unlines}
use multiprox.Text.Decimal.{show_ℕ}
use multiprox.Api.Meta.{StringMap, new_meta}
use multiprox.Api.Cluster.{CephSpec, ProxmoxCluster}
use multiprox.Workload.Names.{config_map_name, node_object_name, node_dns, cluster_labels, coalesce}
use multiprox.Workload.Objects.{ConfigMap}
use multiprox.Scripts.Join.{cluster_init_script, cluster_join_script, node_bootstrap_script}
use multiprox.Scripts.Inventory.{cluster_inventory_script}
use multiprox.Scripts.Daemons.{
  ceph_init_script, ceph_mon_script, ceph_mgr_script, ceph_osd_script, ceph_status_script,
}
use multiprox.Scripts.Pool.{ceph_pool_script}

pub record CorosyncNode : Type 0 where
  pub name : String
  pub address : String
  pub id : ℕ

pub record CorosyncData : Type 0 where
  pub cluster_name : String
  pub transport : String
  pub crypto : String
  pub hash : String
  pub nodes : List CorosyncNode

-- the entry of one node; its address is written as in `nodeDNS`
unfoldable pub corosync_node : ProxmoxCluster → ℕ → CorosyncNode
unfolding node_object_name node_dns
corosync_node cluster i = record {
  name = node_object_name cluster i;
  address = node_dns cluster i;
  id = suc i;
}

-- `make([]corosyncNode, n)` panics at a negative length
unfoldable pub corosync_nodes : ProxmoxCluster → ℤ → Option (List CorosyncNode)
unfolding corosync_node
corosync_nodes cluster (pos n) = some (map (corosync_node cluster) (indices (pos n)))
corosync_nodes cluster (negsuc n) = none

unfoldable pub render_node : CorosyncNode → String
unfolding show_ℕ
render_node n =
    "  node {\n    ring0_addr: "
    +++ n.address
    +++ "\n    name:       "
    +++ n.name
    +++ "\n    nodeid:     "
    +++ show_ℕ n.id
    +++ "\n  }\n"

unfoldable pub render_nodes : List CorosyncNode → String
unfolding render_node
render_nodes [] = ""
render_nodes (n ∷ ns) = render_node n +++ render_nodes ns

-- the template, executed
unfoldable pub render : CorosyncData → String
unfolding render_nodes
render d =
    "\ntotem {\n  version:      2\n  cluster_name: "
    +++ d.cluster_name
    +++ "\n  transport:    "
    +++ d.transport
    +++ "\n  crypto_cipher: "
    +++ d.crypto
    +++ "\n  crypto_hash:  "
    +++ d.hash
    +++ "\n}\n\nnodelist {\n"
    +++ render_nodes d.nodes
    +++ "}\n\nquorum {\n  provider: corosync_votequorum\n}\n\nlogging {\n  to_syslog: yes\n}\n"

unfoldable pub corosync_data : ProxmoxCluster → List CorosyncNode → CorosyncData
unfolding coalesce
corosync_data cluster nodes = record {
  cluster_name = cluster.spec.cluster_name;
  transport = coalesce cluster.spec.corosync.transport "knet";
  crypto = coalesce cluster.spec.corosync.crypto "aes256";
  hash = coalesce cluster.spec.corosync.hash "sha256";
  nodes = nodes;
}

unfoldable pub render_corosync : ProxmoxCluster → Option String
unfolding corosync_nodes render corosync_data
render_corosync cluster = elim (corosync_nodes cluster cluster.spec.nodes) [
  | none ↦ none
  | some nodes ↦ some (render (corosync_data cluster nodes))
]

unfoldable pub datacenter_cfg : ProxmoxCluster → String
datacenter_cfg _ = unlines (
    "bwlimit:" ∷ "crs: ha=nodes" ∷ "ha: shutdown_policy=conditional" ∷ "keyboard: en-us"
    ∷ "max_workers: 4" ∷ "migration: type=insecure" ∷ [])

-- the scripts that are shipped only when Ceph is asked for
unfoldable pub ceph_scripts : ProxmoxCluster → Option CephSpec → StringMap
unfolding ceph_init_script ceph_mon_script ceph_mgr_script ceph_osd_script ceph_pool_script
    ceph_status_script
ceph_scripts cluster none = []
ceph_scripts cluster (some ceph) =
    ("ceph-init.sh", ceph_init_script ceph)
    ∷ ("ceph-mon.sh", ceph_mon_script cluster)
    ∷ ("ceph-mgr.sh", ceph_mgr_script cluster)
    ∷ ("ceph-osd.sh", ceph_osd_script cluster)
    ∷ ("ceph-pool.sh", ceph_pool_script cluster)
    ∷ ("ceph-status.sh", ceph_status_script cluster)
    ∷ []

-- the entries of the map literal
unfoldable pub common_files : ProxmoxCluster → String → StringMap
unfolding datacenter_cfg cluster_init_script cluster_join_script node_bootstrap_script
    cluster_inventory_script
common_files cluster corosync =
    ("datacenter.cfg", datacenter_cfg cluster)
    ∷ ("corosync.conf", corosync)
    ∷ ("cluster-init.sh", cluster_init_script cluster)
    ∷ ("cluster-join.sh", cluster_join_script cluster)
    ∷ ("node-bootstrap.sh", node_bootstrap_script cluster)
    ∷ ("cluster-inventory.sh", cluster_inventory_script cluster)
    ∷ []

unfoldable pub config_data : ProxmoxCluster → String → StringMap
unfolding common_files ceph_scripts
config_data cluster corosync =
    common_files cluster corosync ++ ceph_scripts cluster cluster.spec.ceph

-- `none` is the panic of `renderCorosync`
unfoldable pub config_map : ProxmoxCluster → Option ConfigMap
unfolding render_corosync config_data config_map_name cluster_labels
config_map cluster = elim (render_corosync cluster) [
  | none ↦ none
  | some corosync ↦ some (record {
    meta = new_meta (config_map_name cluster) cluster.meta.namespace (cluster_labels cluster) [];
    data_of = config_data cluster corosync;
  })
]
