-- ===== src/Api/Samples.antt =====
-- Concrete clusters and pods that the tests run on.
use multiprox.Prelude.{none, some, [], ◌∷◌}
use multiprox.Prelude.Int.{ℤ, pos}
use multiprox.Api.Meta.{true_status, new_meta}
use multiprox.Api.Cluster
use multiprox.Api.Cluster.{
  CephPoolSpec, CephSpec, ProxmoxClusterSpec, ProxmoxClusterStatus, ProxmoxCluster,
}
use multiprox.Api.Pod.{Pod, running}

abbrev pub sample_pool : CephPoolSpec
sample_pool = record {
  name = "fast";
  size = pos 2;
  min_size = pos 0;
  pg_num = pos 0;
  content = [];
  add_as_storage = none;
}

abbrev pub sample_ceph : CephSpec
sample_ceph = record {
  osds_per_node = pos 2;
  osd_size = "100Gi";
  osd_storage_class = none;
  osd_device_prefix = "";
  network = "";
  cluster_network = "";
  mon_count = pos 3;
  mgr_count = pos 2;
  pools = [];
}

abbrev pub spec_with : ℤ → ProxmoxClusterSpec
spec_with nodes = record {
  nodes = nodes;
  cluster_name = "multiprox";
  image = "node:latest";
  image_pull_policy = "";
  image_pull_secrets = [];
  resources = record { limits = none; requests = none };
  storage = record {
    cluster_data = record { storage_class = none; size = "2Gi" };
    vm_storage = record { storage_class = none; size = "" };
  };
  corosync = record { transport = ""; crypto = ""; hash = "" };
  ceph = some sample_ceph;
  node_selector = [];
  tolerations = [];
  affinity = none;
}

abbrev pub fresh_cluster_status : ProxmoxClusterStatus
fresh_cluster_status = record {
  phase = Cluster.unset;
  conditions = [];
  joined_nodes = pos 0;
  cluster_id = "";
  corosync_config_version = pos 0;
  ceph = none;
  observed_generation = pos 0;
}

-- a cluster of so many nodes, with Ceph and its defaults
abbrev pub cluster_of : ℤ → ProxmoxCluster
cluster_of nodes = record {
  meta = new_meta "lab" "pve" [] [];
  spec = spec_with nodes;
  status = fresh_cluster_status;
}

abbrev pub with_pools : ProxmoxCluster → ProxmoxCluster
with_pools cluster = record cluster {
  spec = record cluster.spec { ceph = some (record sample_ceph { pools = sample_pool ∷ [] }) };
}

abbrev pub sample_pod : Pod
sample_pod = record {
  name = "lab-0";
  namespace = "pve";
  labels = [];
  node_name = "host-a";
  phase = running;
  pod_ip = "10.0.0.7";
  conditions = record { type = "Ready"; status = true_status } ∷ [];
}
