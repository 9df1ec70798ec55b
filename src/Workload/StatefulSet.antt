-- ===== src/Workload/StatefulSet.antt =====
-- `StatefulSet`, `nodeEnv` and `podAffinity` of statefulset.go.
pub mod WellFormed
use multiprox.Prelude.{String, true, false, none, some, List, [], ◌∷◌, ◌++◌, ◌==◌, if◌then◌else◌}
use multiprox.Prelude.Int.{pos}
use multiprox.Text.Strings.{◌+++◌}
use multiprox.Text.Decimal.{show_ℤ}
use multiprox.Api.Meta.{new_meta}
use multiprox.Api.Cluster.{ResourceRequirements, Affinity, preferred_anti_affinity, ProxmoxCluster}
use multiprox.Workload.Names.{headless_svc_name, config_map_name, cluster_labels, pod_labels}
use multiprox.Workload.Devices.{ceph_device_prefix, osd_volume_devices}
use multiprox.Workload.Claims.{must_parse, volume_claim_templates}
use multiprox.Workload.Objects.{
  EnvVar, literal, field_ref, secret_key_ref, VolumeMount, Container, KeyToPath, config_map,
  empty_dir, host_path, Volume, StatefulSet,
}

unfoldable pub node_env : ProxmoxCluster → List EnvVar
unfolding ceph_device_prefix show_ℤ
node_env cluster =
    (record {
      name = "NODE_ORDINAL";
      source = field_ref "metadata.labels['apps.kubernetes.io/pod-index']";
    }
      ∷ record {
        name = "ROOT_PASSWORD";
        source = secret_key_ref (cluster.meta.name +++ "-secret") "root-password" true;
      }
      ∷ [])
    ++ elim cluster.spec.ceph [
      | none ↦ []
      | some ceph ↦
          record { name = "CEPH_OSDS_PER_NODE"; source = literal (show_ℤ ceph.osds_per_node) }
          ∷ record {
            name = "CEPH_OSD_DEVICE_PREFIX";
            source = literal (ceph_device_prefix cluster);
          }
          ∷ record { name = "CEPH_NETWORK"; source = literal ceph.network }
          ∷ record { name = "CEPH_CLUSTER_NETWORK"; source = literal ceph.cluster_network }
          ∷ []
    ]

unfoldable pub pod_affinity : ProxmoxCluster → Affinity
unfolding pod_labels
pod_affinity cluster = elim cluster.spec.affinity [
  | some affinity ↦ affinity
  | none ↦ preferred_anti_affinity (
      record {
        weight = pos 100;
        match_labels = pod_labels cluster;
        topology_key = "kubernetes.io/hostname";
      }
      ∷ [])
]

-- the default requests, where the spec gives none
unfoldable pub resources_or_default : ResourceRequirements → ResourceRequirements
resources_or_default r = elim r.requests [
  | none ↦ record r {
    requests = some (("cpu", must_parse "500m") ∷ ("memory", must_parse "2Gi") ∷ []);
  }
  | some _ ↦ r
]

abbrev pub mount : String → String → VolumeMount
mount name path = record { name = name; mount_path = path }

abbrev pub init_container : Container
init_container = record {
  name = "install-scripts";
  image = "busybox:stable";
  image_pull_policy = "IfNotPresent";
  resources = record { limits = none; requests = none };
  privileged = false;
  command = "sh" ∷ "-c" ∷ "cp /scripts/* /usr/local/bin/ && chmod +x /usr/local/bin/*.sh" ∷ [];
  env = [];
  ports = [];
  readiness_probe = none;
  liveness_probe = none;
  volume_mounts = mount "scripts" "/scripts" ∷ mount "bin-overlay" "/usr/local/bin" ∷ [];
  volume_devices = [];
}

unfoldable pub pve_container : ProxmoxCluster → Container
unfolding node_env osd_volume_devices resources_or_default
pve_container cluster = record {
  name = "pve";
  image = cluster.spec.image;
  image_pull_policy =
      if cluster.spec.image_pull_policy == ""
      then "IfNotPresent"
      else cluster.spec.image_pull_policy;
  resources = resources_or_default cluster.spec.resources;
  privileged = true;
  command = "/usr/local/bin/node-bootstrap.sh" ∷ [];
  env = node_env cluster;
  ports =
      record { name = "pve-ui"; container_port = 8006; protocol = "TCP" }
      ∷ record { name = "ssh"; container_port = 22; protocol = "TCP" }
      ∷ record { name = "corosync-0"; container_port = 5405; protocol = "UDP" }
      ∷ record { name = "corosync-1"; container_port = 5406; protocol = "UDP" }
      ∷ [];
  readiness_probe = some (record {
    command =
        "bash" ∷ "-c" ∷ "systemctl is-active pve-cluster && systemctl is-active pveproxy" ∷ [];
    initial_delay_seconds = 30;
    period_seconds = 15;
    failure_threshold = 10;
  });
  liveness_probe = some (record {
    command = "bash" ∷ "-c" ∷ "systemctl is-active pve-cluster" ∷ [];
    initial_delay_seconds = 120;
    period_seconds = 30;
    failure_threshold = 5;
  });
  volume_mounts =
      mount "cluster-data" "/var/lib/pve-cluster"
      ∷ mount "vm-storage" "/var/lib/vz"
      ∷ mount "scripts" "/scripts"
      ∷ mount "bin-overlay" "/usr/local/bin"
      ∷ mount "pve-config" "/etc/pve-bootstrap"
      ∷ mount "run" "/run"
      ∷ mount "run-lock" "/run/lock"
      ∷ mount "tmp" "/tmp"
      ∷ mount "cgroup" "/sys/fs/cgroup"
      ∷ [];
  volume_devices = osd_volume_devices cluster;
}

abbrev pub same_path : String → KeyToPath
same_path key = record { key = key; path = key }

-- 0755 is 493
unfoldable pub volumes : ProxmoxCluster → List Volume
unfolding config_map_name
volumes cluster =
    record { name = "scripts"; source = config_map (config_map_name cluster) (some 493) [] }
    ∷ record {
      name = "pve-config";
      source =
          config_map (config_map_name cluster) none
            (same_path "datacenter.cfg" ∷ same_path "corosync.conf" ∷ []);
    }
    ∷ record { name = "bin-overlay"; source = empty_dir "" }
    ∷ record { name = "run"; source = empty_dir "Memory" }
    ∷ record { name = "run-lock"; source = empty_dir "Memory" }
    ∷ record { name = "tmp"; source = empty_dir "Memory" }
    ∷ record { name = "cgroup"; source = host_path "/sys/fs/cgroup" "Directory" }
    ∷ []

-- the status of a set that is built, not read, is Go's zero value
unfoldable pub stateful_set : ProxmoxCluster → StatefulSet
unfolding cluster_labels pod_labels headless_svc_name pod_affinity pve_container volumes
    volume_claim_templates
stateful_set cluster = record {
  meta = new_meta cluster.meta.name cluster.meta.namespace (cluster_labels cluster) [];
  spec = record {
    replicas = cluster.spec.nodes;
    service_name = headless_svc_name cluster;
    pod_management_policy = "OrderedReady";
    update_strategy = "RollingUpdate";
    match_labels = pod_labels cluster;
    template = record {
      labels = pod_labels cluster;
      subdomain = headless_svc_name cluster;
      node_selector = cluster.spec.node_selector;
      tolerations = cluster.spec.tolerations;
      affinity = pod_affinity cluster;
      image_pull_secrets = cluster.spec.image_pull_secrets;
      init_containers = init_container ∷ [];
      containers = pve_container cluster ∷ [];
      volumes = volumes cluster;
    };
    volume_claim_templates = volume_claim_templates cluster;
  };
  ready_replicas = pos 0;
}
