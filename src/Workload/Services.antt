-- ===== src/Workload/Services.antt =====
-- `HeadlessService` and `UIService` of service.go.
use multiprox.Prelude.{true, false, none, some, [], ◌∷◌}
use multiprox.Api.Meta.{new_meta}
use multiprox.Api.Cluster.{ProxmoxCluster}
use multiprox.Workload.Names.{headless_svc_name, ui_svc_name, cluster_labels, pod_labels}
use multiprox.Workload.Objects.{Service}

unfoldable pub headless_service : ProxmoxCluster → Service
unfolding headless_svc_name cluster_labels pod_labels
headless_service cluster = record {
  meta =
      new_meta (headless_svc_name cluster) cluster.meta.namespace (cluster_labels cluster)
        (("multiprox.io/purpose", "corosync-headless") ∷ []);
  spec = record {
    type = "";
    cluster_ip = "None";
    selector = pod_labels cluster;
    ports =
        record { name = "corosync-0"; port = 5405; target_port = none; protocol = "UDP" }
        ∷ record { name = "corosync-1"; port = 5406; target_port = none; protocol = "UDP" }
        ∷ record { name = "ssh"; port = 22; target_port = none; protocol = "TCP" }
        ∷ [];
    publish_not_ready_addresses = true;
  };
}

unfoldable pub ui_service : ProxmoxCluster → Service
unfolding ui_svc_name cluster_labels pod_labels
ui_service cluster = record {
  meta =
      new_meta (ui_svc_name cluster) cluster.meta.namespace (cluster_labels cluster)
        (("multiprox.io/purpose", "pve-ui") ∷ []);
  spec = record {
    type = "ClusterIP";
    cluster_ip = "";
    selector = pod_labels cluster;
    ports = record { name = "pve-ui"; port = 8006; target_port = some 8006; protocol = "TCP" } ∷ [];
    publish_not_ready_addresses = false;
  };
}
