-- ===== src/Workload/Devices.antt =====
-- The OSD devices of a node: statefulset.go.
pub mod Match
use multiprox.Prelude.{ℕ, String, Option, none, some, List, [], map, ◌==◌, not, if◌then◌else◌}
use multiprox.Prelude.Int.{pos, ltb_ℤ, indices}
use multiprox.Text.Strings.{◌+++◌}
use multiprox.Text.Decimal.{show_ℕ}
use multiprox.Api.Cluster.{CephSpec, ProxmoxCluster}

-- `corev1.VolumeDevice`
pub record VolumeDevice : Type 0 where
  pub name : String
  pub device_path : String

unfoldable pub osd_pvc_name : ℕ → String
unfolding show_ℕ
osd_pvc_name i = "ceph-osd-" +++ show_ℕ i

abbrev pub default_device_prefix : String
default_device_prefix = "/dev/ceph-osd-"

unfoldable pub ceph_device_prefix : ProxmoxCluster → String
ceph_device_prefix cluster = elim cluster.spec.ceph [
  | none ↦ default_device_prefix
  | some ceph ↦
      if not (ceph.osd_device_prefix == "") then ceph.osd_device_prefix else default_device_prefix
]

-- the prefix is chosen by the same test as in `ceph_device_prefix`
unfoldable pub osd_device_path : ProxmoxCluster → ℕ → String
unfolding show_ℕ
osd_device_path cluster i =
    let prefix : String = elim cluster.spec.ceph [
      | none ↦ default_device_prefix
      | some ceph ↦
          if not (ceph.osd_device_prefix == "")
          then ceph.osd_device_prefix
          else default_device_prefix
    ] in
    prefix +++ show_ℕ i

-- the devices, with `cluster.Spec.Ceph` handed over
unfoldable pub volume_devices_with : ProxmoxCluster → Option CephSpec → List VolumeDevice
unfolding osd_pvc_name osd_device_path
volume_devices_with cluster none = []
volume_devices_with cluster (some ceph) =
    let n = if ltb_ℤ ceph.osds_per_node (pos 1) then pos 1 else ceph.osds_per_node in
    map (λ i. record { name = osd_pvc_name i; device_path = osd_device_path cluster i }) (indices n)

unfoldable pub osd_volume_devices : ProxmoxCluster → List VolumeDevice
unfolding volume_devices_with
osd_volume_devices cluster = volume_devices_with cluster cluster.spec.ceph
