-- ===== src/Node/Projection/Devices.antt =====
-- The devices that node.go reports, beside those that statefulset.go mounts.
use mathlib.Core.Path.{ap₂}
use multiprox.Prelude.{
  ◌≡◌, ◌∙◌, refl, sym, ap, Option, some, List, [], ◌∷◌, map, arith, if◌then◌else◌,
}
use multiprox.Prelude.Int.{ℤ, pos, negsuc, ltb_ℤ, indices}
use multiprox.Api.Cluster.{CephSpec, ProxmoxCluster}
use multiprox.Ceph.Counts.{max_int32}
use multiprox.Workload.Devices.{osd_device_path, osd_volume_devices, volume_devices_with}
use multiprox.Node.Inventory.{NodeInventory}
use multiprox.Node.Projection.{node_ceph_status}

max_or_one : (a : ℤ) → max_int32 a (pos 1) ≡ (if ltb_ℤ a (pos 1) then pos 1 else a)
max_or_one (pos n) = ground arith
max_or_one (negsuc n) = ground arith

module _ {A B C : Type 0} (f : A → B) (g : B → C) (h : A → C) (same : (x : A) → g (f x) ≡ h x) where
  map-after : (xs : List A) → map h xs ≡ map g (map f xs)
  map-after [] = refl
  map-after (x ∷ xs) = ap₂ (λ y ys. y ∷ ys) (sym (same x)) (map-after xs)

-- With Ceph in the spec, the devices that a node's projection lists are the paths of the block devices
-- that the pod template gives the container, in order.
pub node_ceph_status-devices :
    (cluster : ProxmoxCluster) (ceph : CephSpec) (inv : Option NodeInventory)
    → cluster.spec.ceph ≡ some ceph
    → (node_ceph_status cluster ceph inv).devices
      ≡ map (λ d. d.device_path) (osd_volume_devices cluster)
unfolding node_ceph_status osd_volume_devices volume_devices_with
node_ceph_status-devices cluster ceph inv e =
    ap (λ n. map (osd_device_path cluster) (indices n)) (max_or_one ceph.osds_per_node)
    ∙ map-after _ _ _ (λ i. refl) _
    ∙ ap (λ o. map (λ d. d.device_path) (volume_devices_with cluster o)) (sym e)
