-- ===== src/Workload/Claims.antt =====
-- The volume claim templates of statefulset.go.
use multiprox.Prelude.{ℕ, String, none, some, List, [], ◌∷◌, ◌++◌, map, ◌==◌, not, if◌then◌else◌}
use multiprox.Prelude.Int.{pos, ltb_ℤ, indices}
use multiprox.Text.Decimal.{show_ℕ}
use multiprox.Api.Cluster.{Quantity, PvcSpec, CephSpec, ProxmoxCluster}
use multiprox.Workload.Devices.{osd_pvc_name}
use multiprox.Workload.Objects.{PersistentVolumeClaim, filesystem, block}

-- `resource.MustParse`, kept as the text: it panics on a text that is no quantity, which the CRD's
-- patterns rule out
abbrev pub must_parse : String → Quantity
must_parse text = record { text = text }

-- a size of the spec, or its default where the text is empty
abbrev pub size_or : String → String → Quantity
size_or size def = if not (size == "") then must_parse size else must_parse def

abbrev pub system_claim : String → PvcSpec → Quantity → PersistentVolumeClaim
system_claim name spec size = record {
  name = name;
  labels = [];
  access_modes = "ReadWriteOnce" ∷ [];
  storage_class_name = spec.storage_class;
  volume_mode = filesystem;
  storage = size;
}

unfoldable pub osd_claim : CephSpec → Quantity → ℕ → PersistentVolumeClaim
unfolding osd_pvc_name show_ℕ
osd_claim ceph size i = record {
  name = osd_pvc_name i;
  labels = ("multiprox.io/role", "ceph-osd") ∷ ("multiprox.io/osd-index", show_ℕ i) ∷ [];
  access_modes = "ReadWriteOnce" ∷ [];
  storage_class_name = ceph.osd_storage_class;
  volume_mode = block;
  storage = size;
}

unfoldable pub osd_claim_templates : ProxmoxCluster → List PersistentVolumeClaim
unfolding osd_claim
osd_claim_templates cluster = elim cluster.spec.ceph [
  | none ↦ []
  | some ceph ↦
      let n = if ltb_ℤ ceph.osds_per_node (pos 1) then pos 1 else ceph.osds_per_node in
      map (osd_claim ceph (size_or ceph.osd_size "100Gi")) (indices n)
]

unfoldable pub volume_claim_templates : ProxmoxCluster → List PersistentVolumeClaim
unfolding osd_claim_templates
volume_claim_templates cluster =
    let storage = cluster.spec.storage in
    (system_claim "cluster-data" storage.cluster_data (size_or storage.cluster_data.size "2Gi")
      ∷ system_claim "vm-storage" storage.vm_storage (size_or storage.vm_storage.size "100Gi")
      ∷ [])
    ++ osd_claim_templates cluster
