-- ===== src/Ceph/Counts.antt =====
-- Daemon and device counts: the `Effective…Count` functions of ceph.go, `ExpectedOSDs`, and the
-- minimum and maximum of configmap.go.
pub mod Bounds
use multiprox.Prelude.{Option, none, some, if◌then◌else◌}
use multiprox.Prelude.Int.{
  ℤ, pos, ltb_ℤ, leb_ℤ, eqb_ℤ, rem_two, mul_int32, sub_int32, int32, ◌-ℤ◌, ◌*ℤ◌,
}
use multiprox.Api.Cluster.{CephSpec, ProxmoxCluster}

abbrev pub min_int32 : ℤ → ℤ → ℤ
min_int32 a b = if ltb_ℤ a b then a else b

abbrev pub max_int32 : ℤ → ℤ → ℤ
max_int32 a b = if ltb_ℤ b a then a else b

-- the three assignments of the function, each to a name of its own
unfoldable pub clamp_count : ℤ → ℤ → ℤ → ℤ
clamp_count v def max =
    let requested = if leb_ℤ v (pos 0) then def else v in
    let capped = if ltb_ℤ max requested then max else requested in
    if ltb_ℤ capped (pos 1) then pos 1 else capped

unfoldable pub expected_osds : ProxmoxCluster → ℤ
unfolding ◌*ℤ◌ int32
expected_osds cluster = elim cluster.spec.ceph [
  | none ↦ pos 0
  | some ceph ↦ mul_int32 cluster.spec.nodes (max_int32 ceph.osds_per_node (pos 1))
]

-- an even count is snapped down to the odd one below it
unfoldable pub snap_to_odd : ℤ → ℤ
unfolding ◌-ℤ◌ int32
snap_to_odd n = max_int32 (if eqb_ℤ (rem_two n) (pos 0) then sub_int32 n (pos 1) else n) (pos 1)

unfoldable pub effective_mon_count : ProxmoxCluster → ℤ
unfolding clamp_count snap_to_odd
effective_mon_count cluster = elim cluster.spec.ceph [
  | none ↦ pos 0
  | some ceph ↦ snap_to_odd (clamp_count ceph.mon_count (pos 3) cluster.spec.nodes)
]

unfoldable pub effective_mgr_count : ProxmoxCluster → ℤ
unfolding clamp_count
effective_mgr_count cluster = elim cluster.spec.ceph [
  | none ↦ pos 0
  | some ceph ↦ clamp_count ceph.mgr_count (pos 2) cluster.spec.nodes
]
