-- ===== src/Ceph/Counts/Bounds.antt =====
-- The range of the effective counts of ceph.go.
use multiprox.Prelude.{◌≡◌, some, arith, if◌then◌else◌}
use multiprox.Prelude.Int.{ℤ, pos, negsuc, leb_ℤ, IsInt32, ◌≤ℤ◌, rem_two}
use multiprox.Api.Cluster.{CephSpec, ProxmoxCluster}
use multiprox.Ceph.Counts.{
  min_int32, clamp_count, snap_to_odd, effective_mon_count, effective_mgr_count,
}

abbrev pub IsOdd : ℤ → Type 0
IsOdd n = rem_two n ≡ pos 1

-- the count that a spec asks for: zero and below stand for the default
abbrev pub requested : ℤ → ℤ → ℤ
requested v def = if leb_ℤ v (pos 0) then def else v

-- the greatest odd number among those from 1 to `most`
pub record IsGreatestOdd (most n : ℤ) : Type 0 where
  pub is_odd : IsOdd n
  pub positive : pos 1 ≤ℤ n
  pub below : n ≤ℤ most
  pub greatest : (k : ℤ) → IsOdd k → k ≤ℤ most → k ≤ℤ n

clamp_count_lem :
    (v def max : ℤ)
    → pos 1 ≤ℤ def
    → pos 1 ≤ℤ max
    → clamp_count v def max ≡ min_int32 (requested v def) max
unfolding clamp_count
clamp_count_lem v def max p q = ground arith

snap_to_odd-IsGreatestOdd : (n : ℤ) → pos 1 ≤ℤ n → IsInt32 n → IsGreatestOdd n (snap_to_odd n)
unfolding snap_to_odd
snap_to_odd-IsGreatestOdd (negsuc n) p r = absurd (omega arith)
snap_to_odd-IsGreatestOdd (pos n) p r = record {
  is_odd = ground arith;
  positive = ground arith;
  below = ground arith;
  greatest = λ k odd le. ground arith;
}

effective_mon_count_lem :
    (cluster : ProxmoxCluster) {ceph : CephSpec}
    → cluster.spec.ceph ≡ some ceph
    → effective_mon_count cluster
      ≡ snap_to_odd (clamp_count ceph.mon_count (pos 3) cluster.spec.nodes)
unfolding effective_mon_count
effective_mon_count_lem cluster e = rw (e, effective_mon_count)

-- For a cluster of at least one node the monitors are the greatest odd number that is neither above
-- the request (the default 3 if it is not positive) nor above the number of nodes.
pub effective_mon_count-IsGreatestOdd :
    (cluster : ProxmoxCluster) {ceph : CephSpec}
    → cluster.spec.ceph ≡ some ceph
    → pos 1 ≤ℤ cluster.spec.nodes
    → IsInt32 cluster.spec.nodes
    → IsGreatestOdd
        (min_int32 (requested ceph.mon_count (pos 3)) cluster.spec.nodes)
        (effective_mon_count cluster)
effective_mon_count-IsGreatestOdd cluster {ceph} e p r =
    rw (effective_mon_count_lem cluster e, clamp_count_lem ceph.mon_count (pos 3) _ (omega arith) p)
      (snap_to_odd-IsGreatestOdd _ (ground arith) (ground arith))

-- For a cluster of at least one node the managers are as many as are asked for (the default 2 if
-- the request is not positive), capped at the number of nodes, and at least one.
pub effective_mgr_count_bounds :
    (cluster : ProxmoxCluster) {ceph : CephSpec}
    → cluster.spec.ceph ≡ some ceph
    → pos 1 ≤ℤ cluster.spec.nodes
    → (effective_mgr_count cluster
        ≡ min_int32 (requested ceph.mgr_count (pos 2)) cluster.spec.nodes)
      × (pos 1 ≤ℤ effective_mgr_count cluster)
      × (effective_mgr_count cluster ≤ℤ cluster.spec.nodes)
unfolding effective_mgr_count
effective_mgr_count_bounds cluster e p = (ground arith, ground arith, ground arith)
