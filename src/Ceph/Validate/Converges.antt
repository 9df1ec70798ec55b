-- ===== src/Ceph/Validate/Converges.antt =====
-- When the check of `ValidateCeph` accepts a spec.
use multiprox.Prelude.{
  ◌≡◌, ◌∙◌, ◌⊎◌, ◌↔◌, Bool, false, ◌&&◌, if◌then◌else◌, inl, inr, refl, none, some, List, [], ◌∷◌,
  arith, All,
}
use multiprox.Prelude.Int.{
  ltb_ℤ, eqb_ℤ, rem_two, ℤ, pos, negsuc, ◌≤ℤ◌, IsInt32, ◌*ℤ◌, int32_of_IsInt32, int32,
}
use multiprox.Prelude.Int.{mul_int32, *ℤ_pos}
use multiprox.Api.Cluster.{CephPoolSpec, CephSpec, ProxmoxCluster}
use multiprox.Ceph.Counts.{max_int32, expected_osds}
use multiprox.Ceph.Counts.Bounds.{IsOdd}
use multiprox.Ceph.Pools.{effective_pools, default_pool, with_defaults}
use multiprox.Ceph.Validate.{even_monitors, validate_pools, validate_ceph}

-- a pool that the cluster can bring to active+clean
pub record Fits (total : ℤ) (p : CephPoolSpec) : Type 0 where
  pub enough_osds : p.size ≤ℤ total
  pub writable : p.min_size ≤ℤ p.size

abbrev pub HasQuorum : CephSpec → Type 0
HasQuorum ceph = (ceph.mon_count ≤ℤ pos 0) ⊎ IsOdd ceph.mon_count

module _ (cluster : ProxmoxCluster) (ceph : CephSpec) (total : ℤ) where
  validate_pools_sound :
      (ps : List CephPoolSpec) → validate_pools cluster ceph total ps ≡ none → All (Fits total) ps
  unfolding validate_pools
  validate_pools_sound [] h = tt
  validate_pools_sound (p ∷ ps) h = (ground arith, validate_pools_sound ps (ground arith))

  validate_pools_complete :
      (ps : List CephPoolSpec) → All (Fits total) ps → validate_pools cluster ceph total ps ≡ none
  unfolding validate_pools
  validate_pools_complete [] h = refl
  validate_pools_complete (p ∷ ps) (f, h) = ground (arith, validate_pools_complete ps h)

-- the test on the monitor count
abbrev has_even_monitors : CephSpec → Bool
has_even_monitors ceph = ltb_ℤ (pos 0) ceph.mon_count && eqb_ℤ (rem_two ceph.mon_count) (pos 0)

quorum_sound : (ceph : CephSpec) → has_even_monitors ceph ≡ false → HasQuorum ceph
quorum_sound ceph h = elim (sign ceph.mon_count) [
  | inl low ↦ inl low
  | inr high ↦ inr (odd_of_not_even ceph.mon_count high (ground arith))
]
  where
    sign : (n : ℤ) → (n ≤ℤ pos 0) ⊎ (pos 1 ≤ℤ n)
    sign n = omega arith

    odd_of_not_even : (n : ℤ) → pos 1 ≤ℤ n → eqb_ℤ (rem_two n) (pos 0) ≡ false → IsOdd n
    odd_of_not_even (pos n) p h = ground arith
    odd_of_not_even (negsuc n) p h = absurd (omega arith)

quorum_complete : (ceph : CephSpec) → HasQuorum ceph → has_even_monitors ceph ≡ false
quorum_complete ceph (inl low) = ground arith
quorum_complete ceph (inr odd) = ground arith

validate_ceph_lem :
    (cluster : ProxmoxCluster) {ceph : CephSpec}
    → cluster.spec.ceph ≡ some ceph
    → validate_ceph cluster ≡ (
        if has_even_monitors ceph
        then some (even_monitors ceph.mon_count)
        else validate_pools cluster ceph (expected_osds cluster) (effective_pools cluster))
unfolding validate_ceph
validate_ceph_lem cluster e = ground arith

-- The check accepts a spec exactly when the monitor count is odd or left to the default, and every
-- effective pool has no more replicas than the cluster has OSDs and no more required replicas than
-- replicas.
pub validate_ceph-none_iff :
    (cluster : ProxmoxCluster) {ceph : CephSpec}
    → cluster.spec.ceph ≡ some ceph
    → (validate_ceph cluster ≡ none)
      ↔ (HasQuorum ceph × All (Fits (expected_osds cluster)) (effective_pools cluster))
validate_ceph-none_iff cluster {ceph} e = rw (validate_ceph_lem cluster e) (
  (λ h. (quorum_sound ceph (ground arith), validate_pools_sound cluster ceph _ _ (ground arith))),
  (λ (q, fits). rw (quorum_complete ceph q) (validate_pools_complete cluster ceph _ _ fits)),
)

effective_pools-no_pools :
    (cluster : ProxmoxCluster) {ceph : CephSpec}
    → cluster.spec.ceph ≡ some ceph
    → ceph.pools ≡ []
    → effective_pools cluster ≡ with_defaults (default_pool cluster ceph) ∷ []
unfolding effective_pools
effective_pools-no_pools cluster e empty = ground arith

expected :
    (cluster : ProxmoxCluster) {ceph : CephSpec}
    → cluster.spec.ceph ≡ some ceph
    → expected_osds cluster ≡ int32 (cluster.spec.nodes *ℤ max_int32 ceph.osds_per_node (pos 1))
unfolding expected_osds
expected cluster e = ground arith

expected_osds_lem :
    (cluster : ProxmoxCluster) {ceph : CephSpec}
    → cluster.spec.ceph ≡ some ceph
    → IsInt32 (cluster.spec.nodes *ℤ max_int32 ceph.osds_per_node (pos 1))
    → expected_osds cluster ≡ cluster.spec.nodes *ℤ max_int32 ceph.osds_per_node (pos 1)
expected_osds_lem cluster {ceph} e r =
    expected cluster e
    ∙ int32_of_IsInt32 (cluster.spec.nodes *ℤ max_int32 ceph.osds_per_node (pos 1)) r

default_pool-Fits :
    (cluster : ProxmoxCluster) (ceph : CephSpec) (total : ℤ)
    → mul_int32 cluster.spec.nodes (max_int32 ceph.osds_per_node (pos 1)) ≡ total
    → pos 1 ≤ℤ total
    → Fits total (with_defaults (default_pool cluster ceph))
unfolding with_defaults default_pool
default_pool-Fits cluster ceph (negsuc n) e p = absurd (omega arith)
default_pool-Fits cluster ceph (pos n) e p = record {
  enough_osds = ground arith;
  writable = ground arith;
}

-- A spec of at least one node that asks for Ceph and names no pools is accepted, if its monitor count
-- is odd or left out and its number of OSDs fits in an int32: the pool that the operator makes up then
-- fits whatever that number is.
pub validate_ceph-no_pools :
    (cluster : ProxmoxCluster) {ceph : CephSpec}
    → cluster.spec.ceph ≡ some ceph
    → ceph.pools ≡ []
    → HasQuorum ceph
    → pos 1 ≤ℤ cluster.spec.nodes
    → IsInt32 (cluster.spec.nodes *ℤ max_int32 ceph.osds_per_node (pos 1))
    → validate_ceph cluster ≡ none
validate_ceph-no_pools cluster {ceph} e empty q p r =
    let total = cluster.spec.nodes *ℤ max_int32 ceph.osds_per_node (pos 1) in
    let positive =
      *ℤ_pos cluster.spec.nodes (max_int32 ceph.osds_per_node (pos 1)) p (ground arith) in
    let fits = default_pool-Fits cluster ceph total (int32_of_IsInt32 total r) positive in
    (validate_ceph-none_iff cluster e).1 (
      q,
      rw (expected_osds_lem cluster e r) (rw (effective_pools-no_pools cluster e empty) (fits, tt)),
    )
