-- ===== src/Ceph/Validate.antt =====
-- `ValidateCeph` of ceph.go.
pub mod Converges
use multiprox.Prelude.{
  ℕ, String, Bool, true, false, ◌&&◌, not, Option, none, some, List, [], ◌∷◌, if◌then◌else◌,
}
use multiprox.Prelude.Int.{ℤ, pos, ltb_ℤ, eqb_ℤ, rem_two}
use multiprox.Text.Strings.{◌+++◌}
use multiprox.Text.Decimal.{show_ℤ}
use multiprox.Text.Quote.{quote}
use multiprox.Api.Cluster.{CephPoolSpec, CephSpec, ProxmoxCluster}
use multiprox.Ceph.Counts.{max_int32, expected_osds}
use multiprox.Ceph.Pools.{effective_pools}

-- the three errors, with the values that their messages print
pub data CephError : Type 0 where
  even_monitors : (mon_count : ℤ) → CephError
  pool_too_large : (name : String) (size total nodes per_node : ℤ) → CephError
  min_size_too_large : (name : String) (min_size size : ℤ) → CephError

unfoldable pub error_text : CephError → String
unfolding quote show_ℤ
error_text (even_monitors mon_count) =
    "spec.ceph.monCount ("
    +++ show_ℤ mon_count
    +++ ") must be odd to avoid split-brain in the monitor quorum"
error_text (pool_too_large name size total nodes per_node) =
    "pool "
    +++ quote name
    +++ " has size "
    +++ show_ℤ size
    +++ " but the cluster only provides "
    +++ show_ℤ total
    +++ " OSDs (spec.nodes "
    +++ show_ℤ nodes
    +++ " × spec.ceph.osdsPerNode "
    +++ show_ℤ per_node
    +++ "): the pool can never reach active+clean"
error_text (min_size_too_large name min_size size) =
    "pool "
    +++ quote name
    +++ " has minSize "
    +++ show_ℤ min_size
    +++ " greater than size "
    +++ show_ℤ size

-- the loop over the pools: the first pool that cannot be met is reported
unfoldable pub validate_pools : ProxmoxCluster → CephSpec → ℤ → List CephPoolSpec → Option CephError
validate_pools cluster ceph total [] = none
validate_pools cluster ceph total (p ∷ ps) =
    let rest = validate_pools cluster ceph total ps in
    if ltb_ℤ total p.size
    then some (
        pool_too_large p.name p.size total cluster.spec.nodes
          (max_int32 ceph.osds_per_node (pos 1)))
    else if ltb_ℤ p.size p.min_size
    then some (min_size_too_large p.name p.min_size p.size)
    else rest

-- `none` is the nil error
unfoldable pub validate_ceph : ProxmoxCluster → Option CephError
unfolding validate_pools
validate_ceph cluster = elim cluster.spec.ceph [
  | none ↦ none
  | some ceph ↦
      if ltb_ℤ (pos 0) ceph.mon_count && eqb_ℤ (rem_two ceph.mon_count) (pos 0)
      then some (even_monitors ceph.mon_count)
      else validate_pools cluster ceph (expected_osds cluster) (effective_pools cluster)
]
