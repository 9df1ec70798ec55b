-- ===== src/Ceph/Pools.antt =====
-- `effectivePools` of configmap.go and `PoolNames` of ceph.go.
pub mod Defaults
use multiprox.Prelude.{String, Bool, Option, none, some, List, [], ◌∷◌, map, if◌then◌else◌}
use multiprox.Prelude.Int.{ℤ, pos, eqb_ℤ, sub_int32, mul_int32, int32, ◌-ℤ◌, ◌*ℤ◌}
use multiprox.Api.Cluster.{CephPoolSpec, CephSpec, ProxmoxCluster, default_pool_name}
use multiprox.Ceph.Counts.{min_int32, max_int32}

abbrev pub default_content : List String
default_content = "images" ∷ "rootdir" ∷ []

abbrev pub size_or_default : ℤ → ℤ
size_or_default size = if eqb_ℤ size (pos 0) then pos 3 else size

abbrev pub min_size_or_default : ℤ → ℤ → ℤ
min_size_or_default size min_size =
    if eqb_ℤ min_size (pos 0) then max_int32 (sub_int32 size (pos 1)) (pos 1) else min_size

abbrev pub content_or_default : List String → List String
content_or_default [] = default_content
content_or_default (c ∷ cs) = c ∷ cs

-- the body of the loop over the pools: each missing value is filled in
unfoldable pub with_defaults : CephPoolSpec → CephPoolSpec
unfolding int32 ◌-ℤ◌
with_defaults p =
    let size = size_or_default p.size in
    record p {
      size = size;
      min_size = min_size_or_default size p.min_size;
      content = content_or_default p.content;
    }

-- the pool of a spec that names none: three replicas, or as many as there are OSDs
unfoldable pub default_pool : ProxmoxCluster → CephSpec → CephPoolSpec
unfolding int32 ◌-ℤ◌ ◌*ℤ◌
default_pool cluster ceph =
    let total_osds = mul_int32 cluster.spec.nodes (max_int32 ceph.osds_per_node (pos 1)) in
    let size = min_int32 (pos 3) total_osds in
    record {
      name = default_pool_name;
      size = size;
      min_size = max_int32 (sub_int32 size (pos 1)) (pos 1);
      pg_num = pos 0;
      content = default_content;
      add_as_storage = none;
    }

unfoldable pub pools_or_default : ProxmoxCluster → CephSpec → List CephPoolSpec → List CephPoolSpec
unfolding default_pool
pools_or_default cluster ceph [] = default_pool cluster ceph ∷ []
pools_or_default cluster ceph (p ∷ ps) = p ∷ ps

unfoldable pub effective_pools : ProxmoxCluster → List CephPoolSpec
unfolding with_defaults pools_or_default
effective_pools cluster = elim cluster.spec.ceph [
  | none ↦ []
  | some ceph ↦ map with_defaults (pools_or_default cluster ceph ceph.pools)
]

unfoldable pub pool_names : ProxmoxCluster → List String
unfolding effective_pools
pool_names cluster = map (λ p. p.name) (effective_pools cluster)
