-- ===== src/Ceph/Pools/Defaults.antt =====
-- The defaults of a pool: `effectivePools` of configmap.go.
use multiprox.Prelude.{
  ℕ, suc, ◌<◌, ◌^◌, none, String, ◌≡◌, ◌≢◌, refl, some, List, [], ◌∷◌, map, arith, All, ap,
}
use mathlib.Core.Path.{ap₂}
use multiprox.Ceph.Pools.{pools_or_default, default_pool, min_size_or_default, content_or_default}
use multiprox.Prelude.Int.{ℤ, pos, negsuc, neg_part, int32, mul_int32, ◌-ℤ◌, ◌≤ℤ◌}
use multiprox.Ceph.Counts.{min_int32, max_int32}
use multiprox.Api.Cluster.{CephPoolSpec, CephSpec, ProxmoxCluster, default_pool_name}
use multiprox.Ceph.Pools.{with_defaults, effective_pools}

-- what a pool of a spec becomes: what it names is kept, a size that is left out is 3, a minimum size
-- that is left out is one less than the size and at least 1, and a content that is left out is images
-- and rootdir
pub record Completes (p q : CephPoolSpec) : Type 0 where
  pub name : q.name ≡ p.name
  pub pg_num : q.pg_num ≡ p.pg_num
  pub add_as_storage : q.add_as_storage ≡ p.add_as_storage
  pub given_size : p.size ≢ pos 0 → q.size ≡ p.size
  pub default_size : p.size ≡ pos 0 → q.size ≡ pos 3
  pub given_min_size : p.min_size ≢ pos 0 → q.min_size ≡ p.min_size
  pub default_min_size :
      p.min_size ≡ pos 0
      → (n : ℕ) → q.size ≡ pos (suc (suc n))
      → suc (suc n) < 2 ^ 31
      → q.min_size ≡ pos (suc n)
  pub least_min_size :
      p.min_size ≡ pos 0 → q.size ≤ℤ pos 1 → neg_part q.size < 2 ^ 31 → q.min_size ≡ pos 1
  pub given_content : p.content ≢ [] → q.content ≡ p.content
  pub default_content : p.content ≡ [] → q.content ≡ "images" ∷ "rootdir" ∷ []

default_min :
    (size : ℤ) (n : ℕ)
    → size ≡ pos (suc (suc n))
    → suc (suc n) < 2 ^ 31
    → min_size_or_default size (pos 0) ≡ pos (suc n)
unfolding int32 ◌-ℤ◌
default_min size n e h = rw (e) (ground arith)

least_min :
    (size : ℤ) → size ≤ℤ pos 1 → neg_part size < 2 ^ 31 → min_size_or_default size (pos 0) ≡ pos 1
unfolding int32 ◌-ℤ◌
least_min (pos n) h k = ground arith
least_min (negsuc n) h k = ground arith

given_content_lem : (c : List String) → c ≢ [] → content_or_default c ≡ c
given_content_lem [] h = absurd (h refl)
given_content_lem (s ∷ ss) h = refl

with_defaults-Completes : (p : CephPoolSpec) → Completes p (with_defaults p)
unfolding with_defaults
with_defaults-Completes p = record {
  name = refl;
  pg_num = refl;
  add_as_storage = refl;
  given_size = λ h. ground arith;
  default_size = λ h. ground arith;
  given_min_size = λ h. ground arith;
  default_min_size = λ h n e k. rw (h) (default_min _ n e k);
  least_min_size = λ h j k. rw (h) (least_min _ j k);
  given_content = λ h. given_content_lem p.content h;
  default_content = λ h. ap content_or_default h;
}

-- pool by pool
abbrev pub AllComplete : List CephPoolSpec → List CephPoolSpec → Type 0
AllComplete [] [] = Unit
AllComplete [] (_ ∷ _) = ⊥
AllComplete (_ ∷ _) [] = ⊥
AllComplete (p ∷ ps) (q ∷ qs) = Completes p q × AllComplete ps qs

map-with_defaults-AllComplete : (ps : List CephPoolSpec) → AllComplete ps (map with_defaults ps)
map-with_defaults-AllComplete [] = tt
map-with_defaults-AllComplete (p ∷ ps) =
    (with_defaults-Completes p, map-with_defaults-AllComplete ps)

-- the pool of a spec that names none: three replicas of which two must be there, or fewer where
-- there are fewer OSDs
pub record IsDefault (osds : ℤ) (q : CephPoolSpec) : Type 0 where
  pub name : q.name ≡ default_pool_name
  pub content : q.content ≡ "images" ∷ "rootdir" ∷ []
  pub pg_num : q.pg_num ≡ pos 0
  pub add_as_storage : q.add_as_storage ≡ none
  pub many : pos 3 ≤ℤ osds → (q.size ≡ pos 3) × (q.min_size ≡ pos 2)
  pub two : osds ≡ pos 2 → (q.size ≡ pos 2) × (q.min_size ≡ pos 1)
  pub one : osds ≡ pos 1 → (q.size ≡ pos 1) × (q.min_size ≡ pos 1)

abbrev total_osds : ProxmoxCluster → CephSpec → ℤ
total_osds cluster ceph = mul_int32 cluster.spec.nodes (max_int32 ceph.osds_per_node (pos 1))

min-three : (osds : ℤ) → pos 3 ≤ℤ osds → min_int32 (pos 3) osds ≡ pos 3
min-three (pos n) h = ground arith
min-three (negsuc n) h = absurd (omega arith)

with_defaults-IsDefault :
    (cluster : ProxmoxCluster) (ceph : CephSpec)
    → IsDefault (total_osds cluster ceph) (with_defaults (default_pool cluster ceph))
unfolding with_defaults default_pool
with_defaults-IsDefault cluster ceph = record {
  name = refl;
  content = refl;
  pg_num = refl;
  add_as_storage = refl;
  many = λ h. rw (min-three (total_osds cluster ceph) h) (refl, refl);
  two = λ e. rw (e) (refl, refl);
  one = λ e. rw (e) (refl, refl);
}

-- the pools that a spec with these pools gets
abbrev pub AreEffective : ProxmoxCluster → CephSpec → List CephPoolSpec → List CephPoolSpec → Type 0
AreEffective cluster ceph [] qs =
    (q : CephPoolSpec) × (qs ≡ q ∷ []) × IsDefault (total_osds cluster ceph) q
AreEffective cluster ceph (p ∷ ps) qs = AllComplete (p ∷ ps) qs

pools-AreEffective :
    (cluster : ProxmoxCluster) (ceph : CephSpec) (ps : List CephPoolSpec)
    → AreEffective cluster ceph ps (map with_defaults (pools_or_default cluster ceph ps))
unfolding pools_or_default
pools-AreEffective cluster ceph [] = (_, refl, with_defaults-IsDefault cluster ceph)
pools-AreEffective cluster ceph (p ∷ ps) = map-with_defaults-AllComplete (p ∷ ps)

-- nothing of the pool is left for Ceph to guess
pub record IsComplete (p : CephPoolSpec) : Type 0 where
  pub sized : p.size ≢ pos 0
  pub min_sized : p.min_size ≢ pos 0
  pub filled : p.content ≢ []

with_defaults-IsComplete : (p : CephPoolSpec) → IsComplete (with_defaults p)
unfolding with_defaults
with_defaults-IsComplete p = record {
  sized = ground arith;
  min_sized = ground arith;
  filled = ground arith;
}

-- A second pass over a pool changes nothing.
with_defaults_of_IsComplete : (p : CephPoolSpec) → IsComplete p → with_defaults p ≡ p
unfolding with_defaults
with_defaults_of_IsComplete p h = ground arith

map-with_defaults-IsComplete : (ps : List CephPoolSpec) → All IsComplete (map with_defaults ps)
map-with_defaults-IsComplete [] = tt
map-with_defaults-IsComplete (p ∷ ps) =
    (with_defaults-IsComplete p, map-with_defaults-IsComplete ps)

map-with_defaults_of_IsComplete :
    (ps : List CephPoolSpec) → All IsComplete ps → map with_defaults ps ≡ ps
map-with_defaults_of_IsComplete [] h = refl
map-with_defaults_of_IsComplete (p ∷ ps) (h, hs) =
    ap₂ ◌∷◌ (with_defaults_of_IsComplete p h) (map-with_defaults_of_IsComplete ps hs)

effective_pools_lem :
    (cluster : ProxmoxCluster) {ceph : CephSpec}
    → cluster.spec.ceph ≡ some ceph
    → effective_pools cluster ≡ map with_defaults (pools_or_default cluster ceph ceph.pools)
unfolding effective_pools
effective_pools_lem cluster e = ground arith

-- With Ceph asked for: of a spec that names pools, the effective pools are those pools in their
-- order, each completed: what it gives is kept, and a size, minimum size and content that it leaves
-- out are the defaults. Of a spec that names none, there is the one default pool, sized by the number
-- of OSDs. A second pass over the defaults changes none.
pub effective_pools-AreEffective :
    (cluster : ProxmoxCluster) {ceph : CephSpec}
    → cluster.spec.ceph ≡ some ceph
    → AreEffective cluster ceph ceph.pools (effective_pools cluster)
      × (map with_defaults (effective_pools cluster) ≡ effective_pools cluster)
unfolding effective_pools
effective_pools-AreEffective cluster {ceph} e = rw (effective_pools_lem cluster e) (
  pools-AreEffective cluster ceph ceph.pools,
  map-with_defaults_of_IsComplete _
      (map-with_defaults-IsComplete (pools_or_default cluster ceph ceph.pools)),
)
