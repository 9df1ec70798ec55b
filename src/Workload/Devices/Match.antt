-- ===== src/Workload/Devices/Match.antt =====
-- The OSD devices of statefulset.go, beside its claim templates.
use mathlib.Core.Path.{ap₂}
use multiprox.Prelude.{◌≡◌, refl, inl, inr, List, [], ◌∷◌, map, Option-cases}
use multiprox.Api.Cluster.{ProxmoxCluster}
use multiprox.Workload.Devices.{osd_volume_devices}
use multiprox.Workload.Claims.{osd_claim, osd_claim_templates}

-- two maps over one list that agree at each element
module _ {A B C D : Type 0} (f : A → B) (g : A → C) (p : B → D) (q : C → D) where
  map-map : ((x : A) → p (f x) ≡ q (g x)) → (xs : List A) → map p (map f xs) ≡ map q (map g xs)
  map-map h [] = refl
  map-map h (x ∷ xs) = ap₂ (λ y ys. y ∷ ys) (h x) (map-map h xs)

-- Each OSD device of the container is backed by the claim template in its place: the names are the
-- same, in order.
pub osd_volume_devices-claims :
    (cluster : ProxmoxCluster)
    → map (λ d. d.name) (osd_volume_devices cluster)
      ≡ map (λ c. c.name) (osd_claim_templates cluster)
unfolding osd_volume_devices osd_claim_templates osd_claim
osd_volume_devices-claims cluster = elim (Option-cases cluster.spec.ceph) [
  | inl e ↦ rw (e, osd_volume_devices) refl
  | inr (ceph, e) ↦ rw (e, osd_volume_devices) (map-map _ _ _ _ (λ i. refl) _)
]
