-- ===== src/Workload/StatefulSet/WellFormed.antt =====
-- How the parts of the StatefulSet of statefulset.go, of its claims, and of the ConfigMap of
-- configmap.go name each other.
use text.Mathlib.TextLemmas.{append_cancel_left}
use multiprox.Prelude.{
  ◌≡◌, ◌≢◌, refl, ap, subst, ◌∙◌, ℕ, String, true, false, List, [], ◌∷◌, ◌++◌, map, All, All-map,
  AllDistinct, not, ◌&&◌, &&-eq-true, Bool, arith, is_among, is_among-Any, All-Any, Any-append_left,
  AllDistinct-append, AllDistinct-map_range, All-map_range, distinct_texts-AllDistinct, range_from,
  Any, inl, inr, both_values, Option-cases, if◌then◌else◌,
}
use multiprox.Prelude.Int.{ℤ, pos, negsuc, indices, ltb_ℤ}
use multiprox.Text.Strings.{has_prefix}
use multiprox.Text.Strings.Words.{has_prefix-append}
use multiprox.Text.Decimal.{show_ℕ-injective}
use multiprox.Api.Cluster.{ProxmoxCluster}
use multiprox.Workload.Devices.{osd_pvc_name, osd_volume_devices}
use multiprox.Workload.Devices.Match.{osd_volume_devices-claims}
use multiprox.Workload.Claims.{size_or, osd_claim, osd_claim_templates, volume_claim_templates}
use multiprox.Workload.Objects.{Container, StatefulSet, PersistentVolumeClaim}
use multiprox.Workload.StatefulSet.{stateful_set, volumes, pve_container, init_container}

-- the names that no spec changes
abbrev fixed_names : List String
fixed_names =
    "scripts" ∷ "pve-config" ∷ "bin-overlay" ∷ "run" ∷ "run-lock" ∷ "tmp" ∷ "cgroup"
    ∷ "cluster-data" ∷ "vm-storage" ∷ []

osd_pvc_name-injective : (i j : ℕ) → osd_pvc_name i ≡ osd_pvc_name j → i ≡ j
unfolding osd_pvc_name
osd_pvc_name-injective i j e = show_ℕ-injective i j (append_cancel_left "ceph-osd-" _ _ e)

osd_pvc_name-apart : (s : String) → has_prefix s "ceph-osd-" ≡ false → (i : ℕ) → s ≢ osd_pvc_name i
unfolding osd_pvc_name
osd_pvc_name-apart s h i e =
    both_values _ (ap (λ t. has_prefix t "ceph-osd-") e ∙ has_prefix-append "ceph-osd-" _) h

abbrev pub claim_names : ProxmoxCluster → List String
claim_names cluster = map (λ c. c.name) (volume_claim_templates cluster)

abbrev pub volume_names : ProxmoxCluster → List String
volume_names cluster = map (λ v. v.name) (volumes cluster)

named :
    (f : ℕ → PersistentVolumeClaim)
    → ((i : ℕ) → (f i).name ≡ osd_pvc_name i)
    → (is : List ℕ) → map (λ c. c.name) (map f is) ≡ map osd_pvc_name is
named f h [] = refl
named f h (i ∷ is) = rw (h i, named f h is) refl

named_indices :
    (f : ℕ → PersistentVolumeClaim)
    → ((i : ℕ) → (f i).name ≡ osd_pvc_name i)
    → (n : ℤ)
    → (m : ℕ) × (map (λ c. c.name) (map f (indices n)) ≡ map osd_pvc_name (range_from 0 m))
named_indices f h (pos n) = (n, named f h (range_from 0 n))
named_indices f h (negsuc n) = (0, refl)

-- the names of the OSD claims
osd_names :
    (cluster : ProxmoxCluster)
    → (n : ℕ) × (map (λ c. c.name) (osd_claim_templates cluster)
        ≡ map osd_pvc_name (range_from 0 n))
unfolding osd_claim_templates osd_claim
osd_names cluster = elim (Option-cases cluster.spec.ceph) [
  | inl e ↦ (0, rw (e) refl)
  | inr found ↦
      let ceph = found.0 in
      let n = if ltb_ℤ ceph.osds_per_node (pos 1) then pos 1 else ceph.osds_per_node in
      let (m, names) =
        named_indices (osd_claim ceph (size_or ceph.osd_size "100Gi")) (λ i. refl) n in
      (m, rw (found.1) names)
]

abbrev unprefixed : List String → Bool
unprefixed [] = true
unprefixed (s ∷ ss) = not (has_prefix s "ceph-osd-") && unprefixed ss

names_apart :
    (n : ℕ) (ss : List String)
    → unprefixed ss ≡ true
    → All (λ s. All (λ t. s ≢ t) (map osd_pvc_name (range_from 0 n))) ss
names_apart n [] _ = tt
names_apart n (s ∷ ss) h =
    let (here, later) = &&-eq-true (not (has_prefix s "ceph-osd-")) (unprefixed ss) h in
    (
      All-map_range osd_pvc_name (λ t. s ≢ t) 0 n (λ i _. osd_pvc_name-apart s (ground (arith)) i),
      names_apart n ss later,
    )

-- the names of the pod's volumes, and of the claims that become volumes of it
volume_names-AllDistinct :
    (cluster : ProxmoxCluster) → AllDistinct (volume_names cluster ++ claim_names cluster)
unfolding volumes volume_claim_templates has_prefix
volume_names-AllDistinct cluster =
    let (n, e) = osd_names cluster in
    let all : AllDistinct (fixed_names ++ map osd_pvc_name (range_from 0 n)) =
      AllDistinct-append fixed_names (map osd_pvc_name (range_from 0 n))
        (distinct_texts-AllDistinct fixed_names refl)
        (AllDistinct-map_range osd_pvc_name osd_pvc_name-injective 0 n)
        (names_apart n fixed_names refl) in
    rw (e) all

-- a mount or a device names a volume or a claim
abbrev pub NamesOne : List String → String → Type 0
NamesOne names name = Any (λ n. n ≡ name) names

abbrev pub pod_volume_names : ProxmoxCluster → List String
pod_volume_names cluster = volume_names cluster ++ claim_names cluster

fixed_names-NamesOne :
    (cluster : ProxmoxCluster) (name : String)
    → is_among name fixed_names ≡ true
    → NamesOne (pod_volume_names cluster) name
unfolding volumes volume_claim_templates
fixed_names-NamesOne cluster name h =
    Any-append_left (λ n. n ≡ name) fixed_names (map (λ c. c.name) (osd_claim_templates cluster))
      (is_among-Any name fixed_names h)

-- of a set with these names of volumes and claims
pub record Resolves (volumes claims : List String) (c : Container) : Type 0 where
  pub mounts : All (λ m. NamesOne (volumes ++ claims) m.name) c.volume_mounts
  pub devices : All (λ d. NamesOne claims d.name) c.volume_devices

init_mounts :
    (cluster : ProxmoxCluster)
    → Resolves (volume_names cluster) (claim_names cluster) init_container
init_mounts cluster = record {
  mounts = (
    fixed_names-NamesOne cluster "scripts" refl,
    (fixed_names-NamesOne cluster "bin-overlay" refl, tt),
  );
  devices = tt;
}

devices_named :
    (cluster : ProxmoxCluster)
    → All (λ d. NamesOne (claim_names cluster) d.name) (osd_volume_devices cluster)
unfolding volume_claim_templates
devices_named cluster =
    All-map (λ d. Any (λ n. n ≡ d.name) (map (λ d. d.name) (osd_volume_devices cluster)))
      (λ d. NamesOne (claim_names cluster) d.name)
      (λ d h. inr (inr (subst (Any (λ n. n ≡ d.name)) (osd_volume_devices-claims cluster) h)))
      (osd_volume_devices cluster) (All-Any (λ d. d.name) (osd_volume_devices cluster))

pve_mounts :
    (cluster : ProxmoxCluster)
    → Resolves (volume_names cluster) (claim_names cluster) (pve_container cluster)
unfolding pve_container
pve_mounts cluster =
    let one = fixed_names-NamesOne cluster in
    record {
      mounts = (
        one "cluster-data" refl,
        (
          one "vm-storage" refl,
          (
            one "scripts" refl,
            (
              one "bin-overlay" refl,
              (
                one "pve-config" refl,
                (one "run" refl, (one "run-lock" refl, (one "tmp" refl, (one "cgroup" refl, tt)))),
              ),
            ),
          ),
        ),
      );
      devices = devices_named cluster;
    }

-- the names of the volumes of a pod, and of the claims that become volumes of it
abbrev pub set_volumes : StatefulSet → List String
set_volumes s = map (λ v. v.name) s.spec.template.volumes

abbrev pub set_claims : StatefulSet → List String
set_claims s = map (λ c. c.name) s.spec.volume_claim_templates

pub record IsWellFormed (s : StatefulSet) : Type 0 where
  -- the selector selects the pods of the template
  pub selects : s.spec.match_labels ≡ s.spec.template.labels
  pub distinct : AllDistinct (set_volumes s ++ set_claims s)
  pub resolves :
      All
        (Resolves (set_volumes s) (set_claims s))
        (s.spec.template.init_containers ++ s.spec.template.containers)

-- Of every spec the StatefulSet selects the pods of its own template, no two of the volumes and
-- claims of a pod have one name, each mount of its containers names one of them, and each block
-- device a claim.
pub stateful_set-IsWellFormed : (cluster : ProxmoxCluster) → IsWellFormed (stateful_set cluster)
unfolding stateful_set
stateful_set-IsWellFormed cluster = record {
  selects = refl;
  distinct = volume_names-AllDistinct cluster;
  resolves = (init_mounts cluster, (pve_mounts cluster, tt));
}
