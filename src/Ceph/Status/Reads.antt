-- ===== src/Ceph/Status/Reads.antt =====
-- `ParseCephStatus` of ceph.go on the parts of a status line.
use mathlib.Core.List.{foldl}
use multiprox.Prelude.{String, ◌≡◌, refl, ap, ◌∙◌, true, not, List, [], ◌∷◌, ◌==◌, All, All-map}
use multiprox.Prelude.Int.{ℤ, int32_of_IsInt32}
use multiprox.Text.Facts.{fact, fact-IsWord, cut-fact, fact-Skips}
use multiprox.Text.Strings.{◌+++◌, join, trim_space, fields, is_space}
use multiprox.Text.Strings.Lacks.{Lacks, lacks, IsWord, is_char, Lacks-append}
use multiprox.Text.Strings.Splits.{split-join}
use multiprox.Text.Strings.Words.{join-filled, trim_space-join, fields-word}
use multiprox.Text.Strings.Cuts.{Skips, Skips-append, clear, clear-Skips}
use multiprox.Text.Decimal.{show_ℤ}
use multiprox.Text.Decimal.Words.{show_ℤ-IsWord, show_ℤ-no_sign, atoi-show_ℤ}
use multiprox.Api.Cluster.{CephStatus}
use multiprox.Ceph.Status.{split_csv, trimmed_parts, read_field, set_field, fresh_status}
use multiprox.Ceph.Status.Line.{CephReport, report_facts, spaced, IsValue, IsName, IsPrintable}

trim_space-word : (w : String) → IsWord w → trim_space w ≡ w
unfolding join
trim_space-word w h = trim_space-join (w ∷ []) (h, tt)

trimmed_parts-words : (ws : List String) → All IsWord ws → trimmed_parts ws ≡ ws
unfolding trimmed_parts
trimmed_parts-words [] _ = refl
trimmed_parts-words (w ∷ ws) (h, hs) = rw (trimmed_parts-words ws hs, trim_space-word w h, h.0) refl

-- Names with commas between them are read back.
pub split_csv-join : (ns : List String) → All IsName ns → split_csv (join ns ",") ≡ ns
unfolding split_csv join
split_csv-join [] _ = refl
split_csv-join (n ∷ ns) h =
    let parts =
      split-join "," (n ∷ ns) (cc)
        (All-map IsName (Lacks (is_char b',')) (λ v k. k.2) (n ∷ ns) h) in
    rw (join-filled "," n ns h.0.0.0, parts)
      (trimmed_parts-words (n ∷ ns) (All-map IsName IsWord (λ v k. k.0) (n ∷ ns) h))

-- and their text can stand behind a key
pub join-IsValue : (ns : List String) → All IsName ns → IsValue (join ns ",")
unfolding join
join-IsValue [] _ = (tt, tt)
join-IsValue (n ∷ []) (h, _) = (h.0.1, h.1)
join-IsValue (n ∷ m ∷ ns) (h, hs) =
    let tail = join-IsValue (m ∷ ns) hs in
    (
      Lacks-append is_space n _ h.0.1 (Lacks-append is_space "," _ (refl, tt) tail.0),
      Lacks-append _ n _ h.1 (Lacks-append _ "," _ (refl, tt) tail.1),
    )

pub read_field-fact :
    (st : CephStatus) (k v : String)
    → lacks (is_char b'=') k ≡ true
    → read_field st (fact k v) ≡ set_field st k v
unfolding read_field
read_field-fact st k v h = rw (read_field, cut-fact k v h) refl

pub spaced-fields : (ws : List String) → All IsWord ws → fields (spaced ws) ≡ ws
spaced-fields [] _ = unfold fields in refl
spaced-fields (w ∷ ws) (h, hs) = fields-word w (spaced ws) h ∙ ap (λ u. w ∷ u) (spaced-fields ws hs)

pub spaced-Skips :
    (sep : String) (ws : List String) → All (λ w. Skips sep (w +++ " ")) ws → Skips sep (spaced ws)
spaced-Skips sep [] _ = clear-Skips sep "" refl
spaced-Skips sep (w ∷ ws) (h, hs) =
    Skips-append sep (w +++ " ") (spaced ws) h (spaced-Skips sep ws hs)

pub report_facts-IsWord : (r : CephReport) → IsPrintable r → All IsWord (report_facts r)
report_facts-IsWord r (health, up, mons, mgrs, pools, _, _) = (
  fact-IsWord "health" _ refl health.0,
  (
    fact-IsWord "osds_up" _ refl (show_ℤ-IsWord r.osds_up).1,
    (
      fact-IsWord "osds_in" _ refl (show_ℤ-IsWord r.osds_in).1,
      (
        fact-IsWord "mons" _ refl (join-IsValue r.mons mons).0,
        (
          fact-IsWord "mgrs" _ refl (join-IsValue r.mgrs mgrs).0,
          (fact-IsWord "pools" _ refl (join-IsValue r.pools pools).0, tt),
        ),
      ),
    ),
  ),
)

-- No field holds the key of the detail.
pub report_facts-Skips :
    (r : CephReport) → IsPrintable r → Skips "detail=" (spaced (report_facts r))
report_facts-Skips r (health, up, mons, mgrs, pools, _, _) =
    spaced-Skips "detail=" (report_facts r) (
      skipped "health" r.health refl health.1,
      (
        skipped "osds_up" (show_ℤ r.osds_up) refl (show_ℤ-no_sign r.osds_up),
        (
          skipped "osds_in" (show_ℤ r.osds_in) refl (show_ℤ-no_sign r.osds_in),
          (
            skipped "mons" (join r.mons ",") refl (join-IsValue r.mons mons).1,
            (
              skipped "mgrs" (join r.mgrs ",") refl (join-IsValue r.mgrs mgrs).1,
              (skipped "pools" (join r.pools ",") refl (join-IsValue r.pools pools).1, tt),
            ),
          ),
        ),
      ),
    )
  where
    skipped :
        (k v : String)
        → clear "detail=" (k +++ "=") ≡ true
        → Lacks (is_char b'=') v
        → Skips "detail=" (fact k v +++ " ")
    skipped k v c l = fact-Skips "detail=" k v c refl refl l

-- the status that the fields of a report give, from a fresh one
abbrev pub reported : ℤ → CephReport → CephStatus
reported expected r = record (fresh_status expected) {
  health = r.health;
  initialized = not (r.health == "UNINITIALIZED");
  osds_ready = r.osds_up;
  monitors = r.mons;
  managers = r.mgrs;
  pools = r.pools;
}

pub read_fields-report :
    (expected : ℤ) (r : CephReport)
    → IsPrintable r
    → foldl read_field (fresh_status expected) (report_facts r) ≡ reported expected r
read_fields-report expected r (health, up, mons, mgrs, pools, _, _) =
    rw
      (
        read_field-fact _ "health" _ refl,
        read_field-fact _ "osds_up" _ refl,
        read_field-fact _ "osds_in" _ refl,
        read_field-fact _ "mons" _ refl,
        read_field-fact _ "mgrs" _ refl,
        read_field-fact _ "pools" _ refl,
        atoi-show_ℤ r.osds_up up,
        int32_of_IsInt32 r.osds_up up,
        split_csv-join r.mons mons,
        split_csv-join r.mgrs mgrs,
        split_csv-join r.pools pools,
      )
      refl
