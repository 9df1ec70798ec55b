-- ===== src/Ceph/Status/RoundTrip.antt =====
-- `ParseCephStatus` of ceph.go on the whole output of the status script.
use text.Mathlib.TextLemmas.{append_assoc, append-nil, cons-append}
use multiprox.Prelude.{
  String, ◌≡◌, ◌≢◌, ◌↔◌, true, some, arith, eq_iff, refl, sym, ap, ◌∙◌, false, List, [], ◌∷◌, ◌==◌,
  All, if◌then◌else◌, inl, inr,
}
use multiprox.Prelude.Int.{ℤ, pos, ◌≤ℤ◌, ◌<ℤ◌}
use multiprox.Text.Strings.{◌+++◌, is_empty, trim_space, trim_left, trim_right}
use multiprox.Text.Strings.Lacks.{
  Lacks, lacks-Lacks, IsWord, is_char, Lacks-append, no_newline, single-append,
}
use multiprox.Text.Strings.Words.{trim_left-word, trim_right-append, filled_right}
use multiprox.Text.Strings.Cuts.{Skips, cut-Skips}
use multiprox.Text.Strings.Trims.{
  EndsIn, IsTrimmed, trim_space-EndsIn, trim_space-IsTrimmed, after_last-none, after_last-append,
}
use multiprox.Text.Decimal.{show_ℤ}
use multiprox.Api.Cluster.{ProxmoxCluster}
use multiprox.Ceph.Counts.{expected_osds}
use multiprox.Ceph.Status.{last_line, split_detail, parse_ceph_status, ceph_usable}
use multiprox.Ceph.Status.Line.{
  CephReport, report_facts, health_fact, later_facts, spaced, status_line, IsPrintable,
}
use multiprox.Ceph.Status.Reads.{
  report_facts-IsWord, report_facts-Skips, reported, read_fields-report, spaced-fields,
}

-- a line of words, each with a space behind it, and a detail
module _ (w : String) (ws : List String) (d : String) where
  abbrev detail_line : String
  detail_line = spaced (w ∷ ws) +++ "detail=" +++ d

  -- the detail with its key ends as the detail does
  keyed_trimmed : (e : String) → trim_right e ≡ e → trim_right ("detail=" +++ e) ≡ "detail=" +++ e
  keyed_trimmed String.[] _ = unfold trim_right in refl
  keyed_trimmed (String.◌∷◌ c e) h = trim_right-append "detail=" (String.◌∷◌ c e) h refl

  keyed_filled : is_empty ("detail=" +++ d) ≡ false
  keyed_filled = ap is_empty (cons-append "d" "etail=" d)

  starts : IsWord w → (x : String) → trim_left (detail_line +++ x) ≡ detail_line +++ x
  starts h x =
      let spelled : detail_line +++ x ≡ w +++ (((" " +++ spaced ws) +++ "detail=" +++ d) +++ x) =
        ap (λ u. (u +++ "detail=" +++ d) +++ x) (append_assoc w " " (spaced ws))
        ∙ ap (λ u. u +++ x) (append_assoc w (" " +++ spaced ws) ("detail=" +++ d))
        ∙ append_assoc w _ x in
      ap trim_left spelled ∙ trim_left-word w _ h ∙ sym spelled

  spaced-no_newline : (vs : List String) → All IsWord vs → Lacks (is_char b'\n') (spaced vs)
  spaced-no_newline [] _ = tt
  spaced-no_newline (v ∷ vs) ((_, h), hs) =
      Lacks-append _ (v +++ " ") _ (Lacks-append _ v " " (no_newline v h) (refl, tt))
        (spaced-no_newline vs hs)

  one_line : All IsWord (w ∷ ws) → Lacks (is_char b'\n') d → Lacks (is_char b'\n') detail_line
  one_line h l =
      Lacks-append _ (spaced (w ∷ ws)) _ (spaced-no_newline (w ∷ ws) h)
        (Lacks-append _ "detail=" d (lacks-Lacks (is_char b'\n') "detail=" refl) l)

  detail_cut :
      Skips "detail=" (spaced (w ∷ ws))
      → IsTrimmed d
      → split_detail detail_line ≡ (spaced (w ∷ ws), d)
  unfolding split_detail
  detail_cut s t =
      rw (split_detail, cut-Skips "detail=" (spaced (w ∷ ws)) d s, trim_space-IsTrimmed d t) refl

  module _ (h : All IsWord (w ∷ ws)) (t : IsTrimmed d) (l : Lacks (is_char b'\n') d) where
    last_trimmed : trim_right detail_line ≡ detail_line
    last_trimmed = trim_right-append (spaced (w ∷ ws)) _ (keyed_trimmed d t.1) keyed_filled

    line_trimmed : trim_space detail_line ≡ detail_line
    line_trimmed = trim_space-IsTrimmed detail_line (
      ap trim_left (sym (append-nil detail_line)) ∙ starts h.0 "" ∙ append-nil detail_line,
      last_trimmed,
    )

    found_below :
        (out v : String) → trim_space out ≡ v +++ "\n" +++ detail_line → last_line out ≡ detail_line
    unfolding last_line
    found_below out v e =
        rw
          (
            last_line,
            e,
            single-append "\n" detail_line,
            after_last-append "\n" v detail_line (one_line h l),
          )
          line_trimmed

    line_found : (out : String) → EndsIn detail_line out → last_line out ≡ detail_line
    unfolding last_line
    line_found out e =
        elim (trim_space-EndsIn detail_line (starts h.0) last_trimmed
          (filled_right (spaced (w ∷ ws)) _ keyed_filled) out e) [
            | inl only ↦ rw (last_line, only, after_last-none "\n" detail_line (one_line h l)) only
            | inr below ↦ found_below out below.0 below.1
          ]

module _ (cluster : ProxmoxCluster) (r : CephReport) where
  -- Of an output that ends in the line of a printable report, whatever lines stand above it, the
  -- parser reads back what the report says of health, monitors, managers, pools and the OSDs that are
  -- up, no detail where the health is HEALTH_OK, and sets these OSDs against those that the spec asks
  -- for. The number of OSDs that are in is read over.
  pub parse_ceph_status-status_line :
      (out : String)
      → EndsIn (status_line r) out
      → IsPrintable r
      → parse_ceph_status cluster out ≡ record (reported (expected_osds cluster) r) {
        health_detail = if r.health == "HEALTH_OK" then "" else r.detail;
        osd_summary = show_ℤ r.osds_up +++ "/" +++ show_ℤ (expected_osds cluster);
      }
  unfolding parse_ceph_status status_line
  parse_ceph_status-status_line out e h =
      let words = report_facts-IsWord r h in
      let trimmed = h.5 in
      rw
        (
          parse_ceph_status,
          line_found (health_fact r) (later_facts r) r.detail words trimmed h.6 out e,
          detail_cut (health_fact r) (later_facts r) r.detail (report_facts-Skips r h) trimmed,
          spaced-fields (report_facts r) words,
          read_fields-report (expected_osds cluster) r h,
        )
        refl

-- A report of a Ceph that can serve disks: set up, reachable, without an error, and with every
-- expected OSD up.
pub record IsServing (expected : ℤ) (r : CephReport) : Type 0 where
  pub set_up : r.health ≢ "UNINITIALIZED"
  pub reachable : r.health ≢ "UNREACHABLE"
  pub no_error : r.health ≢ "HEALTH_ERR"
  pub some_expected : pos 0 <ℤ expected
  pub all_up : expected ≤ℤ r.osds_up

reported-IsServing :
    (expected : ℤ) (r : CephReport) (detail summary : String)
    → (ceph_usable
          (some (record (reported expected r) { health_detail = detail; osd_summary = summary }))
        ≡ true)
      ↔ IsServing expected r
unfolding ceph_usable
reported-IsServing expected r detail summary = ground (
  arith,
  eq_iff r.health "UNINITIALIZED",
  eq_iff r.health "UNREACHABLE",
  eq_iff r.health "HEALTH_ERR",
)

-- What the script reports decides whether the operator goes on to Ready: the printed line is read as
-- usable exactly when the report is of a Ceph that serves, whatever lines stand above it.
pub ceph_usable-IsServing_iff :
    (cluster : ProxmoxCluster) (r : CephReport) (out : String)
    → EndsIn (status_line r) out
    → IsPrintable r
    → (ceph_usable (some (parse_ceph_status cluster out)) ≡ true)
      ↔ IsServing (expected_osds cluster) r
ceph_usable-IsServing_iff cluster r out e h =
    rw (parse_ceph_status-status_line cluster r out e h)
      (reported-IsServing (expected_osds cluster) r _ _)
