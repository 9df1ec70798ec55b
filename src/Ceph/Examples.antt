-- ===== src/Ceph/Examples.antt =====
-- Tests of the Ceph definitions, and the theorems about them at concrete clusters.
use multiprox.Prelude.{String, ◌≡◌, ◌↔◌, refl, inr, none, some, [], ◌∷◌, map, arith, All}
use mathlib.Core.Bool.{true}
use multiprox.Prelude.Int.{pos, ◌≤ℤ◌, ◌*ℤ◌}
use multiprox.Ceph.Status.Usable.{Serves, parse_ceph_status-Serves}
use multiprox.Api.Samples.{sample_ceph, sample_pool, cluster_of, with_pools}
use multiprox.Ceph.Counts.{min_int32, expected_osds, effective_mon_count, effective_mgr_count}
use multiprox.Ceph.Counts.Bounds.{
  requested, IsGreatestOdd, effective_mon_count-IsGreatestOdd, effective_mgr_count_bounds,
}
use multiprox.Ceph.Pools.{with_defaults, effective_pools, pool_names}
use multiprox.Ceph.Pools.Defaults.{AreEffective, effective_pools-AreEffective}
use multiprox.Ceph.Plan.{osd, ceph_plan}
use multiprox.Ceph.Plan.Order.{script_of, HasItsScript, IsOrdered, ceph_plan-IsOrdered}
use multiprox.Ceph.Plan.Runs.{runs, ceph_plan-runs}
use multiprox.Ceph.Validate.{validate_ceph}
use multiprox.Ceph.Validate.Converges.{
  Fits, HasQuorum, validate_ceph-none_iff, validate_ceph-no_pools,
}
use multiprox.Text.Strings.{◌+++◌, is_space, trim_left, trim_right, has_line}
use multiprox.Text.Strings.Lacks.{lacks, lacks-Lacks, is_char, is_word, is_word-IsWord}
use multiprox.Text.Strings.Trims.{EndsIn}
use multiprox.Text.Decimal.{show_ℤ}
use multiprox.Scripts.Daemons.{ceph_status_script}
use multiprox.Ceph.Status.Line.{CephReport, status_line, IsName, IsPrintable}
use multiprox.Ceph.Status.Reads.{reported}
use multiprox.Ceph.Status.RoundTrip.{
  IsServing, parse_ceph_status-status_line, ceph_usable-IsServing_iff,
}
use multiprox.Ceph.Status.{parse_ceph_status, ceph_usable}

counts_tests :
    (effective_mon_count (cluster_of (pos 2)) ≡ pos 1)
    × (effective_mon_count (cluster_of (pos 5)) ≡ pos 3)
    × (effective_mgr_count (cluster_of (pos 1)) ≡ pos 1)
    × (expected_osds (cluster_of (pos 5)) ≡ pos 10)
unfolding effective_mon_count effective_mgr_count expected_osds
counts_tests = (refl, refl, refl, refl)

validate_tests :
    (validate_ceph (with_pools (cluster_of (pos 1))) ≡ none)
    × (pool_names (cluster_of (pos 1)) ≡ "ceph-vm" ∷ [])
unfolding validate_ceph expected_osds effective_pools pool_names
validate_tests = (refl, refl)

status_tests :
    (ceph_usable (
        some (
          parse_ceph_status
            (cluster_of (pos 1))
            "warn\nhealth=HEALTH_OK osds_up=2 osds_in=2 mons=a,b mgrs= pools=x detail="))
      ≡ true)
    × ((parse_ceph_status
          (cluster_of (pos 1))
          "health=HEALTH_WARN osds_up=1 osds_in=2 mons=a, mgrs= pools=x detail= two words ").health_detail
        ≡ "two words")
unfolding parse_ceph_status ceph_usable
status_tests = (refl, refl)

effective_mon_count-IsGreatestOdd_example :
    IsGreatestOdd
      (min_int32 (requested (pos 3) (pos 3)) (pos 2))
      (effective_mon_count (cluster_of (pos 2)))
effective_mon_count-IsGreatestOdd_example =
    effective_mon_count-IsGreatestOdd (cluster_of (pos 2)) {ceph = sample_ceph} refl (omega arith)
      (omega arith, omega arith)

effective_mgr_count_bounds_example :
    (effective_mgr_count (cluster_of (pos 1)) ≡ pos 1)
    × (pos 1 ≤ℤ effective_mgr_count (cluster_of (pos 1)))
    × (effective_mgr_count (cluster_of (pos 1)) ≤ℤ pos 1)
effective_mgr_count_bounds_example =
    effective_mgr_count_bounds (cluster_of (pos 1)) {ceph = sample_ceph} refl (omega arith)

effective_pools-AreEffective_example :
    AreEffective (cluster_of (pos 3)) sample_ceph [] (effective_pools (cluster_of (pos 3)))
    × (map with_defaults (effective_pools (cluster_of (pos 3)))
        ≡ effective_pools (cluster_of (pos 3)))
effective_pools-AreEffective_example =
    effective_pools-AreEffective (cluster_of (pos 3)) {ceph = sample_ceph} refl

ceph_plan-IsOrdered_example :
    IsOrdered (ceph_plan (cluster_of (pos 3))) × All HasItsScript (ceph_plan (cluster_of (pos 3)))
ceph_plan-IsOrdered_example = ceph_plan-IsOrdered (cluster_of (pos 3))

ceph_plan-runs_example : runs (script_of osd) 2 (ceph_plan (cluster_of (pos 3))) ≡ 1
ceph_plan-runs_example = ceph_plan-runs (cluster_of (pos 3)) {ceph = sample_ceph} osd 2 refl

validate_ceph-none_iff_example : (validate_ceph (with_pools (cluster_of (pos 3))) ≡ none) ↔ (
    HasQuorum (record sample_ceph { pools = sample_pool ∷ [] })
    × All
        (Fits (expected_osds (with_pools (cluster_of (pos 3)))))
        (effective_pools (with_pools (cluster_of (pos 3)))))
validate_ceph-none_iff_example =
    validate_ceph-none_iff (with_pools (cluster_of (pos 3)))
      {ceph = record sample_ceph { pools = sample_pool ∷ [] }} refl

product_in_range : pos 1 *ℤ pos 2 ≡ pos 2
unfolding ◌*ℤ◌
product_in_range = refl

validate_ceph-no_pools_example : validate_ceph (cluster_of (pos 1)) ≡ none
unfolding ◌*ℤ◌
validate_ceph-no_pools_example =
    validate_ceph-no_pools (cluster_of (pos 1)) {ceph = sample_ceph} refl refl (inr refl)
      (omega arith) (omega arith, omega arith)

parse_ceph_status-Serves_example : Serves (pos 6) (
    parse_ceph_status
      (cluster_of (pos 3))
      "notice\nhealth=HEALTH_WARN osds_up=6 mons=a,b detail=x y")
unfolding parse_ceph_status ceph_usable expected_osds
parse_ceph_status-Serves_example =
    parse_ceph_status-Serves (cluster_of (pos 3))
      "notice\nhealth=HEALTH_WARN osds_up=6 mons=a,b detail=x y" refl

abbrev sample_report : CephReport
sample_report = record {
  health = "HEALTH_WARN";
  osds_up = pos 5;
  osds_in = pos 6;
  mons = "lab-0" ∷ "lab-1" ∷ [];
  mgrs = "lab-0" ∷ [];
  pools = "ceph-vm" ∷ [];
  detail = "1 osds down";
}

tested-IsName :
    (v : String)
    → is_word v ≡ true
    → lacks (is_char b'=') v ≡ true
    → lacks (is_char b',') v ≡ true
    → IsName v
tested-IsName v w e c =
    (is_word-IsWord v w, lacks-Lacks (is_char b'=') v e, lacks-Lacks (is_char b',') v c)

sample_report-IsPrintable : IsPrintable sample_report
unfolding trim_left trim_right
sample_report-IsPrintable = (
  (lacks-Lacks is_space "HEALTH_WARN" refl, lacks-Lacks (is_char b'=') "HEALTH_WARN" refl),
  (omega arith, omega arith),
  (tested-IsName "lab-0" refl refl refl, (tested-IsName "lab-1" refl refl refl, tt)),
  (tested-IsName "lab-0" refl refl refl, tt),
  (tested-IsName "ceph-vm" refl refl refl, tt),
  (refl, refl),
  lacks-Lacks (is_char b'\n') "1 osds down" refl,
)

parse_ceph_status-status_line_example :
    parse_ceph_status
      (cluster_of (pos 3))
      ("notice" +++ "\n" +++ status_line sample_report +++ "\n")
    ≡ record (reported (expected_osds (cluster_of (pos 3))) sample_report) {
      health_detail = "1 osds down";
      osd_summary = show_ℤ (pos 5) +++ "/" +++ show_ℤ (expected_osds (cluster_of (pos 3)));
    }
parse_ceph_status-status_line_example =
    parse_ceph_status-status_line (cluster_of (pos 3)) sample_report
      ("notice" +++ "\n" +++ status_line sample_report +++ "\n") (EndsIn.below "notice")
      sample_report-IsPrintable

-- the line of the model, and the line of the script with its variables in place of the values
line_tests :
    (status_line sample_report
      ≡ "health=HEALTH_WARN osds_up=5 osds_in=6 mons=lab-0,lab-1 mgrs=lab-0 pools=ceph-vm detail=1 osds down")
    × (has_line
          "echo \"health=${HEALTH} osds_up=${OSDS_UP} osds_in=${OSDS_IN} mons=${MONS} mgrs=${MGRS} pools=${POOLS} detail=${DETAIL}\""
          (ceph_status_script (cluster_of (pos 3)))
        ≡ true)
unfolding status_line ceph_status_script has_line
line_tests = (refl, refl)

ceph_usable-IsServing_iff_example :
    (ceph_usable (
        some (
          parse_ceph_status
            (cluster_of (pos 3))
            ("notice" +++ "\n" +++ status_line sample_report +++ "\n")))
      ≡ true)
    ↔ IsServing (expected_osds (cluster_of (pos 3))) sample_report
ceph_usable-IsServing_iff_example =
    ceph_usable-IsServing_iff (cluster_of (pos 3)) sample_report
      ("notice" +++ "\n" +++ status_line sample_report +++ "\n") (EndsIn.below "notice")
      sample_report-IsPrintable
