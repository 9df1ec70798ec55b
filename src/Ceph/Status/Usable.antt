-- ===== src/Ceph/Status/Usable.antt =====
-- What a usable Ceph is, whatever `ParseCephStatus` of ceph.go has read.
use mathlib.Core.List.{foldl}
use multiprox.Prelude.{
  ◌≡◌, ◌≢◌, ◌∙◌, refl, subst, String, true, Option, none, some, List, [], ◌∷◌, arith, eq_iff,
  Option-cases, inl, inr,
}
use multiprox.Prelude.Int.{ℤ, pos, ◌≤ℤ◌, ◌<ℤ◌}
use multiprox.Text.Strings.{cut, fields}
use multiprox.Text.Decimal.{atoi}
use multiprox.Api.Cluster.{CephStatus, ProxmoxCluster}
use multiprox.Ceph.Counts.{expected_osds}
use multiprox.Ceph.Status.{
  set_osds_ready, set_field, read_field, fresh_status, split_detail, last_line, parse_ceph_status,
  ceph_usable,
}

set_osds_ready-expected :
    (st : CephStatus) (n : Option ℤ) → (set_osds_ready st n).osds_expected ≡ st.osds_expected
set_osds_ready-expected st none = refl
set_osds_ready-expected st (some n) = refl

set_field-expected :
    (st : CephStatus) (k v : String) → (set_field st k v).osds_expected ≡ st.osds_expected
set_field-expected st k v = ground (arith, set_osds_ready-expected st (atoi v))

read_field-expected :
    (st : CephStatus) (field : String) → (read_field st field).osds_expected ≡ st.osds_expected
unfolding read_field
read_field-expected st field = elim (Option-cases (cut field "=")) [
  | inl e ↦ rw (e, read_field) refl
  | inr ((k, v), e) ↦ rw (e, read_field) (set_field-expected st k v)
]

fields-expected :
    (fs : List String) (st : CephStatus) → (foldl read_field st fs).osds_expected ≡ st.osds_expected
fields-expected [] st = refl
fields-expected (f ∷ fs) st = fields-expected fs (read_field st f) ∙ read_field-expected st f

parse_ceph_status-expected :
    (cluster : ProxmoxCluster) (out : String)
    → (parse_ceph_status cluster out).osds_expected ≡ expected_osds cluster
unfolding parse_ceph_status
parse_ceph_status-expected cluster out =
    fields-expected (fields (split_detail (last_line out)).0) (fresh_status (expected_osds cluster))

-- every OSD of the spec is up, and the health is none of those that rule Ceph out
pub record Serves (expected : ℤ) (st : CephStatus) : Type 0 where
  pub some_expected : pos 0 <ℤ expected
  pub all_up : expected ≤ℤ st.osds_ready
  pub no_error : st.health ≢ "HEALTH_ERR"
  pub reachable : st.health ≢ "UNREACHABLE"
  pub set_up : st.health ≢ "UNINITIALIZED"

ceph_usable-Serves : (st : CephStatus) → ceph_usable (some st) ≡ true → Serves st.osds_expected st
unfolding ceph_usable
ceph_usable-Serves st h = record {
  some_expected = ground arith;
  all_up = ground arith;
  no_error = λ e. ground (arith, eq_iff st.health "HEALTH_ERR");
  reachable = λ e. ground (arith, eq_iff st.health "UNREACHABLE");
  set_up = λ e. ground (arith, eq_iff st.health "UNINITIALIZED");
}

-- Whatever the status script has printed: when the status read from it counts as usable, at least
-- one OSD is expected, as many OSDs are up as the spec asks for, and the health that was read is
-- not HEALTH_ERR, UNREACHABLE or UNINITIALIZED.
pub parse_ceph_status-Serves :
    (cluster : ProxmoxCluster) (out : String)
    → ceph_usable (some (parse_ceph_status cluster out)) ≡ true
    → Serves (expected_osds cluster) (parse_ceph_status cluster out)
parse_ceph_status-Serves cluster out h =
    subst (λ n. Serves n (parse_ceph_status cluster out)) (parse_ceph_status-expected cluster out)
      (ceph_usable-Serves (parse_ceph_status cluster out) h)
