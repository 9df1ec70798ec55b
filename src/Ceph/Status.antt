-- ===== src/Ceph/Status.antt =====
-- `ParseCephStatus`, `CephUsable` and `splitCSV` of ceph.go.
pub mod Usable
pub mod Line
pub mod Reads
pub mod RoundTrip
use multiprox.Prelude.{
  String, Bool, false, not, ◌&&◌, ◌||◌, Option, none, some, List, [], ◌∷◌, ◌==◌, if◌then◌else◌,
}
use mathlib.Core.List.{foldl}
use multiprox.Prelude.Int.{ℤ, pos, ltb_ℤ, leb_ℤ, int32}
use multiprox.Text.Strings.{◌+++◌, is_empty, cut, split, trim_space, fields, after_last}
use multiprox.Text.Decimal.{show_ℤ, atoi}
use multiprox.Api.Cluster.{CephStatus, ProxmoxCluster}
use multiprox.Ceph.Counts.{expected_osds}

-- a part that is not empty once trimmed, in front of the others
abbrev pub cons_trimmed_part : String → List String → List String
cons_trimmed_part p out = let t = trim_space p in if is_empty t then out else t ∷ out

-- the loop over the parts
pub trimmed_parts : List String → List String
trimmed_parts [] = []
trimmed_parts (p ∷ parts) = cons_trimmed_part p (trimmed_parts parts)

unfoldable pub split_csv : String → List String
unfolding trimmed_parts split trim_space
split_csv s = if is_empty s then [] else trimmed_parts (split s b',')

-- the last line of the trimmed output: warnings may stand above it
unfoldable pub last_line : String → String
unfolding trim_space after_last
last_line out =
    let line = trim_space out in
    elim (after_last line b'\n') [ none ↦ line | some last ↦ trim_space last ]

-- the line up to `detail=`, and the trimmed detail, which may hold spaces
unfoldable pub split_detail : String → String × String
unfolding cut trim_space
split_detail line = elim (cut line "detail=") [
  | none ↦ (line, "")
  | some (before, detail) ↦ (before, trim_space detail)
]

abbrev pub set_osds_ready : CephStatus → Option ℤ → CephStatus
set_osds_ready st none = st
set_osds_ready st (some n) = record st { osds_ready = int32 n }

-- the `switch` on the key; other keys are ignored
abbrev pub set_field : CephStatus → String → String → CephStatus
set_field st k v =
    if k == "health"
    then record st { health = v; initialized = not (v == "UNINITIALIZED") }
    else if k == "osds_up"
    then set_osds_ready st (atoi v)
    else if k == "mons"
    then record st { monitors = split_csv v }
    else if k == "mgrs"
    then record st { managers = split_csv v }
    else if k == "pools"
    then record st { pools = split_csv v }
    else st

-- the body of the loop over the fields
unfoldable pub read_field : CephStatus → String → CephStatus
unfolding cut split_csv atoi int32
read_field st field = elim (cut field "=") [ none ↦ st | some (k, v) ↦ set_field st k v ]

abbrev pub fresh_status : ℤ → CephStatus
fresh_status expected = record {
  initialized = false;
  monitors = [];
  managers = [];
  osds_ready = pos 0;
  osds_expected = expected;
  osd_summary = "";
  pools = [];
  health = "";
  health_detail = "";
}

-- the last two assignments
abbrev pub finish : CephStatus → String → CephStatus
finish st detail = record st {
  health_detail = if st.health == "HEALTH_OK" then st.health_detail else detail;
  osd_summary = show_ℤ st.osds_ready +++ "/" +++ show_ℤ st.osds_expected;
}

unfoldable pub parse_ceph_status : ProxmoxCluster → String → CephStatus
unfolding last_line split_detail read_field fields expected_osds show_ℤ
parse_ceph_status cluster out =
    let (line, detail) = split_detail (last_line out) in
    finish (foldl read_field (fresh_status (expected_osds cluster)) (fields line)) detail

-- `none` is the nil pointer
unfoldable pub ceph_usable : Option CephStatus → Bool
ceph_usable none = false
ceph_usable (some st) =
    if not st.initialized
    then false
    else if st.health == "HEALTH_ERR" || st.health == "UNREACHABLE" || st.health == "UNINITIALIZED"
    then false
    else ltb_ℤ (pos 0) st.osds_expected && leb_ℤ st.osds_expected st.osds_ready
