-- ===== src/Ceph/Status/Line.antt =====
-- The line that the status script of configmap.go prints.
use multiprox.Prelude.{String, List, [], ◌∷◌, All}
use multiprox.Prelude.Int.{ℤ, IsInt32}
use multiprox.Text.Facts.{fact}
use multiprox.Text.Strings.{◌+++◌, join, is_space}
use multiprox.Text.Strings.Lacks.{Lacks, IsWord, is_char}
use multiprox.Text.Strings.Trims.{IsTrimmed}
use multiprox.Text.Decimal.{show_ℤ}

-- what the variables of the script hold at its end
pub record CephReport : Type 0 where
  pub health : String
  pub osds_up : ℤ
  pub osds_in : ℤ
  pub mons : List String
  pub mgrs : List String
  pub pools : List String
  pub detail : String

-- the fields in front of `detail=`: the first, and those behind it
abbrev pub health_fact : CephReport → String
health_fact r = fact "health" r.health

abbrev pub later_facts : CephReport → List String
later_facts r =
    fact "osds_up" (show_ℤ r.osds_up)
    ∷ fact "osds_in" (show_ℤ r.osds_in)
    ∷ fact "mons" (join r.mons ",")
    ∷ fact "mgrs" (join r.mgrs ",")
    ∷ fact "pools" (join r.pools ",")
    ∷ []

abbrev pub report_facts : CephReport → List String
report_facts r = health_fact r ∷ later_facts r

-- each with the space behind it
abbrev pub spaced : List String → String
spaced [] = ""
spaced (w ∷ ws) = (w +++ " ") +++ spaced ws

-- the `echo` of the script, without its newline
unfoldable pub status_line : CephReport → String
unfolding join show_ℤ
status_line r = spaced (report_facts r) +++ "detail=" +++ r.detail

-- a value of the line: without white space, and without the sign behind a key
abbrev pub IsValue : String → Type 0
IsValue v = Lacks is_space v × Lacks (is_char b'=') v

-- a name in a list of the line
abbrev pub IsName : String → Type 0
IsName v = IsWord v × Lacks (is_char b'=') v × Lacks (is_char b',') v

-- what a line can hold: the detail is one trimmed line
abbrev pub IsPrintable : CephReport → Type 0
IsPrintable r =
    IsValue r.health
    × IsInt32 r.osds_up
    × All IsName r.mons
    × All IsName r.mgrs
    × All IsName r.pools
    × IsTrimmed r.detail
    × Lacks (is_char b'\n') r.detail
