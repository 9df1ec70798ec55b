-- ===== src/Node/Merge.antt =====
-- `MergeNodeStatus` of node.go. `equality.Semantic.DeepEqual` is a parameter: it is a test for
-- equality, and has its law where it is used.
pub mod Times
pub mod Rearranged
pub mod Writes
use Prim.Native.Nat.{Ordering}
use Prim.Native.String.{compare}
use multiprox.Prelude.{
  String, Bool, true, false, not, ◌&&◌, Option, none, some, List, [], ◌∷◌, map, ◌==◌, if◌then◌else◌,
}
use multiprox.Api.Meta.{
  ConditionStatus, true_status, false_status, unknown_status, Condition, zero_time,
}
use multiprox.Api.Node.{ProxmoxNodeStatus}

abbrev pub status_eq : ConditionStatus → ConditionStatus → Bool
status_eq true_status true_status = true
status_eq false_status false_status = true
status_eq unknown_status unknown_status = true
status_eq _ _ = false

abbrev pub or_else {ℓ} : {A : Type ℓ} → Option A → Option A → Option A
or_else none o = o
or_else (some a) o = some a

-- `prev[type]`: the map holds the last condition of each type
unfoldable pub last_of_type : String → List Condition → Option Condition
last_of_type type [] = none
last_of_type type (c ∷ cs) =
    or_else (last_of_type type cs) (if c.type == type then some c else none)

abbrev pub carry_from : Option Condition → Condition → Condition
carry_from none c = c
carry_from (some old) c =
    if status_eq old.status c.status
    then record c { last_transition_time = old.last_transition_time }
    else c

-- the body of the second loop: the time of a condition that has not flipped is kept
unfoldable pub carry_time : List Condition → Condition → Condition
unfolding last_of_type
carry_time existing c = carry_from (last_of_type c.type existing) c

abbrev pub strip_time : Condition → Condition
strip_time c = record c { last_transition_time = zero_time }

unfoldable pub strip_condition_times : List Condition → List Condition
strip_condition_times = map strip_time

abbrev pub text_lt : String → String → Bool
text_lt s t = elim (compare s t) [ Ordering.lt ↦ true | _ ↦ false ]

-- `sort.Slice` by type, as an insertion sort: types are unique in a status
unfoldable pub insert_condition : Condition → List Condition → List Condition
insert_condition c [] = c ∷ []
insert_condition c (d ∷ ds) =
    if text_lt d.type c.type then d ∷ insert_condition c ds else c ∷ d ∷ ds

unfoldable pub sort_conditions : List Condition → List Condition
unfolding insert_condition
sort_conditions [] = []
sort_conditions (c ∷ cs) = insert_condition c (sort_conditions cs)

-- a status without its times, its conditions in order
unfoldable pub untimed : ProxmoxNodeStatus → ProxmoxNodeStatus
unfolding strip_condition_times sort_conditions
untimed s = record s {
  observed_at = none;
  conditions = sort_conditions (strip_condition_times s.conditions);
}

module _ (deep_equal : ProxmoxNodeStatus → ProxmoxNodeStatus → Bool) where
  unfoldable pub node_status_equivalent : ProxmoxNodeStatus → ProxmoxNodeStatus → Bool
  unfolding untimed
  node_status_equivalent a b = deep_equal (untimed a) (untimed b)

  unfoldable pub merge_node_status :
      ProxmoxNodeStatus → ProxmoxNodeStatus → ProxmoxNodeStatus × Bool
  unfolding carry_time node_status_equivalent
  merge_node_status existing desired =
      let merged = record desired {
        conditions = map (carry_time existing.conditions) desired.conditions;
      } in
      let changed = not (node_status_equivalent existing merged) in
      (if changed then merged else record merged { observed_at = existing.observed_at }, changed)
