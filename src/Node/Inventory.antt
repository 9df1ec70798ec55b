-- ===== src/Node/Inventory.antt =====
-- `NodeInventory`, `ParseInventory` and `atoi32` of node.go.
pub mod Lines
pub mod Reads
pub mod RoundTrip
use mathlib.Core.List.{foldl}
use multiprox.Prelude.{
  String, ◌≡◌, refl, Bool, true, false, Option, none, some, List, [], ◌∷◌, ◌==◌, if◌then◌else◌,
}
use multiprox.Prelude.Int.{ℤ, pos, int32}
use multiprox.Text.Strings.{is_empty, has_prefix, cut, split, trim_space, fields}
use multiprox.Text.Decimal.{atoi}

pub record NodeInventory : Type 0 where
  pub name : String
  pub online : Bool
  pub node_id : ℤ
  pub monitor : Bool
  pub manager : Bool
  pub osds_up : ℤ
  pub osds_total : ℤ

-- Go's map, keyed by the node name: an assignment replaces the entry of its key
abbrev pub InventoryMap : Type 0
InventoryMap = List (String × NodeInventory)

unfoldable pub lookup : String → InventoryMap → Option NodeInventory
lookup k [] = none
lookup k ((j, n) ∷ m) = if j == k then some n else lookup k m

unfoldable pub insert : String → NodeInventory → InventoryMap → InventoryMap
insert k n [] = (k, n) ∷ []
insert k n ((j, o) ∷ m) = if j == k then (k, n) ∷ m else (j, o) ∷ insert k n m

unfoldable pub atoi32 : String → ℤ
unfolding atoi int32
atoi32 s = elim (atoi s) [ none ↦ pos 0 | some n ↦ int32 n ]

abbrev pub zero_inventory : NodeInventory
zero_inventory = record {
  name = "";
  online = false;
  node_id = pos 0;
  monitor = false;
  manager = false;
  osds_up = pos 0;
  osds_total = pos 0;
}

-- the `switch` on the key; other keys are ignored
abbrev pub set_fact : NodeInventory → String → String → NodeInventory
set_fact n k v =
    if k == "node"
    then record n { name = v }
    else if k == "online"
    then record n { online = v == "1" }
    else if k == "nodeid"
    then record n { node_id = atoi32 v }
    else if k == "mon"
    then record n { monitor = v == "1" }
    else if k == "mgr"
    then record n { manager = v == "1" }
    else if k == "osds_up"
    then record n { osds_up = atoi32 v }
    else if k == "osds_total"
    then record n { osds_total = atoi32 v }
    else n

-- the body of the loop over the fields of a line
unfoldable pub read_fact : NodeInventory → String → NodeInventory
unfolding cut atoi32
read_fact n field = elim (cut field "=") [ none ↦ n | some (k, v) ↦ set_fact n k v ]

unfoldable pub read_facts : List String → NodeInventory
unfolding read_fact
read_facts = foldl read_fact zero_inventory

-- the body of the loop over the lines: what is no line of the format is skipped
unfoldable pub read_line : InventoryMap → String → InventoryMap
unfolding has_prefix trim_space fields read_facts insert
read_line inv raw =
    let line = trim_space raw in
    let n = read_facts (fields line) in
    if has_prefix line "node=" then (if is_empty n.name then inv else insert n.name n inv) else inv

unfoldable pub parse_inventory : String → InventoryMap
unfolding read_line split
parse_inventory out = foldl read_line [] (split out b'\n')

parse_inventory_tests :
    (lookup "c-1" (
        parse_inventory
          "warning: x\n  node=c-1 online=1 nodeid=2 mon=1 mgr=0 osds_up=3 osds_total=4 new=5\nnode= x\n")
      ≡ some (record {
        name = "c-1";
        online = true;
        node_id = pos 2;
        monitor = true;
        manager = false;
        osds_up = pos 3;
        osds_total = pos 4;
      }))
    × (parse_inventory "warning: x\nnode= online=1" ≡ [])
unfolding parse_inventory lookup
parse_inventory_tests = (refl, refl)
