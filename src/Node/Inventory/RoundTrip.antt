-- ===== src/Node/Inventory/RoundTrip.antt =====
-- The whole output of the inventory script, read by `ParseInventory` of node.go.
use mathlib.Core.List.{foldl}
use multiprox.Prelude.{
  String, ◌≡◌, refl, ap, ◌∙◌, false, List, [], ◌∷◌, ◌++◌, ◌==◌, All, Option, none, some,
  if◌then◌else◌, Bool-cases, inl, inr, arith, eq_iff,
}
use multiprox.Text.Strings.{trim_space, has_prefix, unlines}
use multiprox.Text.Strings.Lacks.{Lacks, is_char}
use multiprox.Text.Strings.Splits.{split-unlines}
use multiprox.Text.Strings.Words.{join-no_newline}
use multiprox.Node.Inventory.{
  NodeInventory, InventoryMap, read_line, parse_inventory, insert, lookup,
}
use multiprox.Node.Inventory.Lines.{inventory_line, node_facts, IsPrintable}
use multiprox.Node.Inventory.Reads.{read_line-inventory_line, node_facts-IsWord}

-- the lines of an output, with the nodes that it reports: other lines may stand between them
pub data Reports : List String → List NodeInventory → Type 0 where
  done : Reports [] []
  node :
      {ls : List String} {ns : List NodeInventory} (n : NodeInventory)
      → IsPrintable n
      → Reports ls ns
      → Reports (inventory_line n ∷ ls) (n ∷ ns)
  other :
      {ls : List String} {ns : List NodeInventory} (l : String)
      → Lacks (is_char b'\n') l
      → has_prefix (trim_space l) "node=" ≡ false
      → Reports ls ns
      → Reports (l ∷ ls) ns

module _ (name : String) where
  -- the node that is reported last under a name
  abbrev pub last_named : List NodeInventory → Option NodeInventory → Option NodeInventory
  last_named [] found = found
  last_named (n ∷ ns) found = last_named ns (if n.name == name then some n else found)

  lookup-insert :
      (k : String) (n : NodeInventory) (inv : InventoryMap)
      → lookup name (insert k n inv) ≡ (if k == name then some n else lookup name inv)
  unfolding lookup insert
  lookup-insert k n [] = refl
  lookup-insert k n ((j, o) ∷ inv) = elim (Bool-cases (j == k)) [
    | inl same ↦ ground (arith, eq_iff j name, eq_iff k name, eq_iff j k)
    | inr apart ↦ ground (arith, lookup-insert k n inv, eq_iff j name, eq_iff k name, eq_iff j k)
  ]

  ignored :
      (inv : InventoryMap) (l : String)
      → has_prefix (trim_space l) "node=" ≡ false
      → read_line inv l ≡ inv
  unfolding read_line
  ignored inv l h = rw (read_line, h) refl

  lookup-lines :
      (ls : List String) (ns : List NodeInventory) (inv : InventoryMap)
      → Reports ls ns
      → lookup name (foldl read_line inv (ls ++ "" ∷ [])) ≡ last_named ns (lookup name inv)
  unfolding lookup read_line
  lookup-lines ls ns inv Reports.done = refl
  lookup-lines ls ns inv (Reports.node {ls = later} {ns = rest} n p h) =
      ap (λ u. lookup name (foldl read_line u (later ++ "" ∷ [])))
        (read_line-inventory_line inv n p)
      ∙ lookup-lines later rest (insert n.name n inv) h
      ∙ ap (last_named rest) (lookup-insert n.name n inv)
  lookup-lines ls ns inv (Reports.other {ls = later} l p q h) =
      ap (λ u. lookup name (foldl read_line u (later ++ "" ∷ []))) (ignored inv l q)
      ∙ lookup-lines later ns inv h

Reports-no_newline :
    (ls : List String) (ns : List NodeInventory) → Reports ls ns → All (Lacks (is_char b'\n')) ls
Reports-no_newline ls ns Reports.done = tt
Reports-no_newline ls ns (Reports.node {ns = rest} n p h) = (
  unfold inventory_line in join-no_newline (node_facts n) (node_facts-IsWord n p),
  Reports-no_newline _ _ h,
)
Reports-no_newline ls ns (Reports.other l p q h) = (p, Reports-no_newline _ _ h)

-- Of an output whose lines report nodes, with other lines between them, the parsed map holds under
-- each name the node that is reported last with it, fact for fact, and nothing under another name.
pub parse_inventory-Reports :
    (ls : List String) (ns : List NodeInventory) (name : String)
    → Reports ls ns
    → lookup name (parse_inventory (unlines ls)) ≡ last_named name ns none
unfolding parse_inventory lookup
parse_inventory-Reports ls ns name h =
    rw (parse_inventory, split-unlines ls (Reports-no_newline ls ns h))
      (lookup-lines name ls ns [] h)
