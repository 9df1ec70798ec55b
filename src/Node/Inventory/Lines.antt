-- ===== src/Node/Inventory/Lines.antt =====
-- The lines that the inventory script of configmap.go prints.
use multiprox.Prelude.{String, Bool, true, false, List, [], ◌∷◌}
use multiprox.Prelude.Int.{IsInt32}
use multiprox.Text.Facts.{fact}
use multiprox.Text.Strings.{join}
use multiprox.Text.Strings.Lacks.{IsWord}
use multiprox.Text.Decimal.{show_ℤ}
use multiprox.Node.Inventory.{NodeInventory}

-- `${ONLINE[$name]:-0}` of a flag that is 1 or not set
abbrev pub flag : Bool → String
flag b = elim b [ true ↦ "1" | false ↦ "0" ]

-- the facts, as the texts that `printf` puts in place of `%s`
abbrev pub facts : String → String → String → String → String → String → String → List String
facts name online id mon mgr up total =
    fact "node" name
    ∷ fact "online" online
    ∷ fact "nodeid" id
    ∷ fact "mon" mon
    ∷ fact "mgr" mgr
    ∷ fact "osds_up" up
    ∷ fact "osds_total" total
    ∷ []

abbrev pub node_facts : NodeInventory → List String
node_facts n =
    facts n.name (flag n.online) (show_ℤ n.node_id) (flag n.monitor) (flag n.manager)
      (show_ℤ n.osds_up) (show_ℤ n.osds_total)

-- the `printf` of the script, without its newline
unfoldable pub inventory_line : NodeInventory → String
unfolding join show_ℤ
inventory_line n = join (node_facts n) " "

-- a name that is one word, and numbers that an `int32` holds
abbrev pub IsPrintable : NodeInventory → Type 0
IsPrintable n = IsWord n.name × IsInt32 n.node_id × IsInt32 n.osds_up × IsInt32 n.osds_total
