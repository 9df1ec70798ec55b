-- ===== src/Node/Inventory/Reads.antt =====
-- `ParseInventory` on the lines that the inventory script prints.
use text.Mathlib.TextLemmas.{append_assoc}
use multiprox.Prelude.{String, ◌≡◌, refl, sym, ap, ◌∙◌, Bool, true, false, ◌==◌, All}
use multiprox.Prelude.Int.{ℤ, IsInt32, int32_of_IsInt32}
use multiprox.Text.Facts.{fact, fact-IsWord, cut-fact}
use multiprox.Text.Strings.{◌+++◌, join, has_prefix}
use multiprox.Text.Strings.Lacks.{lacks, IsWord, is_char}
use multiprox.Text.Strings.Words.{fields-join, trim_space-join, has_prefix-append}
use multiprox.Text.Decimal.{show_ℤ}
use multiprox.Text.Decimal.Words.{show_ℤ-IsWord, atoi-show_ℤ}
use multiprox.Node.Inventory.{
  NodeInventory, InventoryMap, read_line, read_facts, read_fact, atoi32, insert, set_fact,
}
use multiprox.Node.Inventory.Lines.{inventory_line, node_facts, flag, IsPrintable}

flag-IsWord : (b : Bool) → IsWord (flag b)
flag-IsWord true = (refl, (refl, tt))
flag-IsWord false = (refl, (refl, tt))

pub node_facts-IsWord : (n : NodeInventory) → IsPrintable n → All IsWord (node_facts n)
node_facts-IsWord n (name, id, up, total) = (
  fact-IsWord "node" _ refl name.1,
  (
    fact-IsWord "online" _ refl (flag-IsWord n.online).1,
    (
      fact-IsWord "nodeid" _ refl (show_ℤ-IsWord n.node_id).1,
      (
        fact-IsWord "mon" _ refl (flag-IsWord n.monitor).1,
        (
          fact-IsWord "mgr" _ refl (flag-IsWord n.manager).1,
          (
            fact-IsWord "osds_up" _ refl (show_ℤ-IsWord n.osds_up).1,
            (fact-IsWord "osds_total" _ refl (show_ℤ-IsWord n.osds_total).1, tt),
          ),
        ),
      ),
    ),
  ),
)

flag-eq : (b : Bool) → (flag b == "1") ≡ b
flag-eq true = refl
flag-eq false = refl

atoi32-show_ℤ : (a : ℤ) → IsInt32 a → atoi32 (show_ℤ a) ≡ a
unfolding atoi32
atoi32-show_ℤ a h = rw (atoi32, atoi-show_ℤ a h) (int32_of_IsInt32 a h)

read_fact-fact :
    (n : NodeInventory) (k v : String)
    → lacks (is_char b'=') k ≡ true
    → read_fact n (fact k v) ≡ set_fact n k v
unfolding read_fact
read_fact-fact n k v h = rw (read_fact, cut-fact k v h) refl

read_facts-node : (n : NodeInventory) → IsPrintable n → read_facts (node_facts n) ≡ n
unfolding read_facts
read_facts-node n (name, id, up, total) =
    rw
      (
        read_fact-fact _ "node" _ refl,
        read_fact-fact _ "online" _ refl,
        read_fact-fact _ "nodeid" _ refl,
        read_fact-fact _ "mon" _ refl,
        read_fact-fact _ "mgr" _ refl,
        read_fact-fact _ "osds_up" _ refl,
        read_fact-fact _ "osds_total" _ refl,
        flag-eq n.online,
        atoi32-show_ℤ _ id,
        atoi32-show_ℤ _ up,
        atoi32-show_ℤ _ total,
      )
      (rw (flag-eq n.monitor, flag-eq n.manager) refl)

has_prefix-fact : (v rest : String) → has_prefix (fact "node" v +++ rest) "node=" ≡ true
has_prefix-fact v rest =
    let spelled : fact "node" v +++ rest ≡ "node=" +++ (v +++ rest) =
      append_assoc "node" ("=" +++ v) rest
      ∙ ap (λ u. "node" +++ u) (append_assoc "=" v rest)
      ∙ sym (append_assoc "node" "=" (v +++ rest)) in
    ap (λ u. has_prefix u "node=") spelled ∙ has_prefix-append "node=" (v +++ rest)

pub read_line-inventory_line :
    (inv : InventoryMap) (n : NodeInventory)
    → IsPrintable n
    → read_line inv (inventory_line n) ≡ insert n.name n inv
unfolding read_line inventory_line join
read_line-inventory_line inv n h =
    let words = node_facts-IsWord n h in
    rw
      (
        read_line,
        trim_space-join (node_facts n) words,
        fields-join (node_facts n) words,
        read_facts-node n h,
        has_prefix-fact,
        h.0.0,
      )
      refl
