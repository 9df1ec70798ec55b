-- ===== src/Controller/Steps/Counts.antt =====
-- The join loop of `Reconcile` in proxmoxcluster_controller.go: which nodes it joins, and how many it
-- counts.
use multiprox.Prelude.{
  ◌≡◌, refl, ℕ, suc, ◌+◌, ◌-◌, ◌≤◌, ◌<◌, Option, none, some, List, [], ◌∷◌, arith, length,
  length-range_from,
}
use multiprox.Prelude.Int.{pos}
use multiprox.Api.Cluster.{ProxmoxCluster}
use multiprox.Errors.{Error}
use multiprox.Controller.Kube.{History, Run, Pass, Kube}
use multiprox.Controller.Pass.{pure}
use multiprox.Controller.Status.{exec_script}
use multiprox.Controller.Steps.{later_indices, next_join, join_nodes}
use multiprox.Controller.Steps.Ran.{Ran, Ends, Ends-bind, exec_script-Ran}

-- Joins of nodes in their order, from a count of nodes that are in the cluster: each node whose
-- script succeeds is counted, and the first one that fails ends it with the count before it.
pub data Joins (k : Kube) (c : ProxmoxCluster)
    : ℕ → List ℕ → ℕ × Option Error → History → History → Type 0 where
  finished : {joined : ℕ} {h : History} → Joins k c joined [] (joined, none) h h
  next :
      {joined i : ℕ} {is : List ℕ} {out : ℕ × Option Error} {h h' h'' : History}
      → Ran k c i "/scripts/cluster-join.sh" h none h'
      → Joins k c (suc joined) is out h' h''
      → Joins k c joined (i ∷ is) out h h''
  stopped :
      {joined i : ℕ} {is : List ℕ} {e : Error} {h h' : History}
      → Ran k c i "/scripts/cluster-join.sh" h (some e) h'
      → Joins k c joined (i ∷ is) (joined, some e) h h'

-- after a loop over so many nodes that began with this count
abbrev Counted : (joined rounds : ℕ) → ℕ × Option Error → Type 0
Counted joined rounds (count, none) = count ≡ joined + rounds
Counted joined rounds (count, some e) = (joined ≤ count) × (count < joined + rounds)

Counted-later :
    (joined rounds : ℕ) (out : ℕ × Option Error)
    → Counted (suc joined) rounds out
    → Counted joined (suc rounds) out
Counted-later joined rounds (count, none) h = omega arith
Counted-later joined rounds (count, some e) (p, q) = (omega arith, omega arith)

-- after the loop over all later nodes
abbrev pub JoinedOf : (nodes : ℕ) → ℕ × Option Error → Type 0
JoinedOf nodes (count, none) = count ≡ nodes
JoinedOf nodes (count, some e) = (1 ≤ count) × (count < nodes)

JoinedOf-Counted :
    (nodes : ℕ) (out : ℕ × Option Error)
    → 1 ≤ nodes
    → Counted 1 (length (later_indices (pos nodes))) out
    → JoinedOf nodes out
JoinedOf-Counted nodes (count, none) p h = omega (arith, length-range_from 1 (nodes - 1))
JoinedOf-Counted nodes (count, some e) p (h, j) =
    (h, omega (arith, length-range_from 1 (nodes - 1)))

module _ (k : Kube) where
  Counted-Joins :
      (c : ProxmoxCluster) (joined : ℕ) (is : List ℕ) (out : ℕ × Option Error) (h h' : History)
      → Joins k c joined is out h h'
      → Counted joined (length is) out
  Counted-Joins c joined is out h h' Joins.finished = omega arith
  Counted-Joins c joined is out h h' (Joins.next {i = i} {is = js} {h' = m} ran later) =
      Counted-later joined (length js) out (Counted-Joins c (suc joined) js out m h' later)
  Counted-Joins c joined is out h h' (Joins.stopped ran) = (omega arith, omega arith)

  Joins-next_join :
      (c : ProxmoxCluster) (joined i : ℕ) (is : List ℕ) (before : History)
      (rest : Pass (ℕ × Option Error))
      → ((h : History)
          → Ends rest
              (record { history = h; cluster = c })
              (λ out h'. Joins k c (suc joined) is out h h'))
      → (error : Option Error) (h : History) → Ran k c i "/scripts/cluster-join.sh" before error h
      → Ends
          (next_join k joined rest error)
          (record { history = h; cluster = c })
          (λ out h'. Joins k c joined (i ∷ is) out before h')
  unfolding pure
  Joins-next_join c joined i is before rest later none h ran =
      let (out, h', e, joins) = later h in (out, h', e, Joins.next ran joins)
  Joins-next_join c joined i is before rest later (some e) h ran =
      ((joined, some e), h, refl, Joins.stopped ran)

  join_nodes-Joins :
      (joined : ℕ) (is : List ℕ) (s : Run)
      → Ends (join_nodes k joined is) s (λ out h. Joins k s.cluster joined is out s.history h)
  unfolding join_nodes pure
  join_nodes-Joins joined [] s = ((joined, none), s.history, refl, Joins.finished)
  join_nodes-Joins joined (i ∷ is) s =
      Ends-bind (exec_script k i "/scripts/cluster-join.sh") _ s
        (exec_script-Ran k i "/scripts/cluster-join.sh" s)
        (λ reply h ran.
          Joins-next_join s.cluster joined i is s.history (join_nodes k (suc joined) is)
            (λ h'. join_nodes-Joins (suc joined) is (record s { history = h' })) reply.1 h ran)

  -- For a spec of at least one node, and whatever the server and the executor answer: the join loop
  -- ends with a result and leaves the cluster in memory as it is; it runs the join script on the
  -- later nodes in order, counts those whose run succeeds, and stops at the first whose pod cannot be
  -- read or does not run, or whose run does not succeed. It counts every node of the spec when it
  -- ends without an error, and at least node 0 but not every node when it stops.
  pub join_nodes-JoinedOf :
      (nodes : ℕ) (s : Run)
      → 1 ≤ nodes
      → Ends (join_nodes k 1 (later_indices (pos nodes))) s (λ out h.
        Joins k s.cluster 1 (later_indices (pos nodes)) out s.history h × JoinedOf nodes out)
  join_nodes-JoinedOf nodes s p =
      let (out, h, e, joins) = join_nodes-Joins 1 (later_indices (pos nodes)) s in
      (
        out,
        h,
        e,
        (
          joins,
          JoinedOf-Counted nodes out p
              (Counted-Joins s.cluster 1 (later_indices (pos nodes)) out s.history h joins),
        ),
      )
