-- ===== src/Controller/Nodes/Prunes.antt =====
-- The calls of the loop that prunes ProxmoxNodes in `reconcileNodes` of
-- proxmoxcluster_controller.go.
use multiprox.Prelude.{◌≡◌, inl, inr, refl, String, List, [], ◌∷◌, if◌then◌else◌, Bool-cases}
use multiprox.Api.Node.{ProxmoxNode}
use multiprox.Errors.{ok}
use multiprox.Controller.Kube.{key_of, Call, delete_node, History, Run, Kube}
use multiprox.Controller.Pass.{pure, attempt, request, ◌>>=◌}
use multiprox.Controller.Nodes.{is_desired, prune_nodes}

-- the deletions of the listed nodes that are not desired, in the order of the list
abbrev pub deletions : List String → List ProxmoxNode → List Call
deletions desired [] = []
deletions desired (n ∷ ns) =
    let rest = deletions desired ns in
    if is_desired n.meta.name desired then rest else delete_node (key_of n.meta) ∷ rest

-- calls in their order, behind those made before
abbrev pub after_calls : List Call → History → History
after_calls [] h = h
after_calls (c ∷ cs) h = after_calls cs (c ∷ h)

-- Whatever the server answers to the deletions, the loop ends without an error and leaves the
-- cluster in memory as it is, and its calls are the deletions of the nodes that are not desired.
pub prune_nodes-deletions :
    (k : Kube) (desired : List String) (ns : List ProxmoxNode) (s : Run)
    → prune_nodes k desired ns s
      ≡ (ok tt, record s { history = after_calls (deletions desired ns) s.history })
unfolding prune_nodes ◌>>=◌ pure attempt request
prune_nodes-deletions k desired [] s = refl
prune_nodes-deletions k desired (n ∷ ns) s = elim (Bool-cases (is_desired n.meta.name desired)) [
  | inl kept ↦ rw (kept) (prune_nodes-deletions k desired ns s)
  | inr gone ↦ rw (gone) (
      prune_nodes-deletions k desired ns
        (record s { history = delete_node (key_of n.meta) ∷ s.history }))
]
