-- ===== src/Controller/Nodes/Stable.antt =====
-- What `reconcileNodes` of proxmoxcluster_controller.go keeps.
use multiprox.Prelude.{ℕ, String, ◌≡◌, Bool, false, List, [], ◌∷◌}
use multiprox.Api.Meta.{Time}
use multiprox.Api.Cluster.{ProxmoxCluster}
use multiprox.Api.Node.{ProxmoxNodeStatus, ProxmoxNode}
use multiprox.Api.Pod.{Pod}
use multiprox.Node.Inventory.{InventoryMap}
use multiprox.Errors.{Result, ok, err, is_not_found}
use multiprox.Controller.Kube.{Key, Call, delete_node, Kube}
use multiprox.Controller.Pass.{current_time}
use multiprox.Controller.Pass.Keeps.{
  view, Assertion, Stable, Stable-request, Stable-attempt, Stable-lift, Keeps-with_context,
  Keeps-if, Keeps-bind_cluster,
}
use multiprox.Controller.Status.Stable.{
  IsPlain, MayExec, Stable-pure, Stable-raise, Stable-bind, Stable-exec_script,
}
use multiprox.Controller.Nodes.{
  is_desired, desired_names, put_node_status, create_with_status, labels_differ, patch_metadata,
  put_merged, apply_node, upsert_node, project_node, project_nodes, prune_nodes, reconcile_nodes,
}

-- Where the assertion holds, these nodes may be deleted.
abbrev pub MayPrune : (Call → Type 0) → Assertion → Type 0
MayPrune P J =
    (cluster : ProxmoxCluster) (key : Key)
    → J (view cluster)
    → is_desired key.name (desired_names cluster) ≡ false
    → P (delete_node key)

module _ (k : Kube) {P : Call → Type 0} {J : Assertion} (plain : (c : Call) → IsPlain c → P c) where
  Stable-current_time : Stable P J (current_time k)
  unfolding current_time
  Stable-current_time = record { holds = λ s h j. (h, j) }

  Stable-put_node_status : (node : ProxmoxNode) → Stable P J (put_node_status k node)
  unfolding put_node_status
  Stable-put_node_status node = Stable-bind (Stable-request _ _ (plain _ tt)) (λ _. Stable-pure tt)

  Stable-create_with_status : (node : ProxmoxNode) → Stable P J (create_with_status k node)
  unfolding create_with_status
  Stable-create_with_status node =
      Stable-bind (Keeps-with_context "create" (Stable-request _ _ (plain _ tt)))
        (λ stored. Stable-put_node_status _)

  Stable-patch_metadata :
      (existing desired : ProxmoxNode) → Stable P J (patch_metadata k existing desired)
  unfolding patch_metadata
  Stable-patch_metadata existing desired =
      Keeps-if (labels_differ k existing desired)
        (λ _. Keeps-with_context "patch metadata" (Stable-request _ _ (plain _ tt)))
        (λ _. Stable-pure existing)

  Stable-put_merged :
      (existing : ProxmoxNode) (out : ProxmoxNodeStatus × Bool)
      → Stable P J (put_merged k existing out)
  Stable-put_merged existing (merged, changed) =
      Keeps-if changed (λ _. Stable-put_node_status _) (λ _. Stable-pure tt)

  Stable-apply_node :
      (desired : ProxmoxNode) (found : Result ProxmoxNode) → Stable P J (apply_node k desired found)
  Stable-apply_node desired (ok existing) =
      Stable-bind (Stable-patch_metadata existing desired) (λ patched. Stable-put_merged patched _)
  Stable-apply_node desired (err e) =
      Keeps-if (is_not_found e) (λ _. Stable-create_with_status desired)
        (λ _. Keeps-with_context "get" (Stable-raise e))

  Stable-upsert_node : (desired : ProxmoxNode) → Stable P J (upsert_node k desired)
  unfolding upsert_node
  Stable-upsert_node desired =
      Stable-bind (Stable-attempt (Stable-request _ _ (plain _ tt))) (Stable-apply_node desired)

  module _ (cluster : ProxmoxCluster) (now : Time) (inventory : InventoryMap)
      (pods : List Pod) where
    Stable-project_node :
        (ordinal : ℕ) → Stable P J (project_node k cluster now inventory pods ordinal)
    unfolding project_node
    Stable-project_node ordinal =
        Stable-bind (Keeps-with_context _ (Stable-lift _))
          (λ meta. Stable-bind (Stable-attempt (Stable-upsert_node _)) (λ _. Stable-pure tt))

    pub Stable-project_nodes :
        (ordinals : List ℕ) → Stable P J (project_nodes k cluster now inventory pods ordinals)
    unfolding project_nodes
    Stable-project_nodes [] = Stable-pure tt
    Stable-project_nodes (i ∷ is) =
        Stable-bind (Stable-project_node i) (λ _. Stable-project_nodes is)

  module _ (desired : List String)
      (may : (key : Key) → is_desired key.name desired ≡ false → P (delete_node key)) where
    pub Stable-prune_nodes : (nodes : List ProxmoxNode) → Stable P J (prune_nodes k desired nodes)
    unfolding prune_nodes
    Stable-prune_nodes [] = Stable-pure tt
    Stable-prune_nodes (n ∷ ns) =
        Stable-bind
          (Keeps-if (is_desired n.meta.name desired) (λ _. Stable-pure _)
            (λ p. Stable-attempt (Stable-request _ _ (may _ p))))
          (λ _. Stable-prune_nodes ns)

  pub Stable-reconcile_nodes :
      MayExec P "/scripts/cluster-inventory.sh" → MayPrune P J → Stable P J (reconcile_nodes k)
  unfolding reconcile_nodes
  Stable-reconcile_nodes may prune = Keeps-bind_cluster (λ cluster j.
      Stable-bind Stable-current_time (λ now.
        Stable-bind (Stable-exec_script k 0 _ (λ key. plain _ tt) may) (λ reply.
          Stable-bind (Keeps-with_context _ (Stable-request _ _ (plain _ tt))) (λ pods.
            Stable-bind (Stable-project_nodes cluster now _ pods _) (λ _.
              Stable-bind (Keeps-with_context _ (Stable-request _ _ (plain _ tt))) (λ existing.
                Stable-prune_nodes (desired_names cluster) (λ key. prune cluster key j)
                  existing))))))
