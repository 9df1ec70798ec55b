-- ===== src/Controller/Nodes.antt =====
-- `reconcileNodes` and `upsertNode` of proxmoxcluster_controller.go: one ProxmoxNode for each node.
pub mod Stable
pub mod Prunes
pub mod Writes
use multiprox.Prelude.{
  ℕ, String, Bool, true, false, ◌&&◌, ◌||◌, not, Option, none, some, List, [], ◌∷◌, map, ◌==◌,
  if◌then◌else◌,
}
use multiprox.Prelude.Int.{indices}
use multiprox.Api.Meta.{Time, StringMap}
use multiprox.Api.Cluster.{ProxmoxCluster}
use multiprox.Api.Node.{ProxmoxNodeStatus, ProxmoxNode}
use multiprox.Api.Pod.{Pod}
use multiprox.Text.Strings.{◌+++◌}
use multiprox.Workload.Names.{node_object_name}
use multiprox.Node.Inventory.{InventoryMap, lookup, parse_inventory}
use multiprox.Node.Projection.{proxmox_node_for}
use multiprox.Node.Merge.{merge_node_status}
use multiprox.Errors.{Error, Result, ok, err, is_not_found}
use multiprox.Controller.Kube.{
  Key, key_of, Call, get_node, list_pods, list_nodes, create_node, patch_node, update_node_status,
  delete_node, Pass, Kube,
}
use multiprox.Controller.Pass.{
  pure, raise, lift, attempt, with_context, request, current_time, the_cluster, ◌>>=◌, ◌>>◌,
}
use multiprox.Controller.Status.{exec_script}

-- `podsByName[name]`: of two pods with a name the later one counts
unfoldable pub find_pod : String → List Pod → Option Pod
find_pod name [] = none
find_pod name (p ∷ ps) = elim (find_pod name ps) [
  | none ↦ if p.name == name then some p else none
  | some q ↦ some q
]

unfoldable pub is_desired : String → List String → Bool
is_desired name [] = false
is_desired name (d ∷ ds) = d == name || is_desired name ds

-- the keys of `desired`
abbrev pub desired_names : ProxmoxCluster → List String
desired_names cluster = map (node_object_name cluster) (indices cluster.spec.nodes)

abbrev pub inventory_of : String × Option Error → InventoryMap
inventory_of (out, none) = parse_inventory out
inventory_of (out, some _) = []

abbrev instance_labels : ProxmoxCluster → StringMap
instance_labels cluster =
    ("app.kubernetes.io/name", "proxmox-cluster")
    ∷ ("app.kubernetes.io/instance", cluster.meta.name)
    ∷ []

abbrev cluster_label : ProxmoxCluster → StringMap
cluster_label cluster = ("multiprox.io/cluster", cluster.meta.name) ∷ []

module _ (k : Kube) where
  unfoldable pub put_node_status : ProxmoxNode → Pass (Unit {0})
  put_node_status node = do
    _ ← request (update_node_status node) (λ h. k.server.on_write_node h node)
    pure tt

  -- `Create` drops the status, so it is written after it, on the object as stored
  unfoldable pub create_with_status : ProxmoxNode → Pass (Unit {0})
  create_with_status desired = do
    stored ←
        with_context "create"
          (request (create_node desired) (λ h. k.server.on_write_node h desired))
    put_node_status (record stored { status = desired.status })

  abbrev pub relabelled : ProxmoxNode → ProxmoxNode → ProxmoxNode
  relabelled existing desired = record existing {
    meta = record existing.meta {
      labels = desired.meta.labels;
      annotations = desired.meta.annotations;
    };
  }

  abbrev pub labels_differ : ProxmoxNode → ProxmoxNode → Bool
  labels_differ existing desired =
      not (k.deep_equal_map existing.meta.labels desired.meta.labels)
      || not (k.deep_equal_map existing.meta.annotations desired.meta.annotations)

  -- the patch answers with the object as stored, and the merge below reads that
  unfoldable pub patch_metadata : ProxmoxNode → ProxmoxNode → Pass ProxmoxNode
  patch_metadata existing desired =
      let patched = relabelled existing desired in
      if labels_differ existing desired
      then with_context "patch metadata"
          (request (patch_node patched) (λ h. k.server.on_write_node h patched))
      else pure existing

  -- no write when the merge has changed nothing
  abbrev pub put_merged : ProxmoxNode → ProxmoxNodeStatus × Bool → Pass (Unit {0})
  put_merged existing (merged, changed) =
      if changed then put_node_status (record existing { status = merged }) else pure tt

  abbrev pub apply_node : ProxmoxNode → Result ProxmoxNode → Pass (Unit {0})
  apply_node desired (err e) =
      if is_not_found e then create_with_status desired else with_context "get" (raise e)
  apply_node desired (ok existing) = do
    patched ← patch_metadata existing desired
    put_merged patched (merge_node_status k.deep_equal_status patched.status desired.status)

  unfoldable pub upsert_node : ProxmoxNode → Pass (Unit {0})
  upsert_node desired = do
    let key = key_of desired.meta
    found ← attempt (request (get_node key) (λ h. k.server.on_get_node h key))
    apply_node desired found

  -- the body of the loop over the ordinals: an error of `upsertNode` is only logged
  unfoldable pub project_node :
      ProxmoxCluster → Time → InventoryMap → List Pod → ℕ → Pass (Unit {0})
  project_node cluster now inventory pods ordinal = do
    let name = node_object_name cluster ordinal
    let node = proxmox_node_for cluster ordinal (find_pod name pods) (lookup name inventory) now
    meta ←
        with_context ("set owner on ProxmoxNode " +++ name)
          (lift (k.set_controller_reference cluster node.meta))
    _ ← attempt (upsert_node (record node { meta = meta }))
    pure tt

  unfoldable pub project_nodes :
      ProxmoxCluster → Time → InventoryMap → List Pod → List ℕ → Pass (Unit {0})
  project_nodes cluster now inventory pods [] = pure tt
  project_nodes cluster now inventory pods (i ∷ is) = do
    project_node cluster now inventory pods i
    project_nodes cluster now inventory pods is

  -- the loop that prunes: an error is only logged
  unfoldable pub prune_nodes : List String → List ProxmoxNode → Pass (Unit {0})
  prune_nodes desired [] = pure tt
  prune_nodes desired (n ∷ ns) = do
    let key = key_of n.meta
    _ ←
        if is_desired n.meta.name desired
        then pure (ok tt)
        else attempt (request (delete_node key) (λ h. k.server.on_delete_node h key))
    prune_nodes desired ns

  unfoldable pub reconcile_nodes : Pass (Unit {0})
  reconcile_nodes = do
    cluster ← the_cluster
    now ← current_time k
    reply ← exec_script k 0 "/scripts/cluster-inventory.sh"
    let namespace = cluster.meta.namespace
    let selector = instance_labels cluster
    pods ←
        with_context "list pods"
          (request (list_pods namespace selector) (λ h. k.server.on_list_pods h namespace selector))
    project_nodes cluster now (inventory_of reply) pods (indices cluster.spec.nodes)
    let owner = cluster_label cluster
    existing ←
        with_context "list ProxmoxNodes"
          (request (list_nodes namespace owner) (λ h. k.server.on_list_nodes h namespace owner))
    prune_nodes (desired_names cluster) existing
