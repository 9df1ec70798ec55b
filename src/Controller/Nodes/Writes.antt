-- ===== src/Controller/Nodes/Writes.antt =====
-- When `upsertNode` of proxmoxcluster_controller.go writes.
use multiprox.Prelude.{
  ◌≡◌, ◌↔◌, inl, inr, refl, ap, ◌∙◌, sym, Bool, true, false, ◌∷◌, arith, Bool-cases, ◌≤◌, ◌+◌,
  length,
}
use multiprox.Api.Meta.{StringMap}
use multiprox.Api.Node.{ProxmoxNode, ProxmoxNodeStatus}
use multiprox.Node.Merge.{merge_node_status}
use multiprox.Node.Merge.Rearranged.{SaysTheSame}
use multiprox.Node.Merge.Writes.{SameFacts, merge_node_status-SaysTheSame}
use multiprox.Errors.{Result, ok, err}
use multiprox.Controller.Kube.{key_of, get_node, patch_node, update_node_status, Run, Kube}
use multiprox.Controller.Pass.{pure, attempt, request, with_context, ◌>>=◌, continue, wrap_result}
use multiprox.Controller.Nodes.{
  labels_differ, patch_metadata, put_merged, apply_node, upsert_node, put_node_status, relabelled,
}

-- the stored object has the labels and annotations of the desired one, and its status so far
pub record IsUpToDate (Same : ProxmoxNodeStatus → ProxmoxNodeStatus → Type 0)
    (existing desired : ProxmoxNode) : Type 0 where
  pub labels : existing.meta.labels ≡ desired.meta.labels
  pub annotations : existing.meta.annotations ≡ desired.meta.annotations
  pub status : Same existing.status desired.status

module _ (k : Kube) where
  stored :
      (node : ProxmoxNode) (s : Run) (answer : Result ProxmoxNode)
      → (continue answer
          (λ _. pure tt)
          (record s { history = update_node_status node ∷ s.history })).1.history
        ≡ update_node_status node ∷ s.history
  unfolding pure
  stored node s (ok _) = refl
  stored node s (err e) = refl

  put_node_status-history :
      (node : ProxmoxNode) (s : Run)
      → (put_node_status k node s).1.history ≡ update_node_status node ∷ s.history
  unfolding put_node_status ◌>>=◌ request
  put_node_status-history node s = stored node s (k.server.on_write_node s.history node)

  put_merged-grows :
      (existing : ProxmoxNode) (merged : ProxmoxNodeStatus × Bool) (s : Run)
      → length s.history ≤ length (put_merged k existing merged s).1.history
  unfolding pure
  put_merged-grows existing (status, false) s = omega arith
  put_merged-grows existing (status, true) s =
      omega (arith, ap length (put_node_status-history (record existing { status = status }) s))

  merge_patched-grows :
      (desired : ProxmoxNode) (patched : Result ProxmoxNode) (s : Run)
      → length s.history
        ≤ length
            (continue patched
              (λ p. put_merged k p (merge_node_status k.deep_equal_status p.status desired.status))
              s).1.history
  merge_patched-grows desired (ok p) s = put_merged-grows p _ s
  merge_patched-grows desired (err e) s = omega arith

module _ (k : Kube) (map_iff : (m n : StringMap) → (k.deep_equal_map m n ≡ true) ↔ (m ≡ n))
    (status_iff : (m n : ProxmoxNodeStatus) → (k.deep_equal_status m n ≡ true) ↔ (m ≡ n))
    (existing desired : ProxmoxNode) (s : Run)
    (found : k.server.on_get_node s.history (key_of desired.meta) ≡ ok existing) where
  upsert_node-found :
      upsert_node k desired s
      ≡ apply_node k desired
          (ok existing)
          (record s { history = get_node (key_of desired.meta) ∷ s.history })
  unfolding upsert_node ◌>>=◌ attempt request patch_metadata
  upsert_node-found = rw (found) refl

  settled :
      IsUpToDate SameFacts existing desired
      → (upsert_node k desired s).1.history ≡ get_node (key_of desired.meta) ∷ s.history
  unfolding ◌>>=◌ pure patch_metadata
  settled u =
      let labels = (map_iff existing.meta.labels desired.meta.labels).1 u.labels in
      let annotations =
        (map_iff existing.meta.annotations desired.meta.annotations).1 u.annotations in
      ap (λ out. out.1.history) upsert_node-found
      ∙ rw
          (
            labels,
            annotations,
            (merge_node_status-SaysTheSame k.deep_equal_status status_iff existing.status
                  desired.status).1
                u.status,
          )
          refl

  module _
      (quiet : (upsert_node k desired s).1.history
        ≡ get_node (key_of desired.meta) ∷ s.history) where
    short :
        length
          (apply_node k desired
            (ok existing)
            (record s { history = get_node (key_of desired.meta) ∷ s.history })).1.history
        ≡ length s.history + 1
    short = ap (λ out. length out.1.history) (sym upsert_node-found) ∙ ap length quiet ∙ omega arith

    same_metadata : labels_differ k existing desired ≡ false
    unfolding ◌>>=◌ pure patch_metadata put_node_status with_context request
    same_metadata = elim (Bool-cases (labels_differ k existing desired)) [
      | inl differ ↦ absurd (
          let h = get_node (key_of desired.meta) ∷ s.history in
          let patched = relabelled k existing desired in
          let grown =
            merge_patched-grows k desired
              (wrap_result "patch metadata" (k.server.on_write_node h patched))
              (record s { history = patch_node patched ∷ h }) in
          let longer = rw (differ) at short in omega (arith, grown, longer))
      | inr same ↦ same
    ]

    same_status : SaysTheSame existing.status desired.status
    unfolding ◌>>=◌ pure patch_metadata put_node_status request
    same_status =
        elim (Bool-cases (merge_node_status k.deep_equal_status existing.status desired.status).1) [
          | inl changed ↦ absurd (
              let longer = rw (same_metadata, changed) at short in
              omega (
                arith,
                longer,
                ap length (
                    put_node_status-history k
                      (record existing {
                        status =
                            (merge_node_status k.deep_equal_status existing.status
                              desired.status).0;
                      })
                      (record s { history = get_node (key_of desired.meta) ∷ s.history })),
              ))
          | inr kept ↦
              (merge_node_status-SaysTheSame k.deep_equal_status status_iff existing.status
                  desired.status).0
                kept
        ]

    up_to_date : IsUpToDate SaysTheSame existing desired
    up_to_date = record {
      labels = (map_iff existing.meta.labels desired.meta.labels).0 (ground (arith, same_metadata));
      annotations =
          (map_iff existing.meta.annotations desired.meta.annotations).0
            (ground (arith, same_metadata));
      status = same_status;
    }

  -- Where the library's comparisons decide equality and the server answers with a stored node: if the
  -- upsert makes no call but the one that reads the node, then the labels and annotations are those
  -- of the desired one and the status says the same, times and the order of conditions left out. And
  -- if the labels, the annotations and the status, times left out, are those of the desired one, it
  -- makes no call but that one.
  pub upsert_node-IsUpToDate :
      ((upsert_node k desired s).1.history ≡ get_node (key_of desired.meta) ∷ s.history
        → IsUpToDate SaysTheSame existing desired)
      × (IsUpToDate SameFacts existing desired
          → (upsert_node k desired s).1.history ≡ get_node (key_of desired.meta) ∷ s.history)
  upsert_node-IsUpToDate = (up_to_date, settled)
