-- ===== src/Controller/Examples/Loops.antt =====
-- The loops of the reconciler on concrete servers.
use multiprox.Prelude.{◌≡◌, refl, none, [], ◌∷◌}
use multiprox.Prelude.Int.{pos}
use multiprox.Api.Cluster.{ProxmoxCluster}
use multiprox.Api.DeepEqual.{deep_equal, deep_equal_iff, deep_equal_map, deep_equal_map_iff}
use multiprox.Api.Node.{ProxmoxNode}
use multiprox.Api.Samples.{sample_pod}
use multiprox.Ceph.Plan.{ceph_plan}
use multiprox.Node.Projection.{proxmox_node_for}
use multiprox.Errors.{ok}
use multiprox.Controller.Kube.{key_of, get_node, Kube}
use multiprox.Controller.Samples.{sample_kube, built_cluster}
use multiprox.Controller.Nodes.{prune_nodes, upsert_node}
use multiprox.Controller.Nodes.Prunes.{deletions, after_calls, prune_nodes-deletions}
use multiprox.Controller.Nodes.Writes.{IsUpToDate, upsert_node-IsUpToDate}
use multiprox.Node.Merge.Rearranged.{SaysTheSame}
use multiprox.Node.Merge.Writes.{SameFacts}
use multiprox.Controller.Steps.{walk_plan}
use multiprox.Controller.Steps.Walks.{Walks, walk_plan-Walks}
use multiprox.Controller.Steps.Ran.{Ends}
use multiprox.Controller.Steps.Completes.{Responds, plan_calls, walk_plan-completes}
use multiprox.Controller.Reconcile.Fetched.{fresh_run}

abbrev lab_cluster : ProxmoxCluster
lab_cluster = built_cluster (pos 3)

walk_plan-Walks_example :
    Ends
      (walk_plan (sample_kube lab_cluster (pos 3)) (ceph_plan lab_cluster))
      (fresh_run lab_cluster)
      (λ failed h.
        Walks (sample_kube lab_cluster (pos 3)) lab_cluster (ceph_plan lab_cluster) failed [] h)
walk_plan-Walks_example =
    walk_plan-Walks (sample_kube lab_cluster (pos 3)) (ceph_plan lab_cluster)
      (fresh_run lab_cluster)

sample-Responds : Responds (sample_kube lab_cluster (pos 3))
unfolding sample_kube
sample-Responds = record {
  configured = refl;
  connected = refl;
  pod = λ h key. (sample_pod, refl, refl);
  created = λ h namespace pod options. refl;
  streamed = λ h namespace pod options stdin. refl;
}

walk_plan-completes_example :
    walk_plan (sample_kube lab_cluster (pos 3)) (ceph_plan lab_cluster) (fresh_run lab_cluster) ≡ (
      ok none,
      record (fresh_run lab_cluster) {
        history = plan_calls lab_cluster (ceph_plan lab_cluster) [];
      },
    )
walk_plan-completes_example =
    walk_plan-completes (sample_kube lab_cluster (pos 3)) sample-Responds (ceph_plan lab_cluster)
      (fresh_run lab_cluster)

abbrev lab_node : ProxmoxNode
lab_node = proxmox_node_for lab_cluster 1 none none 10

prune_nodes-deletions_example :
    prune_nodes
      (sample_kube lab_cluster (pos 3))
      ("lab-0" ∷ [])
      (lab_node ∷ [])
      (fresh_run lab_cluster)
    ≡ (
      ok tt,
      record (fresh_run lab_cluster) {
        history = after_calls (deletions ("lab-0" ∷ []) (lab_node ∷ [])) [];
      },
    )
prune_nodes-deletions_example =
    prune_nodes-deletions (sample_kube lab_cluster (pos 3)) ("lab-0" ∷ []) (lab_node ∷ [])
      (fresh_run lab_cluster)

-- a server that has the node
abbrev stored_kube : Kube
stored_kube =
    let k = sample_kube lab_cluster (pos 3) in
    record k {
      server = record k.server { on_get_node = λ h key. ok lab_node };
      deep_equal_map = deep_equal_map;
      deep_equal_status = deep_equal;
    }

upsert_node-IsUpToDate_example :
    ((upsert_node stored_kube lab_node (fresh_run lab_cluster)).1.history
        ≡ get_node (key_of lab_node.meta) ∷ []
      → IsUpToDate SaysTheSame lab_node lab_node)
    × (IsUpToDate SameFacts lab_node lab_node
        → (upsert_node stored_kube lab_node (fresh_run lab_cluster)).1.history
          ≡ get_node (key_of lab_node.meta) ∷ [])
upsert_node-IsUpToDate_example =
    upsert_node-IsUpToDate stored_kube deep_equal_map_iff deep_equal_iff lab_node lab_node
      (fresh_run lab_cluster) refl
