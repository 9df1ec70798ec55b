-- ===== src/Workload/ConfigMap/Members.antt =====
-- The members that `renderCorosync` of configmap.go lists.
use text.Mathlib.TextLemmas.{append_cancel_left, append_cancel_right}
use multiprox.Prelude.{
  ◌≡◌, refl, ap, sym, subst, ℕ, zero, suc, some, List, [], ◌∷◌, map, AllDistinct,
  AllDistinct-map_range, range, range_from,
}
use multiprox.Prelude.Int.{pos}
use multiprox.Text.Decimal.{show_ℕ-injective}
use multiprox.Api.Cluster.{ProxmoxCluster}
use multiprox.Workload.Names.{node_object_name, node_dns}
use multiprox.Workload.Names.Distinct.{node_object_name-injective}
use multiprox.Workload.ConfigMap.{CorosyncNode, corosync_node, corosync_nodes}

-- the members of a cluster of so many nodes: the names are those that the pods and the ProxmoxNodes
-- of the ordinals have, the ids count from one, and nothing stands for two nodes
pub record IsMembership (cluster : ProxmoxCluster) (nodes : ℕ) (members : List CorosyncNode)
    : Type 0 where
  pub names : map (λ n. n.name) members ≡ map (node_object_name cluster) (range nodes)
  pub ids : map (λ n. n.id) members ≡ range_from 1 nodes
  pub distinct_names : AllDistinct (map (λ n. n.name) members)
  pub distinct_addresses : AllDistinct (map (λ n. n.address) members)

node_dns-injective :
    (cluster : ProxmoxCluster) (i j : ℕ) → node_dns cluster i ≡ node_dns cluster j → i ≡ j
unfolding node_dns
node_dns-injective cluster i j e = show_ℕ-injective i j (
    append_cancel_right _ _ _
      (append_cancel_left "-" _ _ (append_cancel_left cluster.meta.name _ _ e)))

module _ (cluster : ProxmoxCluster) where
  named :
      (is : List ℕ)
      → map (λ n. n.name) (map (corosync_node cluster) is) ≡ map (node_object_name cluster) is
  unfolding corosync_node
  named [] = refl
  named (i ∷ is) = ap (λ u. node_object_name cluster i ∷ u) (named is)

  addressed :
      (is : List ℕ)
      → map (λ n. n.address) (map (corosync_node cluster) is) ≡ map (node_dns cluster) is
  unfolding corosync_node
  addressed [] = refl
  addressed (i ∷ is) = ap (λ u. node_dns cluster i ∷ u) (addressed is)

  counted :
      (i n : ℕ)
      → map (λ n. n.id) (map (corosync_node cluster) (range_from i n)) ≡ range_from (suc i) n
  unfolding corosync_node
  counted i zero = refl
  counted i (suc n) = ap (λ u. suc i ∷ u) (counted (suc i) n)

  -- For a spec of any number of nodes that is not negative, the template gets a member list, and it
  -- is a membership: the names of the pods in order, ids from one, no name and no address twice.
  pub corosync_nodes-IsMembership :
      (nodes : ℕ)
      → (members : List CorosyncNode) × (corosync_nodes cluster (pos nodes) ≡ some members)
        × IsMembership cluster nodes members
  unfolding corosync_nodes
  corosync_nodes-IsMembership nodes = (
    map (corosync_node cluster) (range nodes),
    refl,
    record {
      names = named (range nodes);
      ids = counted 0 nodes;
      distinct_names = subst AllDistinct (sym (named (range nodes))) (
          AllDistinct-map_range (node_object_name cluster) (node_object_name-injective cluster) 0
            nodes);
      distinct_addresses =
          subst AllDistinct (sym (addressed (range nodes)))
            (AllDistinct-map_range (node_dns cluster) (node_dns-injective cluster) 0 nodes);
    },
  )
