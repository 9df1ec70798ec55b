-- ===== src/Workload/Names/Distinct.antt =====
-- The object names of node.go, and the ordinals that they stand for.
use text.Mathlib.TextLemmas.{append_cancel_left}
use multiprox.Prelude.{◌≡◌, ℕ}
use multiprox.Text.Decimal.{show_ℕ-injective}
use multiprox.Api.Cluster.{ProxmoxCluster}
use multiprox.Workload.Names.{node_object_name}

pub node_object_name-injective :
    (cluster : ProxmoxCluster) (i j : ℕ)
    → node_object_name cluster i ≡ node_object_name cluster j
    → i ≡ j
unfolding node_object_name
node_object_name-injective cluster i j e =
    show_ℕ-injective i j (append_cancel_left "-" _ _ (append_cancel_left cluster.meta.name _ _ e))
