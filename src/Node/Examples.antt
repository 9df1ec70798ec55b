-- ===== src/Node/Examples.antt =====
-- The theorems about the projection at concrete nodes.
use multiprox.Prelude.{List, [], ◌∷◌, arith, String, ◌≡◌, true, false, none, some, map, refl}
use multiprox.Prelude.Int.{pos}
use multiprox.Api.DeepEqual.{deep_equal, deep_equal_iff}
use multiprox.Api.Node
use multiprox.Api.Node.{ProxmoxNodeStatus}
use multiprox.Api.Samples.{cluster_of, sample_ceph, sample_pod}
use multiprox.Text.Strings.{join, unlines, has_line, trim_space, has_prefix}
use multiprox.Text.Strings.Lacks.{lacks-Lacks, is_char, is_word-IsWord}
use multiprox.Scripts.Inventory.{cluster_inventory_script}
use multiprox.Node.Inventory.{NodeInventory, lookup, parse_inventory}
use multiprox.Node.Inventory.Lines.{facts, inventory_line}
use multiprox.Node.Inventory.RoundTrip.{Reports, last_named, parse_inventory-Reports}
use multiprox.Node.Projection.{node_status, node_ceph_status}
use multiprox.Node.Projection.Devices.{node_ceph_status-devices}
use multiprox.Workload.Devices.{osd_volume_devices}
use multiprox.Node.Projection.Observes.{node_status-written_once}
use multiprox.Node.Merge.{merge_node_status}
use multiprox.Node.Merge.Times.{AllFollow, merge_node_status-AllFollow}
use multiprox.Node.Merge.Rearranged.{SaysTheSame}
use multiprox.Node.Merge.Writes.{SameFacts, merge_node_status-SaysTheSame}

abbrev member : NodeInventory
member = record {
  name = "lab-0";
  online = true;
  node_id = pos 1;
  monitor = true;
  manager = true;
  osds_up = pos 1;
  osds_total = pos 2;
}

abbrev before : ProxmoxNodeStatus
before = node_status (cluster_of (pos 3)) (some sample_pod) none 10

abbrev after : ProxmoxNodeStatus
after = node_status (cluster_of (pos 3)) (some sample_pod) (some member) 20

merge_node_status-AllFollow_example :
    AllFollow before.conditions after.conditions
      (merge_node_status deep_equal before after).0.conditions
merge_node_status-AllFollow_example = merge_node_status-AllFollow deep_equal before after

merge_node_status-SaysTheSame_example :
    ((merge_node_status deep_equal before after).1 ≡ false → SaysTheSame before after)
    × (SameFacts before after → (merge_node_status deep_equal before after).1 ≡ false)
merge_node_status-SaysTheSame_example =
    merge_node_status-SaysTheSame deep_equal deep_equal_iff before after

node_status-written_once_example :
    merge_node_status deep_equal
      (merge_node_status deep_equal before
        (node_status (cluster_of (pos 3)) (some sample_pod) (some member) 20)).0
      (node_status (cluster_of (pos 3)) (some sample_pod) (some member) 30)
    ≡ (
      (merge_node_status deep_equal before
          (node_status (cluster_of (pos 3)) (some sample_pod) (some member) 20)).0,
      false,
    )
node_status-written_once_example =
    node_status-written_once deep_equal deep_equal_iff before (cluster_of (pos 3)) (some sample_pod)
      (some member) 20 30

node_ceph_status-devices_example :
    (node_ceph_status (cluster_of (pos 3)) sample_ceph none).devices
    ≡ map (λ d. d.device_path) (osd_volume_devices (cluster_of (pos 3)))
node_ceph_status-devices_example =
    node_ceph_status-devices (cluster_of (pos 3)) sample_ceph none refl

abbrev printed : List String
printed = "notice: quorum" ∷ inventory_line member ∷ []

printed-Reports : Reports printed (member ∷ [])
unfolding trim_space has_prefix
printed-Reports =
    Reports.other "notice: quorum" (lacks-Lacks (is_char b'\n') "notice: quorum" refl) refl (
      Reports.node member
        (
          is_word-IsWord "lab-0" refl,
          (omega arith, omega arith),
          (omega arith, omega arith),
          (omega arith, omega arith),
        )
        Reports.done)

parse_inventory-Reports_example :
    lookup "lab-0" (parse_inventory (unlines printed)) ≡ last_named "lab-0" (member ∷ []) none
parse_inventory-Reports_example =
    parse_inventory-Reports printed (member ∷ []) "lab-0" printed-Reports

-- the line of the model is the format of the script, which the script prints
format_tests :
    (join (facts "%s" "%s" "%s" "%s" "%s" "%s" "%s") " "
      ≡ "node=%s online=%s nodeid=%s mon=%s mgr=%s osds_up=%s osds_total=%s")
    × (has_line
          "  printf 'node=%s online=%s nodeid=%s mon=%s mgr=%s osds_up=%s osds_total=%s\\n' \\"
          (cluster_inventory_script (cluster_of (pos 3)))
        ≡ true)
    × (inventory_line member ≡ "node=lab-0 online=1 nodeid=1 mon=1 mgr=1 osds_up=1 osds_total=2")
unfolding join inventory_line cluster_inventory_script has_line
format_tests = (refl, refl, refl)
