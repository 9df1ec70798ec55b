-- ===== src/Workload/Examples.antt =====
-- Runs of the object names and devices on concrete clusters.
use multiprox.Prelude.{◌≡◌, map, List, some}
use multiprox.Prelude.Int.{pos}
use multiprox.Api.Samples.{cluster_of}
use multiprox.Workload.Devices.{osd_volume_devices}
use multiprox.Workload.Devices.Match.{osd_volume_devices-claims}
use multiprox.Workload.StatefulSet.{stateful_set}
use multiprox.Workload.StatefulSet.WellFormed.{IsWellFormed, stateful_set-IsWellFormed}
use multiprox.Workload.ConfigMap.{CorosyncNode, corosync_nodes}
use multiprox.Workload.ConfigMap.Members.{IsMembership, corosync_nodes-IsMembership}
use multiprox.Workload.Claims.{osd_claim_templates}

osd_volume_devices-claims_example :
    map (λ d. d.name) (osd_volume_devices (cluster_of (pos 3)))
    ≡ map (λ c. c.name) (osd_claim_templates (cluster_of (pos 3)))
osd_volume_devices-claims_example = osd_volume_devices-claims (cluster_of (pos 3))

stateful_set-IsWellFormed_example : IsWellFormed (stateful_set (cluster_of (pos 3)))
stateful_set-IsWellFormed_example = stateful_set-IsWellFormed (cluster_of (pos 3))

corosync_nodes-IsMembership_example :
    (members : List CorosyncNode) × (corosync_nodes (cluster_of (pos 3)) (pos 3) ≡ some members)
    × IsMembership (cluster_of (pos 3)) 3 members
corosync_nodes-IsMembership_example = corosync_nodes-IsMembership (cluster_of (pos 3)) 3
