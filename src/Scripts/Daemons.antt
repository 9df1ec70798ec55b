-- ===== src/Scripts/Daemons.antt =====
-- The scripts that create the Ceph daemons and print their state: configmap.go.
use multiprox.Prelude.{String, [], ◌∷◌}
use multiprox.Text.Strings.{◌+++◌, unlines}
use multiprox.Api.Cluster.{ProxmoxCluster}
use multiprox.Api.Cluster.{CephSpec}

-- called only where the spec asks for Ceph, so the spec is handed over
unfoldable pub ceph_init_script : CephSpec → String
ceph_init_script ceph = unlines (
    "#!/usr/bin/env bash"
    ∷ "# ceph-init.sh — exec'd by the operator on pod-0, once per cluster."
    ∷ "# Bootstraps Ceph configuration inside Proxmox. Idempotent."
    ∷ "set -euo pipefail"
    ∷ ""
    ∷ ("CEPH_NETWORK=\"${CEPH_NETWORK:-" +++ ceph.network +++ "}\"")
    ∷ ("CEPH_CLUSTER_NETWORK=\"${CEPH_CLUSTER_NETWORK:-" +++ ceph.cluster_network +++ "}\"")
    ∷ ""
    ∷ "log() { echo \"[ceph-init] $*\"; }"
    ∷ ""
    ∷ "# /etc/pve/ceph.conf is the marker that pveceph init has already run."
    ∷ "# It lives in pmxcfs, so it is cluster-wide."
    ∷ "if [ -f /etc/pve/ceph.conf ]; then"
    ∷ "  log \"Ceph already initialised (/etc/pve/ceph.conf exists) — skipping.\""
    ∷ "  exit 0"
    ∷ "fi"
    ∷ ""
    ∷ "# Derive a public network from the pod IP when not supplied. Pod CIDRs are"
    ∷ "# usually a /16 (10.244.0.0/16 for Flannel, 10.42.0.0/16 for K3s, etc)."
    ∷ "if [ -z \"${CEPH_NETWORK}\" ]; then"
    ∷ "  SELF_IP=\"$(hostname -I | awk '{print $1}')\""
    ∷ "  CEPH_NETWORK=\"$(echo \"${SELF_IP}\" | cut -d. -f1-2).0.0/16\""
    ∷ "  log \"No spec.ceph.network set — derived ${CEPH_NETWORK} from pod IP ${SELF_IP}.\""
    ∷ "fi"
    ∷ ""
    ∷ "ARGS=(--network \"${CEPH_NETWORK}\")"
    ∷ "if [ -n \"${CEPH_CLUSTER_NETWORK}\" ]; then"
    ∷ "  ARGS+=(--cluster-network \"${CEPH_CLUSTER_NETWORK}\")"
    ∷ "fi"
    ∷ ""
    ∷ "log \"Running: pveceph init ${ARGS[*]}\""
    ∷ "pveceph init \"${ARGS[@]}\""
    ∷ ""
    ∷ "log \"Ceph initialised. /etc/pve/ceph.conf:\""
    ∷ "cat /etc/pve/ceph.conf"
    ∷ [])

unfoldable pub ceph_mon_script : ProxmoxCluster → String
ceph_mon_script _ = unlines (
    "#!/usr/bin/env bash"
    ∷ "# ceph-mon.sh — exec'd by the operator on each node selected to host a monitor."
    ∷ "# Idempotent: skips if this host already appears in the mon map." ∷ "set -euo pipefail" ∷ ""
    ∷ "log() { echo \"[ceph-mon/$(hostname)] $*\"; }" ∷ "" ∷ "if [ ! -f /etc/pve/ceph.conf ]; then"
    ∷ "  log \"ERROR: /etc/pve/ceph.conf missing — run ceph-init.sh first.\"" ∷ "  exit 1" ∷ "fi"
    ∷ "" ∷ "# If this host is already a monitor, /var/lib/ceph/mon/ceph-<host> exists."
    ∷ "if [ -d \"/var/lib/ceph/mon/ceph-$(hostname)\" ]; then"
    ∷ "  log \"Monitor already exists on this node — skipping.\"" ∷ "  exit 0" ∷ "fi" ∷ ""
    ∷ "log \"Creating Ceph monitor...\"" ∷ "pveceph mon create" ∷ ""
    ∷ "log \"Monitor created. Current mon list:\"" ∷ "ceph mon dump 2>/dev/null || true" ∷ [])

unfoldable pub ceph_mgr_script : ProxmoxCluster → String
ceph_mgr_script _ = unlines (
    "#!/usr/bin/env bash"
    ∷ "# ceph-mgr.sh — exec'd by the operator on each node selected to host a manager."
    ∷ "# Idempotent." ∷ "set -euo pipefail" ∷ "" ∷ "log() { echo \"[ceph-mgr/$(hostname)] $*\"; }"
    ∷ "" ∷ "if [ -d \"/var/lib/ceph/mgr/ceph-$(hostname)\" ]; then"
    ∷ "  log \"Manager already exists on this node — skipping.\"" ∷ "  exit 0" ∷ "fi" ∷ ""
    ∷ "log \"Creating Ceph manager...\"" ∷ "pveceph mgr create" ∷ "" ∷ "log \"Manager created.\""
    ∷ [])

unfoldable pub ceph_osd_script : ProxmoxCluster → String
ceph_osd_script _ = unlines (
    "#!/usr/bin/env bash" ∷ "# ceph-osd.sh — exec'd by the operator on every PVE node."
    ∷ "# Creates one OSD per attached raw block device. Idempotent per device."
    ∷ "set -euo pipefail" ∷ "" ∷ "OSDS_PER_NODE=\"${CEPH_OSDS_PER_NODE:-1}\""
    ∷ "PREFIX=\"${CEPH_OSD_DEVICE_PREFIX:-/dev/ceph-osd-}\"" ∷ ""
    ∷ "log() { echo \"[ceph-osd/$(hostname)] $*\"; }" ∷ "" ∷ "if [ ! -f /etc/pve/ceph.conf ]; then"
    ∷ "  log \"ERROR: /etc/pve/ceph.conf missing — run ceph-init.sh first.\"" ∷ "  exit 1" ∷ "fi"
    ∷ "" ∷ "# A monitor must exist before OSDs can register." ∷ "if ! ceph -s &>/dev/null; then"
    ∷ "  log \"ERROR: cannot reach the Ceph cluster — is at least one monitor up?\"" ∷ "  exit 1"
    ∷ "fi" ∷ "" ∷ "created=0" ∷ "skipped=0" ∷ "" ∷ "for i in $(seq 0 $((OSDS_PER_NODE - 1))); do"
    ∷ "  DEV=\"${PREFIX}${i}\"" ∷ "" ∷ "  if [ ! -b \"${DEV}\" ]; then"
    ∷ "    log \"WARNING: ${DEV} is not a block device — skipping. Check that the\""
    ∷ "    log \"         OSD PVC was provisioned with volumeMode: Block.\"" ∷ "    continue"
    ∷ "  fi" ∷ "" ∷ "  # ceph-volume writes an LVM signature. If the device already has a"
    ∷ "  # ceph_ VG on it, an OSD was already created here."
    ∷ "  if pvs --noheadings -o vg_name \"${DEV}\" 2>/dev/null | grep -q 'ceph'; then"
    ∷ "    log \"${DEV} already hosts an OSD — skipping.\"" ∷ "    skipped=$((skipped + 1))"
    ∷ "    continue" ∷ "  fi" ∷ "" ∷ "  log \"Creating OSD on ${DEV}...\""
    ∷ "  if pveceph osd create \"${DEV}\"; then" ∷ "    created=$((created + 1))"
    ∷ "    log \"OSD created on ${DEV}.\"" ∷ "  else"
    ∷ "    log \"ERROR: pveceph osd create ${DEV} failed.\"" ∷ "    exit 1" ∷ "  fi" ∷ "done" ∷ ""
    ∷ "log \"Done. created=${created} skipped=${skipped}\"" ∷ "ceph osd tree 2>/dev/null || true"
    ∷ [])

unfoldable pub ceph_status_script : ProxmoxCluster → String
ceph_status_script _ = unlines (
    "#!/usr/bin/env bash" ∷ "# ceph-status.sh — exec'd by the operator to poll Ceph state."
    ∷ "# Emits one key=value line for the controller to parse." ∷ "set -uo pipefail" ∷ ""
    ∷ "if [ ! -f /etc/pve/ceph.conf ]; then"
    ∷ "  echo \"health=UNINITIALIZED osds_up=0 osds_in=0 mons= mgrs= pools= detail=ceph.conf missing\""
    ∷ "  exit 0" ∷ "fi" ∷ "" ∷ "if ! ceph -s &>/dev/null; then"
    ∷ "  echo \"health=UNREACHABLE osds_up=0 osds_in=0 mons= mgrs= pools= detail=cannot reach cluster\""
    ∷ "  exit 0" ∷ "fi" ∷ "" ∷ "HEALTH=\"$(ceph health 2>/dev/null | awk '{print $1}')\""
    ∷ "[ -z \"${HEALTH}\" ] && HEALTH=\"UNKNOWN\"" ∷ ""
    ∷ "OSDS_UP=\"$(ceph osd stat --format json 2>/dev/null \\"
    ∷ "  | grep -o '\"num_up_osds\":[0-9]*' | cut -d: -f2)\""
    ∷ "OSDS_IN=\"$(ceph osd stat --format json 2>/dev/null \\"
    ∷ "  | grep -o '\"num_in_osds\":[0-9]*' | cut -d: -f2)\"" ∷ "[ -z \"${OSDS_UP}\" ] && OSDS_UP=0"
    ∷ "[ -z \"${OSDS_IN}\" ] && OSDS_IN=0" ∷ ""
    ∷ "MONS=\"$(ceph mon dump 2>/dev/null | awk '/^[0-9]+: /{print $3}' | paste -sd, -)\""
    ∷ "[ -z \"${MONS}\" ] && MONS=\"\"" ∷ "" ∷ "MGRS=\"$(ceph mgr dump --format json 2>/dev/null \\"
    ∷ "  | grep -o '\"active_name\":\"[^\"]*\"' | cut -d'\"' -f4)\""
    ∷ "[ -z \"${MGRS}\" ] && MGRS=\"\"" ∷ ""
    ∷ "POOLS=\"$(ceph osd pool ls 2>/dev/null | paste -sd, -)\""
    ∷ "[ -z \"${POOLS}\" ] && POOLS=\"\"" ∷ "" ∷ "DETAIL=\"\""
    ∷ "if [ \"${HEALTH}\" != \"HEALTH_OK\" ]; then"
    ∷ "  DETAIL=\"$(ceph health detail 2>/dev/null | head -2 | tail -1 | tr -d '\\n' | cut -c1-200)\""
    ∷ "fi" ∷ ""
    ∷ "echo \"health=${HEALTH} osds_up=${OSDS_UP} osds_in=${OSDS_IN} mons=${MONS} mgrs=${MGRS} pools=${POOLS} detail=${DETAIL}\""
    ∷ [])
