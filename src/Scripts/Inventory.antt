-- ===== src/Scripts/Inventory.antt =====
-- The inventory script, which prints a line of facts for each node: configmap.go.
use multiprox.Prelude.{String, [], ◌∷◌}
use multiprox.Text.Strings.{unlines}
use multiprox.Api.Cluster.{ProxmoxCluster}

unfoldable pub cluster_inventory_script : ProxmoxCluster → String
cluster_inventory_script _ = unlines (
    "#!/usr/bin/env bash" ∷ "# cluster-inventory.sh — exec'd by the operator on node-0."
    ∷ "# Emits one key=value line per Proxmox node for the ProxmoxNode projection."
    ∷ "# Read-only: makes no changes to the cluster." ∷ "set -uo pipefail" ∷ ""
    ∷ "# ── Corosync membership ──────────────────────────────────────────────────────"
    ∷ "# \"pvecm nodes\" output:" ∷ "#      Nodeid      Votes Name"
    ∷ "#           1          1 cluster-0 (local)" ∷ "#           2          1 cluster-1"
    ∷ "# A node listed here is a member. Proxmox appends \"(local)\" to the node the"
    ∷ "# command ran on." ∷ "declare -A NODEID ONLINE" ∷ "" ∷ "if pvecm nodes &>/dev/null; then"
    ∷ "  while read -r id votes name rest; do"
    ∷ "    case \"${id}\" in ''|*[!0-9]*) continue ;; esac" ∷ "    name=\"${name%% *}\""
    ∷ "    NODEID[\"${name}\"]=\"${id}\"" ∷ "    ONLINE[\"${name}\"]=1"
    ∷ "  done < <(pvecm nodes 2>/dev/null | tail -n +2)" ∷ "fi" ∷ ""
    ∷ "# ── Ceph daemon placement ────────────────────────────────────────────────────"
    ∷ "declare -A ISMON ISMGR OSDUP OSDTOTAL" ∷ ""
    ∷ "if [ -f /etc/pve/ceph.conf ] && ceph -s &>/dev/null; then"
    ∷ "  # Monitors: \"ceph mon dump\" lists \"0: [v2:ip:port/0,...] mon.<host>\""
    ∷ "  while read -r m; do" ∷ "    [ -n \"${m}\" ] && ISMON[\"${m}\"]=1"
    ∷ "  done < <(ceph mon dump 2>/dev/null | sed -n 's/.*mon\\.\\([^ ]*\\).*/\\1/p')" ∷ ""
    ∷ "  # Managers: active plus standbys."
    ∷ "  ACTIVE_MGR=\"$(ceph mgr dump --format json 2>/dev/null \\"
    ∷ "    | grep -o '\"active_name\":\"[^\"]*\"' | cut -d'\"' -f4)\""
    ∷ "  [ -n \"${ACTIVE_MGR}\" ] && ISMGR[\"${ACTIVE_MGR}\"]=1" ∷ "  while read -r m; do"
    ∷ "    [ -n \"${m}\" ] && ISMGR[\"${m}\"]=1"
    ∷ "  done < <(ceph mgr dump --format json 2>/dev/null \\"
    ∷ "    | grep -o '\"name\":\"[^\"]*\"' | cut -d'\"' -f4)" ∷ ""
    ∷ "  # OSDs per host, from the CRUSH tree. Track the current host bucket, then"
    ∷ "  # count osd.N leaves under it and how many are marked up."
    ∷ "  while read -r host up total; do" ∷ "    [ -n \"${host}\" ] || continue"
    ∷ "    OSDUP[\"${host}\"]=\"${up}\"" ∷ "    OSDTOTAL[\"${host}\"]=\"${total}\""
    ∷ "  done < <(ceph osd tree 2>/dev/null | awk '" ∷ "    {" ∷ "      for (i = 1; i <= NF; i++) {"
    ∷ "        if ($i == \"host\") { host = $(i+1); next }" ∷ "      }" ∷ "    }" ∷ "    /osd\\./ {"
    ∷ "      if (host != \"\") {" ∷ "        total[host]++"
    ∷ "        if ($0 ~ /[[:space:]]up[[:space:]]/) up[host]++" ∷ "      }" ∷ "    }" ∷ "    END {"
    ∷ "      for (h in total) printf \"%s %d %d\\n\", h, (h in up ? up[h] : 0), total[h]" ∷ "    }"
    ∷ "  ')" ∷ "fi" ∷ ""
    ∷ "# ── Emit ─────────────────────────────────────────────────────────────────────"
    ∷ "# Union of every node name we saw, so a node present in Ceph but not yet in"
    ∷ "# Corosync (or vice versa) still gets a line."
    ∷ "for name in $(printf '%s\\n' \"${!NODEID[@]}\" \"${!ISMON[@]}\" \"${!OSDTOTAL[@]}\" \\"
    ∷ "              | grep -v '^$' | sort -u); do"
    ∷ "  printf 'node=%s online=%s nodeid=%s mon=%s mgr=%s osds_up=%s osds_total=%s\\n' \\"
    ∷ "    \"${name}\" \\" ∷ "    \"${ONLINE[$name]:-0}\" \\" ∷ "    \"${NODEID[$name]:-0}\" \\"
    ∷ "    \"${ISMON[$name]:-0}\" \\" ∷ "    \"${ISMGR[$name]:-0}\" \\"
    ∷ "    \"${OSDUP[$name]:-0}\" \\" ∷ "    \"${OSDTOTAL[$name]:-0}\"" ∷ "done" ∷ [])
