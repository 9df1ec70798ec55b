-- ===== src/Scripts/Pool.antt =====
-- `cephPoolScript` of configmap.go: a fixed head and foot, and a line for each effective pool.
use multiprox.Prelude.{
  String, true, false, Option, some, none, List, [], ◌∷◌, Bool, ◌==◌, if◌then◌else◌,
}
use multiprox.Text.Strings.{◌+++◌, unlines, join}
use multiprox.Text.Decimal.{show_ℤ}
use multiprox.Text.Quote.{quote}
use multiprox.Api.Cluster.{CephPoolSpec, ProxmoxCluster}
use multiprox.Ceph.Pools.{effective_pools}

-- `add` is "false" only where the pointer is set to false
abbrev pub add_flag : Option Bool → String
add_flag none = "true"
add_flag (some true) = "true"
add_flag (some false) = "false"

abbrev pub content_flag : List String → String
content_flag content =
    let joined = join content "," in if joined == "" then "images,rootdir" else joined

unfoldable pub create_pool_line : CephPoolSpec → String
unfolding join quote show_ℤ
create_pool_line p =
    "create_pool "
    +++ quote p.name
    +++ " "
    +++ show_ℤ p.size
    +++ " "
    +++ show_ℤ p.min_size
    +++ " "
    +++ show_ℤ p.pg_num
    +++ " "
    +++ quote (add_flag p.add_as_storage)
    +++ " "
    +++ quote (content_flag p.content)
    +++ "\n"

unfoldable pub create_pool_lines : List CephPoolSpec → String
unfolding create_pool_line
create_pool_lines [] = ""
create_pool_lines (p ∷ ps) = create_pool_line p +++ create_pool_lines ps

abbrev pub pool_script_head : String
pool_script_head = unlines (
    "#!/usr/bin/env bash" ∷ "# ceph-pool.sh — exec'd by the operator on pod-0."
    ∷ "# Creates Ceph pools and registers them as Proxmox storage. Idempotent."
    ∷ "set -euo pipefail" ∷ "" ∷ "log() { echo \"[ceph-pool] $*\"; }" ∷ ""
    ∷ "if ! ceph -s &>/dev/null; then" ∷ "  log \"ERROR: cannot reach the Ceph cluster.\""
    ∷ "  exit 1" ∷ "fi" ∷ "" ∷ "create_pool() {"
    ∷ "  local name=\"$1\" size=\"$2\" min_size=\"$3\" pg_num=\"$4\" add_storage=\"$5\" content=\"$6\""
    ∷ "" ∷ "  if ceph osd pool ls 2>/dev/null | grep -qx \"${name}\"; then"
    ∷ "    log \"Pool '${name}' already exists — skipping create.\"" ∷ "  else"
    ∷ "    local args=(--size \"${size}\" --min_size \"${min_size}\")"
    ∷ "    # pg_num 0 means \"let the autoscaler decide\" — omit the flag entirely."
    ∷ "    if [ \"${pg_num}\" != \"0\" ]; then" ∷ "      args+=(--pg_num \"${pg_num}\")" ∷ "    fi"
    ∷ "    log \"Creating pool '${name}' (${args[*]})...\""
    ∷ "    pveceph pool create \"${name}\" \"${args[@]}\"" ∷ "  fi" ∷ ""
    ∷ "  if [ \"${add_storage}\" = \"true\" ]; then"
    ∷ "    if pvesm status 2>/dev/null | awk '{print $1}' | grep -qx \"${name}\"; then"
    ∷ "      log \"Proxmox storage '${name}' already registered — skipping.\"" ∷ "    else"
    ∷ "      log \"Registering '${name}' as Proxmox RBD storage (content=${content})...\""
    ∷ "      pvesm add rbd \"${name}\" \\" ∷ "        --pool \"${name}\" \\"
    ∷ "        --content \"${content}\" \\" ∷ "        --krbd 0" ∷ "    fi" ∷ "  fi" ∷ "}" ∷ ""
    ∷ [])

abbrev pub pool_script_foot : String
pool_script_foot = unlines (
    "" ∷ "log \"All pools reconciled.\"" ∷ "ceph osd pool ls detail 2>/dev/null || true"
    ∷ "pvesm status 2>/dev/null || true" ∷ [])

unfoldable pub ceph_pool_script : ProxmoxCluster → String
unfolding create_pool_lines effective_pools
ceph_pool_script cluster =
    pool_script_head +++ create_pool_lines (effective_pools cluster) +++ pool_script_foot
