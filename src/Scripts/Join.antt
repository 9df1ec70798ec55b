-- ===== src/Scripts/Join.antt =====
-- The scripts that form the Proxmox cluster: configmap.go.
use multiprox.Prelude.{String, [], ◌∷◌}
use multiprox.Text.Strings.{◌+++◌, unlines}
use multiprox.Api.Cluster.{ProxmoxCluster}
use multiprox.Workload.Names.{headless_svc_name, node_dns}

unfoldable pub cluster_init_script : ProxmoxCluster → String
cluster_init_script cluster = unlines (
    "#!/usr/bin/env bash"
    ∷ "# cluster-init.sh — exec'd by the operator on pod ordinal 0."
    ∷ "# Creates the Proxmox cluster. Idempotent."
    ∷ "set -euo pipefail"
    ∷ ""
    ∷ ("CLUSTER_NAME=\"" +++ cluster.spec.cluster_name +++ "\"")
    ∷ "NODE_IP=\"$(hostname -I | awk '{print $1}')\""
    ∷ ""
    ∷ "log() { echo \"[cluster-init] $*\"; }"
    ∷ ""
    ∷ "for i in $(seq 1 30); do"
    ∷ "  systemctl is-active pve-cluster &>/dev/null && break"
    ∷ "  sleep 3"
    ∷ "  [ \"$i\" -eq 30 ] && { log \"ERROR: pve-cluster never became active\"; exit 1; }"
    ∷ "done"
    ∷ ""
    ∷ "if pvecm status &>/dev/null; then"
    ∷ "  log \"Cluster already exists — skipping init.\""
    ∷ "  exit 0"
    ∷ "fi"
    ∷ ""
    ∷ "log \"Creating cluster '${CLUSTER_NAME}' on $(hostname) (link0=${NODE_IP})...\""
    ∷ "pvecm create \"${CLUSTER_NAME}\" --link0 \"address=${NODE_IP}\""
    ∷ ""
    ∷ "log \"Cluster created.\""
    ∷ "pvecm status"
    ∷ [])

unfoldable pub cluster_join_script : ProxmoxCluster → String
unfolding node_dns
cluster_join_script cluster = unlines (
    "#!/usr/bin/env bash"
    ∷ "# cluster-join.sh — exec'd by the operator on each non-zero pod."
    ∷ "# Joins this node to the cluster running on pod-0. Idempotent."
    ∷ "set -euo pipefail"
    ∷ ""
    ∷ ("NODE0=\"" +++ node_dns cluster 0 +++ "\"")
    ∷ "ROOT_PASSWORD=\"${ROOT_PASSWORD:-proxmox}\""
    ∷ "NODE_IP=\"$(hostname -I | awk '{print $1}')\""
    ∷ ""
    ∷ "log() { echo \"[cluster-join/$(hostname)] $*\"; }"
    ∷ ""
    ∷ "if pvecm status &>/dev/null; then"
    ∷ "  log \"Already in a cluster — skipping join.\""
    ∷ "  exit 0"
    ∷ "fi"
    ∷ ""
    ∷ "for i in $(seq 1 30); do"
    ∷ "  systemctl is-active pve-cluster &>/dev/null && break"
    ∷ "  sleep 3"
    ∷ "  [ \"$i\" -eq 30 ] && { log \"ERROR: pve-cluster never became active\"; exit 1; }"
    ∷ "done"
    ∷ ""
    ∷ "# Uses bash's /dev/tcp, not nc. netcat is NOT installed in the real Proxmox node"
    ∷ "# image, so \"nc -z\" failed with command-not-found on every iteration and this"
    ∷ "# loop always timed out — reporting node-0 unreachable while sshd was listening"
    ∷ "# and answering. /dev/tcp is built into bash and needs no package."
    ∷ "log \"Waiting for SSH on ${NODE0}...\""
    ∷ "for i in $(seq 1 40); do"
    ∷ "  if timeout 3 bash -c \"echo > /dev/tcp/${NODE0}/22\" 2>/dev/null; then"
    ∷ "    log \"node-0 SSH is up.\""
    ∷ "    break"
    ∷ "  fi"
    ∷ "  sleep 3"
    ∷ "  [ \"$i\" -eq 40 ] && { log \"ERROR: SSH on ${NODE0} not reachable\"; exit 1; }"
    ∷ "done"
    ∷ ""
    ∷ "log \"Joining cluster via ${NODE0} (link0=${NODE_IP})...\""
    ∷ "pvecm add \"${NODE0}\" \\"
    ∷ "  --password \"${ROOT_PASSWORD}\" \\"
    ∷ "  --link0 \"address=${NODE_IP}\" \\"
    ∷ "  -o StrictHostKeyChecking=no"
    ∷ ""
    ∷ "log \"Joined.\""
    ∷ "pvecm status"
    ∷ [])

unfoldable pub node_bootstrap_script : ProxmoxCluster → String
unfolding headless_svc_name
node_bootstrap_script cluster = unlines (
    "#!/usr/bin/env bash"
    ∷ "# node-bootstrap.sh — container entrypoint. Configures identity, execs systemd."
    ∷ "set -euo pipefail"
    ∷ ""
    ∷ ("CLUSTER_NAME=\"" +++ cluster.spec.cluster_name +++ "\"")
    ∷ ("HEADLESS_SVC=\"" +++ headless_svc_name cluster +++ "\"")
    ∷ ("NAMESPACE=\"" +++ cluster.meta.namespace +++ "\"")
    ∷ "FQDN=\"${HOSTNAME}.${HEADLESS_SVC}.${NAMESPACE}.svc.cluster.local\""
    ∷ "ROOT_PASSWORD=\"${ROOT_PASSWORD:-proxmox}\""
    ∷ ""
    ∷ "echo \"root:${ROOT_PASSWORD}\" | chpasswd"
    ∷ "hostname \"${HOSTNAME}\""
    ∷ "echo \"${HOSTNAME}\" > /etc/hostname"
    ∷ ""
    ∷ "# Self entry must resolve to a routable pod IP, not 127.x, or Corosync"
    ∷ "# and the Ceph mon map will bind to loopback."
    ∷ "SELF_IP=\"$(hostname -I | awk '{print $1}')\""
    ∷ "{"
    ∷ "  echo \"127.0.0.1 localhost\""
    ∷ "  echo \"::1       localhost ip6-localhost ip6-loopback\""
    ∷ "  echo \"${SELF_IP} ${FQDN} ${HOSTNAME}\""
    ∷ "} > /etc/hosts"
    ∷ ""
    ∷ "[ -f /etc/ssh/ssh_host_rsa_key ] || ssh-keygen -A"
    ∷ ""
    ∷ "exec /lib/systemd/systemd --system --unit=multi-user.target"
    ∷ [])
