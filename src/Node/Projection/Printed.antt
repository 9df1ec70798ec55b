-- ===== src/Node/Projection/Printed.antt =====
-- From the lines of the inventory script to the phase of a ProxmoxNode: node.go.
use multiprox.Api.Pod.{Pod}
