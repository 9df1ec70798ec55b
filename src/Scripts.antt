-- ===== src/Scripts.antt =====
-- The scripts that the operator ships in the ConfigMap and runs in the pods: configmap.go.
pub mod Join
pub mod Inventory
pub mod Daemons
pub mod Pool
