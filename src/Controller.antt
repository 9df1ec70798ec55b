-- ===== src/Controller.antt =====
-- The reconciler: proxmoxcluster_controller.go.
pub mod Kube
pub mod Pass
pub mod Status
pub mod Ensure
pub mod Nodes
pub mod Steps
pub mod Reconcile
pub mod Progress
pub mod Samples
mod Examples
