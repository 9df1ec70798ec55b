-- ===== src/Node.antt =====
-- node.go: the observed-state projection of each node.
pub mod Inventory
pub mod Projection
pub mod Merge
mod Examples
