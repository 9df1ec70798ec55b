-- ===== src/Ceph.antt =====
-- ceph.go and the pool defaults of configmap.go: how many daemons a cluster gets, the plan that the
-- controller walks, the check of the spec, and the parser of the status line.
pub mod Counts
pub mod Pools
pub mod Plan
pub mod Validate
pub mod Status
mod Examples
