-- ===== src/Workload.antt =====
-- The objects that the operator creates for a cluster: service.go, statefulset.go, configmap.go.
pub mod Names
pub mod Devices
pub mod Objects
pub mod Services
pub mod Claims
pub mod StatefulSet
pub mod ConfigMap
mod Examples
