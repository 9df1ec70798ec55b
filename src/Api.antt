-- ===== src/Api.antt =====
-- The operator's API types, kubernetes/operator/api/v1alpha1.
pub mod DeepEqual
pub mod Meta
pub mod Cluster
pub mod Node
pub mod Pod
pub mod Samples
