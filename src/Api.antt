-- ===== src/Api.antt =====
-- The custom resources of api/v1beta1: the records of ncxinfracluster_types.go and
-- ncxinframachine_types.go, with what the controllers read of their Kubernetes metadata.
pub mod Meta
pub mod Cluster
pub mod Machine
