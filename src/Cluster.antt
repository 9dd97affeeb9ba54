-- ===== src/Cluster.antt =====
-- The NcxInfraCluster controller, internal/controller/ncxinfracluster_controller.go, over the
-- cluster scope of pkg/scope/cluster.go.
pub mod Scope
pub mod Respond
pub mod Keeps
pub mod Yields
pub mod Vpc
pub mod Allocation
pub mod Subnets
pub mod Nsg
pub mod Delete
pub mod Normal
pub mod Reads
pub mod Life
pub mod Maps
pub mod Returns
pub mod Responds
pub mod Entry
