-- ===== src/Cluster/Returns/Willing.antt =====
-- A service that makes what internal/controller/ncxinfracluster_controller.go asks for. What it answers to a
-- read is left open, but for that of an allocation: a resource that is not found is made again.
use cluster_api_provider_nvi.Common.{String, List, some, none, ◌≡◌, ◌≢◌, listed}
use cluster_api_provider_nvi.Common.Exec.{ok}
use cluster_api_provider_nvi.Sdk.{
  VpcCreateRequest, IpBlockCreateRequest, AllocationCreateRequest, SubnetCreateRequest,
  VpcPrefixCreateRequest, VpcPeeringCreateRequest, NsgCreateRequest, Resource, Allocation,
}
use cluster_api_provider_nvi.Sdk.Wire.{
  Call, Cloud, Reply, create_vpc, create_ip_block, create_allocation, create_subnet,
  create_vpc_prefix, create_vpc_peering, create_nsg, get_allocation, get_all_site,
}
use cluster_api_provider_nvi.Api.Cluster.{NcxInfraClusterSpec}
use cluster_api_provider_nvi.Cluster.Scope.{find_site}
use cluster_api_provider_nvi.Cluster.Allocation.{derived_id}

-- 201, with a resource that has an ID.
pub record IsCreated (r : Reply Resource) : Type 0 where
  pub no_error : r.err ≡ none
  pub status : r.http ≡ some 201
  pub id : String
  pub value : r.value ≡ some (record { id = some id })
  pub filled : id ≢ ""

-- An allocation with an ID that names the child IP block.
pub record HasAllocation (r : Reply Allocation) : Type 0 where
  pub no_error : r.err ≡ none
  pub allocation : Allocation
  pub value : r.value ≡ some allocation
  pub id : String
  pub has_id : allocation.id ≡ some id
  pub child : String
  pub has_child : derived_id allocation.allocation_constraints ≡ some child
  pub filled : child ≢ ""

pub record IsWilling (s : NcxInfraClusterSpec) (cloud : Cloud) : Type 0 where
  pub vpc : (past : List Call) (r : VpcCreateRequest) → IsCreated (cloud past (create_vpc r))
  pub ip_block :
      (past : List Call) (r : IpBlockCreateRequest) → IsCreated (cloud past (create_ip_block r))
  pub subnet :
      (past : List Call) (r : SubnetCreateRequest) → IsCreated (cloud past (create_subnet r))
  pub prefix :
      (past : List Call) (r : VpcPrefixCreateRequest) → IsCreated (cloud past (create_vpc_prefix r))
  pub peering :
      (past : List Call) (r : VpcPeeringCreateRequest)
      → IsCreated (cloud past (create_vpc_peering r))
  pub nsg : (past : List Call) (r : NsgCreateRequest) → IsCreated (cloud past (create_nsg r))
  pub allocated :
      (past : List Call) (r : AllocationCreateRequest)
      → HasAllocation (cloud past (create_allocation r))
        × ((cloud past (create_allocation r)).http ≡ some 201)
  pub allocation : (past : List Call) (id : String) → HasAllocation (cloud past (get_allocation id))
  -- A site that is given by its name is listed.
  pub site :
      (past : List Call)
      → s.site_ref.id ≡ ""
      → ((cloud past get_all_site).err ≡ none)
        × ((id : String) × (find_site s.site_ref.name (listed (cloud past get_all_site).value)
              ≡ ok id))
