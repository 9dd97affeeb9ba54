-- ===== src/Sdk/Network.antt =====
-- The requests and answers of the network part of the SDK: the fields that the code writes or reads.
use cluster_api_provider_nvi.Common.{ℕ, String, List, Option}
use cluster_api_provider_nvi.Common.Dict.{Dict}
use cluster_api_provider_nvi.Common.Int.{ℤ}

pub record VpcCreateRequest : Type 0 where
  pub name : String
  pub site_id : String
  pub network_virtualization_type : Option String
  pub nvlink_logical_partition_id : Option String
  pub vni : Option ℤ
  pub description : Option String
  pub labels : Dict

pub record IpBlockCreateRequest : Type 0 where
  pub name : String
  pub prefix : String
  pub prefix_length : ℕ
  pub protocol_version : String
  pub routing_type : String
  pub site_id : String

pub record AllocationConstraintCreateRequest : Type 0 where
  pub resource_type : Option String
  pub resource_type_id : String
  pub constraint_type : String
  pub constraint_value : ℕ

pub record AllocationCreateRequest : Type 0 where
  pub name : String
  pub tenant_id : String
  pub site_id : String
  pub allocation_constraints : List AllocationConstraintCreateRequest

pub record SubnetCreateRequest : Type 0 where
  pub name : String
  pub vpc_id : String
  pub ipv4_block_id : Option String
  pub prefix_length : ℕ

pub record VpcPrefixCreateRequest : Type 0 where
  pub name : String
  pub vpc_id : String
  pub ip_block_id : Option String
  pub prefix_length : ℕ

pub record VpcPeeringCreateRequest : Type 0 where
  pub vpc1_id : String
  pub vpc2_id : String
  pub site_id : String

pub record NsgRuleRequest : Type 0 where
  pub name : Option String
  pub direction : String
  pub protocol : String
  pub action : String
  pub source_prefix : String
  pub destination_prefix : String
  pub destination_port_range : Option String

pub record NsgCreateRequest : Type 0 where
  pub name : String
  pub site_id : String
  pub rules : List NsgRuleRequest

-- A VPC, subnet, IP block, prefix, peering or security group: only its ID is read.
pub record Resource : Type 0 where
  pub id : Option String

pub record AllocationConstraint : Type 0 where
  pub resource_type : Option String
  pub derived_resource_id : Option String

pub record Allocation : Type 0 where
  pub id : Option String
  pub name : Option String
  pub allocation_constraints : List AllocationConstraint
