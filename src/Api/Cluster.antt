-- ===== src/Api/Cluster.antt =====
-- api/v1beta1/ncxinfracluster_types.go
use cluster_api_provider_nvi.Common.{String, Bool, List, Option}
use cluster_api_provider_nvi.Common.Dict.{Dict}
use cluster_api_provider_nvi.Common.Int.{ℤ}
use cluster_api_provider_nvi.Api.Meta.{ObjectMeta, Condition, ApiEndpoint}

pub record SiteReference : Type 0 where
  pub name : String
  pub id : String

pub record NsgRule : Type 0 where
  pub name : String
  pub direction : String
  pub protocol : String
  pub port_range : String
  pub source_cidr : String
  pub action : String

pub record NsgSpec : Type 0 where
  pub name : String
  pub rules : List NsgRule

pub record VpcSpec : Type 0 where
  pub name : String
  pub network_virtualization_type : String
  pub labels : Dict
  pub network_security_group : Option NsgSpec
  pub nvlink_logical_partition_id : String
  pub vni : Option ℤ
  pub description : String

pub record SubnetSpec : Type 0 where
  pub name : String
  pub cidr : String
  pub role : String
  pub labels : Dict

pub record VpcPrefixSpec : Type 0 where
  pub name : String
  pub cidr : String
  pub role : String

pub record VpcPeeringSpec : Type 0 where
  pub peer_vpc_id : String

-- `AuthenticationSpec`, its `corev1.SecretReference` written out.
pub record AuthenticationSpec : Type 0 where
  pub secret_name : String
  pub secret_namespace : String

pub record NcxInfraClusterSpec : Type 0 where
  pub site_ref : SiteReference
  pub tenant_id : String
  pub vpc : VpcSpec
  pub subnets : List SubnetSpec
  pub vpc_prefixes : List VpcPrefixSpec
  pub vpc_peerings : List VpcPeeringSpec
  pub control_plane_endpoint : Option ApiEndpoint
  pub authentication : AuthenticationSpec

pub record NetworkStatus : Type 0 where
  pub subnet_ids : Dict
  pub vpc_prefix_ids : Dict
  pub vpc_peering_ids : Dict
  pub nsg_id : String
  pub ip_block_id : String
  pub allocation_id : String
  pub child_ip_block_id : String

pub record NcxInfraClusterStatus : Type 0 where
  pub ready : Bool
  pub vpc_id : String
  pub network_status : NetworkStatus
  pub failure_reason : Option String
  pub failure_message : Option String
  pub conditions : List Condition

pub record NcxInfraCluster : Type 0 where
  pub meta : ObjectMeta
  pub spec : NcxInfraClusterSpec
  pub status : NcxInfraClusterStatus
