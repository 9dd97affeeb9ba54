-- ===== src/Sdk/Instances.antt =====
-- The requests and answers of the instance part of the SDK: the fields that the code writes or reads.
use cluster_api_provider_nvi.Common.{String, Bool, List, Option}
use cluster_api_provider_nvi.Common.Dict.{Dict}
use cluster_api_provider_nvi.Common.Int.{ℤ}

pub record InterfaceCreateRequest : Type 0 where
  pub subnet_id : Option String
  pub vpc_prefix_id : Option String
  pub is_physical : Option Bool
  pub ip_address : Option String

pub record InfiniBandInterfaceCreateRequest : Type 0 where
  pub partition_id : Option String
  pub device : Option String
  pub device_instance : Option ℤ
  pub is_physical : Option Bool

pub record NvLinkInterfaceCreateRequest : Type 0 where
  pub logical_partition_id : Option String
  pub device_instance : Option ℤ

pub record DpuExtensionServiceDeploymentRequest : Type 0 where
  pub service_id : Option String
  pub version : Option String

pub record InstanceCreateRequest : Type 0 where
  pub name : String
  pub tenant_id : String
  pub vpc_id : String
  pub user_data : Option String
  pub interfaces : List InterfaceCreateRequest
  pub ssh_key_group_ids : List String
  pub labels : Dict
  pub instance_type_id : Option String
  pub machine_id : Option String
  pub allow_unhealthy_machine : Option Bool
  pub operating_system_id : Option String
  pub infiniband_interfaces : List InfiniBandInterfaceCreateRequest
  pub nvlink_interfaces : List NvLinkInterfaceCreateRequest
  pub dpu_extension_service_deployments : List DpuExtensionServiceDeploymentRequest
  pub description : Option String
  pub always_boot_with_custom_ipxe : Option Bool
  pub phone_home_enabled : Option Bool

pub record InstanceUpdateRequest : Type 0 where
  pub ssh_key_group_ids : List String
  pub labels : Dict
  pub dpu_extension_service_deployments : List DpuExtensionServiceDeploymentRequest

-- `created` tells whether a creation time is there; the time itself only feeds a histogram.
pub record Instance : Type 0 where
  pub id : Option String
  pub name : Option String
  pub machine_id : Option String
  pub status : Option String
  pub serial_console_url : Option String
  pub interfaces : List (List String)
  pub ssh_key_group_ids : List String
  pub labels : Dict
  pub created : Bool

pub record SiteCapabilities : Type 0 where
  pub nvlink_partition : Option Bool
  pub fault_management : Option Bool

pub record Site : Type 0 where
  pub id : Option String
  pub name : Option String
  pub capabilities : Option SiteCapabilities

-- A tenant by its capability `TargetedInstanceCreation`, none for absent capabilities.
pub record Tenant : Type 0 where
  pub targeted_instance_creation : Option Bool

pub record FaultEvent : Type 0 where
  pub machine_id : Option String
  pub classification : Option String
  pub message : Option String
  pub state : Option String
  pub severity : Option String
  pub remediation_workflow_id : Option String

pub record HealthAlert : Type 0 where
  pub id : Option String
  pub message : Option String

-- A physical machine by the alerts of its health record, none for an absent one.
pub record PhysicalMachine : Type 0 where
  pub alerts : Option (List HealthAlert)

pub record StatusDetail : Type 0 where
  pub status : Option String
  pub message : Option String
