-- ===== src/Api/Machine.antt =====
-- api/v1beta1/ncxinframachine_types.go
use cluster_api_provider_nvi.Common.{String, Bool, List, Option}
use cluster_api_provider_nvi.Common.Dict.{Dict}
use cluster_api_provider_nvi.Common.Int.{ℤ}
use cluster_api_provider_nvi.Api.Meta.{ObjectMeta, Condition}

pub record InfiniBandInterfaceSpec : Type 0 where
  pub partition_id : String
  pub device : String
  pub device_instance : Option ℤ
  pub is_physical : Bool

pub record NvLinkInterfaceSpec : Type 0 where
  pub logical_partition_id : String
  pub device_instance : Option ℤ

pub record DpuExtensionServiceSpec : Type 0 where
  pub service_id : String
  pub version : String

pub record InstanceTypeSpec : Type 0 where
  pub id : String
  pub machine_id : String
  pub allow_unhealthy_machine : Bool

pub record OsSpec : Type 0 where
  pub id : String
  pub kind : String
  pub version : String

pub record NetworkInterface : Type 0 where
  pub subnet_name : String
  pub vpc_prefix_name : String
  pub ip_address : String
  pub is_physical : Bool

pub record NetworkSpec : Type 0 where
  pub subnet_name : String
  pub vpc_prefix_name : String
  pub ip_address : String
  pub additional_interfaces : List NetworkInterface

pub record NcxInfraMachineSpec : Type 0 where
  pub provider_id : Option String
  pub instance_type : InstanceTypeSpec
  pub operating_system : Option OsSpec
  pub network : NetworkSpec
  pub ssh_key_groups : List String
  pub infiniband_interfaces : List InfiniBandInterfaceSpec
  pub nvlink_interfaces : List NvLinkInterfaceSpec
  pub dpu_extension_services : List DpuExtensionServiceSpec
  pub labels : Dict
  pub description : String
  pub always_boot_with_custom_ipxe : Bool
  pub phone_home_enabled : Option Bool

-- An address is its text: the code only makes internal IPs.
pub record NcxInfraMachineStatus : Type 0 where
  pub ready : Bool
  pub instance_id : String
  pub machine_id : String
  pub instance_state : String
  pub provider_id : Option String
  pub addresses : List String
  pub failure_reason : Option String
  pub failure_message : Option String
  pub conditions : List Condition

pub record NcxInfraMachine : Type 0 where
  pub meta : ObjectMeta
  pub spec : NcxInfraMachineSpec
  pub status : NcxInfraMachineStatus
