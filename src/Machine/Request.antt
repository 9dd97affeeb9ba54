-- ===== src/Machine/Request.antt =====
-- `applyOptionalInstanceFields` of internal/controller/ncxinframachine_controller.go: the optional
-- fields of the create request. A field that the code leaves alone keeps what the request had.
use cluster_api_provider_nvi.Common.{
  String, Bool, true, false, List, [], ◌∷◌, map, Option, none, some, is_empty, if◌then◌else◌,
}
use cluster_api_provider_nvi.Api.Machine.{
  NcxInfraMachineSpec, InfiniBandInterfaceSpec, NvLinkInterfaceSpec, DpuExtensionServiceSpec,
  OsSpec,
}
use cluster_api_provider_nvi.Sdk.{
  InstanceCreateRequest, InfiniBandInterfaceCreateRequest, NvLinkInterfaceCreateRequest,
  DpuExtensionServiceDeploymentRequest,
}
use cluster_api_provider_nvi.Cluster.Vpc.{optional}

abbrev pub given : Bool → Option Bool
given true = some true
given false = none

abbrev text_or : String → Option String → Option String
text_or s old = if is_empty s then old else some s

-- `if len(xs) > 0`
abbrev pub list_or : {A B : Type 0} → List A → List B → List B → List B
list_or [] new old = old
list_or (x ∷ xs) new old = new

unfoldable pub infiniband_request : InfiniBandInterfaceSpec → InfiniBandInterfaceCreateRequest
infiniband_request s = record {
  partition_id = some s.partition_id;
  device = optional s.device;
  device_instance = s.device_instance;
  is_physical = given s.is_physical;
}

unfoldable pub nvlink_request : NvLinkInterfaceSpec → NvLinkInterfaceCreateRequest
nvlink_request s = record {
  logical_partition_id = some s.logical_partition_id;
  device_instance = s.device_instance;
}

unfoldable pub dpu_request : DpuExtensionServiceSpec → DpuExtensionServiceDeploymentRequest
dpu_request s = record { service_id = some s.service_id; version = optional s.version }

abbrev os_id : Option OsSpec → Option String → Option String
os_id none old = old
os_id (some os) old = text_or os.id old

-- The default is to phone home.
abbrev phone_home : Option Bool → Option Bool
phone_home none = some true
phone_home (some b) = some b

unfoldable pub apply_optional_instance_fields :
    NcxInfraMachineSpec → InstanceCreateRequest → InstanceCreateRequest
unfolding infiniband_request nvlink_request dpu_request
apply_optional_instance_fields s req = record req {
  ssh_key_group_ids = list_or s.ssh_key_groups s.ssh_key_groups req.ssh_key_group_ids;
  labels = list_or s.labels s.labels req.labels;
  instance_type_id = text_or s.instance_type.id req.instance_type_id;
  machine_id = text_or s.instance_type.machine_id req.machine_id;
  allow_unhealthy_machine =
      (if s.instance_type.allow_unhealthy_machine then some true else req.allow_unhealthy_machine);
  operating_system_id = os_id s.operating_system req.operating_system_id;
  infiniband_interfaces =
      list_or s.infiniband_interfaces (map infiniband_request s.infiniband_interfaces)
        req.infiniband_interfaces;
  nvlink_interfaces =
      list_or s.nvlink_interfaces (map nvlink_request s.nvlink_interfaces) req.nvlink_interfaces;
  dpu_extension_service_deployments =
      list_or s.dpu_extension_services (map dpu_request s.dpu_extension_services)
        req.dpu_extension_service_deployments;
  description = text_or s.description req.description;
  always_boot_with_custom_ipxe =
      (if s.always_boot_with_custom_ipxe then some true else req.always_boot_with_custom_ipxe);
  phone_home_enabled = phone_home s.phone_home_enabled;
}
