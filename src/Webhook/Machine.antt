-- ===== src/Webhook/Machine.antt =====
-- api/v1beta1/nvidiacarbidemachine_webhook.go: creation and update are validated alike.
pub mod Accepts
use cluster_api_provider_nvi.Common.{
  ℕ, String, Bool, true, false, not, ◌&&◌, List, [], ◌∷◌, ◌++◌, is_empty,
}
use cluster_api_provider_nvi.Api.Machine.{
  NcxInfraMachineSpec, NetworkInterface, DpuExtensionServiceSpec, InfiniBandInterfaceSpec,
  NvLinkInterfaceSpec,
}
use cluster_api_provider_nvi.Webhook.Field.{
  PathElement, child, index, FieldErrorType, required, forbidden, FieldError, report, report_each,
  concat,
}

abbrev error : FieldErrorType → List PathElement → String → FieldError
error kind path detail = record { error_type = kind; path = path; detail = detail }

-- Exactly one of a subnet and a VPC prefix: the two tests on the primary interface, and on each
-- additional one.
unfoldable pub validate_attachment : List PathElement → String → String → List FieldError
validate_attachment path subnet prefix =
    report (is_empty subnet && is_empty prefix)
      (error required path "one of subnetName or vpcPrefixName must be specified")
    ++ report (not (is_empty subnet) && not (is_empty prefix))
        (error forbidden path "subnetName and vpcPrefixName are mutually exclusive")

unfoldable pub validate_interface : ℕ → NetworkInterface → List FieldError
unfolding validate_attachment
validate_interface i f =
    validate_attachment
      (child "spec" ∷ child "network" ∷ child "additionalInterfaces" ∷ index i ∷ []) f.subnet_name
      f.vpc_prefix_name

unfoldable pub validate_dpu : ℕ → DpuExtensionServiceSpec → List FieldError
validate_dpu i d = report (is_empty d.service_id) (
    error required (child "spec" ∷ child "dpuExtensionServices" ∷ index i ∷ child "serviceID" ∷ [])
      "DPU extension service ID must not be empty")

unfoldable pub validate_infiniband : ℕ → InfiniBandInterfaceSpec → List FieldError
validate_infiniband i d = report (is_empty d.partition_id) (
    error required
      (child "spec" ∷ child "infiniBandInterfaces" ∷ index i ∷ child "partitionID" ∷ [])
      "InfiniBand partition ID must not be empty")

unfoldable pub validate_nvlink : ℕ → NvLinkInterfaceSpec → List FieldError
validate_nvlink i d = report (is_empty d.logical_partition_id) (
    error required
      (child "spec" ∷ child "nvlinkInterfaces" ∷ index i ∷ child "logicalPartitionID" ∷ [])
      "NVLink logical partition ID must not be empty")

-- The errors of `validateMachine`, part by part.
unfoldable pub machine_errors : NcxInfraMachineSpec → List (List FieldError)
machine_errors s =
    report (not (is_empty s.instance_type.id) && not (is_empty s.instance_type.machine_id)) (
      error forbidden (child "spec" ∷ child "instanceType" ∷ [])
        "id and machineID are mutually exclusive")
    ∷ report (is_empty s.instance_type.id && is_empty s.instance_type.machine_id) (
        error required (child "spec" ∷ child "instanceType" ∷ [])
          "one of id or machineID must be specified")
    ∷ validate_attachment (child "spec" ∷ child "network" ∷ []) s.network.subnet_name
        s.network.vpc_prefix_name
    ∷ report_each validate_interface 0 s.network.additional_interfaces
    ∷ report_each validate_dpu 0 s.dpu_extension_services
    ∷ report_each validate_infiniband 0 s.infiniband_interfaces
    ∷ report_each validate_nvlink 0 s.nvlink_interfaces
    ∷ []

-- `validateMachine`
unfoldable pub validate_machine : NcxInfraMachineSpec → List FieldError
unfolding concat machine_errors validate_attachment validate_interface validate_dpu
    validate_infiniband validate_nvlink
validate_machine s = concat (machine_errors s)
