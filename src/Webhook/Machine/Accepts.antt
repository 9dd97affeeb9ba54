-- ===== src/Webhook/Machine/Accepts.antt =====
-- Which machines the webhook of api/v1beta1/nvidiacarbidemachine_webhook.go lets through.
use cluster_api_provider_nvi.Common.{
  ℕ, String, List, [], is_empty_iff, ◌≡◌, ◌≢◌, ◌↔◌, ◌⊎◌, arith, All,
}
use cluster_api_provider_nvi.Api.Machine.{
  NcxInfraMachineSpec, NetworkInterface, DpuExtensionServiceSpec, InfiniBandInterfaceSpec,
  NvLinkInterfaceSpec,
}
use cluster_api_provider_nvi.Webhook.Field.{
  PathElement, report_each, concat-eq-nil_iff, report_each-eq-nil_iff,
}
use cluster_api_provider_nvi.Webhook.Machine.{
  validate_attachment, validate_interface, validate_dpu, validate_infiniband, validate_nvlink,
  machine_errors, validate_machine,
}

-- Exactly one of two texts is given.
abbrev pub IsOneOf : String → String → Type 0
IsOneOf a b = ((a ≢ "") × (b ≡ "")) ⊎ ((a ≡ "") × (b ≢ ""))

-- What a machine must be, written without the validator.
pub record IsAcceptable (s : NcxInfraMachineSpec) : Type 0 where
  pub target : IsOneOf s.instance_type.id s.instance_type.machine_id
  pub primary : IsOneOf s.network.subnet_name s.network.vpc_prefix_name
  pub additional :
      All
        (λ (f : NetworkInterface). IsOneOf f.subnet_name f.vpc_prefix_name)
        s.network.additional_interfaces
  pub services : All (λ (d : DpuExtensionServiceSpec). d.service_id ≢ "") s.dpu_extension_services
  pub partitions :
      All (λ (d : InfiniBandInterfaceSpec). d.partition_id ≢ "") s.infiniband_interfaces
  pub links : All (λ (d : NvLinkInterfaceSpec). d.logical_partition_id ≢ "") s.nvlink_interfaces

validate_attachment-eq-nil_iff :
    (path : List PathElement) (a b : String) → (validate_attachment path a b ≡ []) ↔ IsOneOf a b
unfolding validate_attachment
validate_attachment-eq-nil_iff path a b = ground (arith, is_empty_iff a, is_empty_iff b)

validate_interface-eq-nil_iff :
    (i : ℕ) (f : NetworkInterface)
    → (validate_interface i f ≡ []) ↔ IsOneOf f.subnet_name f.vpc_prefix_name
unfolding validate_interface
validate_interface-eq-nil_iff i f =
    ground (arith, is_empty_iff f.subnet_name, is_empty_iff f.vpc_prefix_name)

validate_dpu-eq-nil_iff :
    (i : ℕ) (d : DpuExtensionServiceSpec) → (validate_dpu i d ≡ []) ↔ (d.service_id ≢ "")
unfolding validate_dpu
validate_dpu-eq-nil_iff i d = ground (arith, is_empty_iff d.service_id)

validate_infiniband-eq-nil_iff :
    (i : ℕ) (d : InfiniBandInterfaceSpec) → (validate_infiniband i d ≡ []) ↔ (d.partition_id ≢ "")
unfolding validate_infiniband
validate_infiniband-eq-nil_iff i d = ground (arith, is_empty_iff d.partition_id)

validate_nvlink-eq-nil_iff :
    (i : ℕ) (d : NvLinkInterfaceSpec) → (validate_nvlink i d ≡ []) ↔ (d.logical_partition_id ≢ "")
unfolding validate_nvlink
validate_nvlink-eq-nil_iff i d = ground (arith, is_empty_iff d.logical_partition_id)

module _ (s : NcxInfraMachineSpec) where
  abbrev interfaces_iff :
      (report_each validate_interface 0 s.network.additional_interfaces ≡ [])
      ↔ All
          (λ (f : NetworkInterface). IsOneOf f.subnet_name f.vpc_prefix_name)
          s.network.additional_interfaces
  interfaces_iff = report_each-eq-nil_iff validate_interface _ validate_interface-eq-nil_iff 0 _

  abbrev services_iff :
      (report_each validate_dpu 0 s.dpu_extension_services ≡ [])
      ↔ All (λ (d : DpuExtensionServiceSpec). d.service_id ≢ "") s.dpu_extension_services
  services_iff = report_each-eq-nil_iff validate_dpu _ validate_dpu-eq-nil_iff 0 _

  abbrev partitions_iff :
      (report_each validate_infiniband 0 s.infiniband_interfaces ≡ [])
      ↔ All (λ (d : InfiniBandInterfaceSpec). d.partition_id ≢ "") s.infiniband_interfaces
  partitions_iff = report_each-eq-nil_iff validate_infiniband _ validate_infiniband-eq-nil_iff 0 _

  abbrev links_iff :
      (report_each validate_nvlink 0 s.nvlink_interfaces ≡ [])
      ↔ All (λ (d : NvLinkInterfaceSpec). d.logical_partition_id ≢ "") s.nvlink_interfaces
  links_iff = report_each-eq-nil_iff validate_nvlink _ validate_nvlink-eq-nil_iff 0 _

  errors_iff : (validate_machine s ≡ []) ↔ All (λ xs. xs ≡ []) (machine_errors s)
  unfolding validate_machine
  errors_iff = concat-eq-nil_iff (machine_errors s)

  validate_machine-IsAcceptable : validate_machine s ≡ [] → IsAcceptable s
  unfolding machine_errors
  validate_machine-IsAcceptable e =
      let (a, (b, (c, (d, (f, (g, (h, _))))))) = errors_iff.0 e in
      record {
        target =
            ground
              (arith, is_empty_iff s.instance_type.id, is_empty_iff s.instance_type.machine_id);
        primary = (validate_attachment-eq-nil_iff _ _ _).0 c;
        additional = interfaces_iff.0 d;
        services = services_iff.0 f;
        partitions = partitions_iff.0 g;
        links = links_iff.0 h;
      }

  IsAcceptable-validate_machine : IsAcceptable s → validate_machine s ≡ []
  unfolding machine_errors
  IsAcceptable-validate_machine h = errors_iff.1 (
    ground (arith, is_empty_iff s.instance_type.id, is_empty_iff s.instance_type.machine_id),
    (
      ground (arith, is_empty_iff s.instance_type.id, is_empty_iff s.instance_type.machine_id),
      (
        (validate_attachment-eq-nil_iff _ _ _).1 h.primary,
        (
          interfaces_iff.1 h.additional,
          (services_iff.1 h.services, (partitions_iff.1 h.partitions, (links_iff.1 h.links, tt))),
        ),
      ),
    ),
  )

-- A machine is admitted exactly if it is acceptable: one of instance type and machine ID, one of
-- subnet and VPC prefix on the primary and on every additional interface, and no empty service,
-- partition or logical partition ID.
pub validate_machine_iff : (s : NcxInfraMachineSpec) → (validate_machine s ≡ []) ↔ IsAcceptable s
validate_machine_iff s = (validate_machine-IsAcceptable s, IsAcceptable-validate_machine s)
