-- ===== src/Tests/Admission.antt =====
-- Objects before the webhooks.
use cluster_api_provider_nvi.Common.{true, false, none, [], ◌∷◌, ◌≡◌, ◌↔◌, refl}
use cluster_api_provider_nvi.Api.Cluster.{NcxInfraClusterSpec}
use cluster_api_provider_nvi.Api.Machine.{NcxInfraMachineSpec}
use cluster_api_provider_nvi.Cidr.{net_parse_cidr}
use cluster_api_provider_nvi.Webhook.Field.{child, index, invalid, forbidden}
use cluster_api_provider_nvi.Webhook.Cluster.{validate_create, validate_update, validate_cidr}
use cluster_api_provider_nvi.Webhook.Cluster.Accepts
use cluster_api_provider_nvi.Webhook.Machine.{validate_machine}
use cluster_api_provider_nvi.Webhook.Machine.Accepts as Machine
use cluster_api_provider_nvi.Tests.Fixtures.{spec, subnet}

-- Another VPC name and a CIDR with a prefix of 33 bits.
abbrev changed : NcxInfraClusterSpec
changed = record spec {
  vpc = record (spec.vpc) { name = "other" };
  subnets = (record subnet { cidr = "10.0.1.0/33" }) ∷ [];
}

abbrev machine : NcxInfraMachineSpec
machine = record {
  provider_id = none;
  instance_type = record { id = "type-1"; machine_id = ""; allow_unhealthy_machine = false };
  operating_system = none;
  network = record {
    subnet_name = "workers";
    vpc_prefix_name = "";
    ip_address = "";
    additional_interfaces =
        (record { subnet_name = ""; vpc_prefix_name = "p"; ip_address = ""; is_physical = true })
        ∷ [];
  };
  ssh_key_groups = [];
  infiniband_interfaces = [];
  nvlink_interfaces = [];
  dpu_extension_services = [];
  labels = [];
  description = "";
  always_boot_with_custom_ipxe = false;
  phone_home_enabled = none;
}

validate_create_iff_example : (validate_create spec ≡ []) ↔ Accepts.IsAcceptable spec
validate_create_iff_example = Accepts.validate_create_iff spec

validate_update_iff_example :
    (validate_update spec changed ≡ [])
    ↔ (Accepts.IsAcceptable changed × Accepts.IsUnmoved spec changed)
validate_update_iff_example = Accepts.validate_update_iff spec changed

validate_machine_iff_example : (validate_machine machine ≡ []) ↔ Machine.IsAcceptable machine
validate_machine_iff_example = Machine.validate_machine_iff machine

refused_update :
    validate_update spec changed
    ≡ (record {
      error_type = invalid;
      path = child "spec" ∷ child "subnets" ∷ index 0 ∷ child "cidr" ∷ [];
      detail = "invalid CIDR";
    })
      ∷ (record {
        error_type = forbidden;
        path = child "spec" ∷ child "vpc" ∷ child "name" ∷ [];
        detail = "field is immutable after creation";
      })
      ∷ []
unfolding validate_update validate_cidr net_parse_cidr
refused_update = refl
