-- ===== src/Machine/Interfaces.antt =====
-- `buildInterfaces` of internal/controller/ncxinframachine_controller.go.
pub mod Resolved
pub mod Provisioned
use cluster_api_provider_nvi.Common.{
  String, Bool, false, List, [], ◌∷◌, none, some, is_empty, ◌<>◌, if◌then◌else◌,
}
use cluster_api_provider_nvi.Common.Dict.{lookup}
use cluster_api_provider_nvi.Common.Exec.{Outcome, ok, failed, panic}
use cluster_api_provider_nvi.Api.Cluster.{NetworkStatus}
use cluster_api_provider_nvi.Api.Machine.{NetworkInterface}
use cluster_api_provider_nvi.Sdk.{InterfaceCreateRequest}
use cluster_api_provider_nvi.Cluster.Subnets.{wrap}
use cluster_api_provider_nvi.Cluster.Vpc.{optional}
use cluster_api_provider_nvi.Machine.Scope.{MachineScope, get_subnet_id, get_vpc_prefix_id}

abbrev pub on_prefix : String → String → InterfaceCreateRequest
on_prefix id ip = record {
  subnet_id = none;
  vpc_prefix_id = some id;
  is_physical = none;
  ip_address = optional ip;
}

abbrev pub on_subnet : String → Bool → InterfaceCreateRequest
on_subnet id physical = record {
  subnet_id = some id;
  vpc_prefix_id = none;
  is_physical = some physical;
  ip_address = none;
}

abbrev map_ok : {A B : Type 0} → (A → B) → Outcome String A → Outcome String B
map_ok f (ok a) = ok (f a)
map_ok f (failed e) = failed e
map_ok f panic = panic

unfoldable pub primary_interface : MachineScope → Outcome String InterfaceCreateRequest
unfolding get_subnet_id get_vpc_prefix_id
primary_interface s =
    let net = s.machine.spec.network in
    if is_empty net.vpc_prefix_name
    then map_ok (λ id. on_subnet id false) (wrap "failed to get subnet ID" (get_subnet_id s))
    else map_ok (λ id. on_prefix id net.ip_address)
        (wrap "failed to get VPC prefix ID" (get_vpc_prefix_id s))

-- The body of the loop over the additional interfaces.
unfoldable pub additional_interface :
    NetworkStatus → NetworkInterface → Outcome String InterfaceCreateRequest
additional_interface net f =
    if is_empty f.vpc_prefix_name
    then elim (lookup f.subnet_name net.subnet_ids) [
      | none ↦ failed ("subnet " <> f.subnet_name <> " not found in cluster status")
      | some id ↦ ok (on_subnet id f.is_physical)
    ]
    else elim (lookup f.vpc_prefix_name net.vpc_prefix_ids) [
      | none ↦ failed ("VPC prefix " <> f.vpc_prefix_name <> " not found in cluster status")
      | some id ↦ ok (on_prefix id f.ip_address)
    ]

-- The first error of the interfaces, or all of them.
abbrev pub cons_ok :
    {A : Type 0} → Outcome String A → Outcome String (List A) → Outcome String (List A)
cons_ok (ok x) (ok xs) = ok (x ∷ xs)
cons_ok (ok x) (failed e) = failed e
cons_ok (ok x) panic = panic
cons_ok (failed e) rest = failed e
cons_ok panic rest = panic

unfoldable pub additional_interfaces :
    NetworkStatus → List NetworkInterface → Outcome String (List InterfaceCreateRequest)
unfolding additional_interface
additional_interfaces net [] = ok []
additional_interfaces net (f ∷ fs) =
    cons_ok (additional_interface net f) (additional_interfaces net fs)

unfoldable pub build_interfaces : MachineScope → Outcome String (List InterfaceCreateRequest)
unfolding primary_interface additional_interfaces
build_interfaces s = cons_ok (primary_interface s) (
    additional_interfaces s.cluster.status.network_status
      s.machine.spec.network.additional_interfaces)
