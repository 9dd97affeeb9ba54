-- ===== src/Machine/Create.antt =====
-- `validateCapabilities`, `createInstance` and `findExistingInstance` of
-- internal/controller/ncxinframachine_controller.go.
pub mod Attempt
pub mod Made
pub mod Existing
pub mod Rejected
use cluster_api_provider_nvi.Common.{
  text_of, listed, is_nonempty, ℕ, String, Bool, true, false, not, ◌&&◌, ◌||◌, List, [], ◌∷◌,
  Option, none, some, is_empty, ◌==◌, ◌<>◌, if◌then◌else◌,
}
use cluster_api_provider_nvi.Common.Exec.{
  Outcome, ok, failed, panic, pure, fail, lift, gets, modify, ◌>>=◌, ◌>>◌, on_failure,
}
use cluster_api_provider_nvi.ApiError.{ApiError, classify_api_error, is_terminal}
use cluster_api_provider_nvi.Api.Meta.{Condition}
use cluster_api_provider_nvi.Api.Machine.{NcxInfraMachineSpec}
use cluster_api_provider_nvi.Sdk.{
  Site, Tenant, Instance, InstanceCreateRequest, InterfaceCreateRequest,
}
use cluster_api_provider_nvi.Sdk.Wire.{
  Reply, invoke, get_site, get_current_tenant, create_instance, get_all_instance,
}
use cluster_api_provider_nvi.Cluster.Scope.{site_id}
use cluster_api_provider_nvi.Cluster.Normal.{failure, success}
use cluster_api_provider_nvi.Machine.Scope.{
  MachineScope, MachineWorld, MachineExec, MachineError, MachineEnv, api, other, error_text, wrap,
  raise, on_cluster, mark, with_condition, record_event, record_api_metrics, annotate_console,
  set_instance_id, set_machine_id, set_instance_state, set_machine_failure,
}
use cluster_api_provider_nvi.Machine.Scope.Identity.{set_provider_id}
use cluster_api_provider_nvi.Machine.Scope.Bootstrap.{get_bootstrap_data}
use cluster_api_provider_nvi.Machine.Faults.{attempt, settle}
use cluster_api_provider_nvi.Machine.Interfaces.{build_interfaces}
use cluster_api_provider_nvi.Machine.Request.{apply_optional_instance_fields}

abbrev pub wrap_exec : {A : Type 0} → String → MachineExec A → MachineExec A
wrap_exec text m w = let (r, v) = m w in (wrap text r, v)

-- `p != nil && !*p`
abbrev is_denied : Option Bool → Bool
is_denied none = false
is_denied (some b) = not b

-- Whether the answer for the site rules NVLink out.
unfoldable pub refuses_nvlink : Reply Site → Bool
refuses_nvlink r = elim (r.err) [
  | some e ↦ false
  | none ↦ elim (r.value) [
    | none ↦ false
    | some site ↦ elim (site.capabilities) [ none ↦ false | some c ↦ is_denied c.nvlink_partition ]
  ]
]

unfoldable pub refuses_targets : Reply Tenant → Bool
refuses_targets r = elim (r.err) [
  | some e ↦ false
  | none ↦ elim (r.value) [ none ↦ false | some t ↦ is_denied t.targeted_instance_creation ]
]

-- The request before the optional fields.
unfoldable pub base_request :
    MachineScope → String → List InterfaceCreateRequest → InstanceCreateRequest
base_request s bootstrap interfaces = record {
  name = s.owner.name;
  tenant_id = s.cluster.spec.tenant_id;
  vpc_id = s.cluster.status.vpc_id;
  user_data = some bootstrap;
  interfaces = interfaces;
  ssh_key_group_ids = [];
  labels = [];
  instance_type_id = none;
  machine_id = none;
  allow_unhealthy_machine = none;
  operating_system_id = none;
  infiniband_interfaces = [];
  nvlink_interfaces = [];
  dpu_extension_service_deployments = [];
  description = none;
  always_boot_with_custom_ipxe = none;
  phone_home_enabled = none;
}

unfoldable pub instance_request :
    MachineScope → String → List InterfaceCreateRequest → InstanceCreateRequest
unfolding base_request apply_optional_instance_fields
instance_request s bootstrap interfaces =
    apply_optional_instance_fields s.machine.spec (base_request s bootstrap interfaces)

-- What an API error leaves in the status.
unfoldable pub reject_creation : ApiError → MachineExec (Unit {0})
unfolding is_terminal set_machine_failure
reject_creation x = do
  if is_terminal x then set_machine_failure "CreateInstanceFailed" x.message else pure tt
  fail (api x)

abbrev pub has_name : String → Instance → Bool
has_name name i = elim (i.name) [ none ↦ false | some n ↦ n == name ]

unfoldable pub find_instance : String → List Instance → Option Instance
find_instance name [] = none
find_instance name (i ∷ more) =
    let rest = find_instance name more in if has_name name i then some i else rest

module _ {U : Type 0} (e : MachineEnv U) where
  -- The test on the site: an error on the way passes.
  unfoldable pub validate_site : NcxInfraMachineSpec → MachineExec (Unit {0})
  unfolding refuses_nvlink invoke site_id
  validate_site spec =
      if is_nonempty spec.nvlink_interfaces || is_nonempty spec.infiniband_interfaces
      then attempt (on_cluster (site_id (e.env)))
          (λ site. do
            r ← invoke e.env.cloud (get_site site)
            if is_nonempty spec.nvlink_interfaces && refuses_nvlink r
                then fail (other ("site " <> site <> " does not support NVLink partitioning"))
                else pure tt)
          (pure tt)
      else pure tt

  unfoldable pub validate_tenant : NcxInfraMachineSpec → MachineExec (Unit {0})
  unfolding refuses_targets invoke
  validate_tenant spec = if is_empty spec.instance_type.machine_id then pure tt else (do
    r ← invoke e.env.cloud get_current_tenant
    if refuses_targets r
        then fail
            (other "tenant does not have targeted instance creation enabled; cannot use machineID")
        else pure tt)

  unfoldable pub validate_capabilities : MachineExec (Unit {0})
  unfolding validate_site validate_tenant
  validate_capabilities = do
    spec ← gets (λ w. w.object.machine.spec)
    validate_site spec
    validate_tenant spec

  -- The bootstrap data, with the condition that tells whether they are there.
  unfoldable pub fetch_bootstrap_data : MachineExec String
  unfolding get_bootstrap_data on_failure mark
  fetch_bootstrap_data = do
    owner ← gets (λ w. w.object.owner)
    bootstrap ← wrap_exec "failed to get bootstrap data" (
        on_failure
          (λ x.
            with_condition e.env.kube
              (failure "BootstrapDataApplied" "BootstrapDataFailed" (error_text x)))
          (raise (get_bootstrap_data e.secrets owner)))
    mark e.env.kube (success "BootstrapDataApplied" "BootstrapDataReady")
    pure bootstrap

  -- The instance that was created goes into the status.
  unfoldable pub adopt_created : String → Option Instance → MachineExec (Unit {0})
  unfolding annotate_console set_instance_id set_machine_id set_instance_state set_provider_id
      record_event
  adopt_created site none = fail (other "instance ID missing in response")
  adopt_created site (some i) = elim (i.id) [
    | none ↦ fail (other "instance ID missing in response")
    | some id ↦ do
      annotate_console i.serial_console_url
      set_instance_id id
      set_machine_id (text_of i.machine_id)
      set_instance_state (text_of i.status)
      tenant ← gets (λ w. w.object.cluster.spec.tenant_id)
      wrap_exec "failed to set provider ID" (set_provider_id e tenant site id)
      record_event e.env false "InstanceCreated" ("Successfully created instance " <> id)
  ]

  unfoldable pub receive_created : String → Reply Instance → MachineExec (Unit {0})
  unfolding classify_api_error record_api_metrics reject_creation adopt_created
  receive_created site r = do
    let x = classify_api_error r.http r.err "CreateInstance"
    record_api_metrics "CreateInstance" x
    elim x [ some x ↦ reject_creation x | none ↦ adopt_created site r.value ]

  -- `createInstance`
  unfoldable pub make_instance : MachineExec (Unit {0})
  unfolding fetch_bootstrap_data validate_capabilities site_id build_interfaces instance_request
      receive_created invoke
  make_instance = do
    bootstrap ← fetch_bootstrap_data
    validate_capabilities
    site ← wrap_exec "failed to get site ID" (on_cluster (site_id (e.env)))
    s ← gets (λ w. w.object)
    interfaces ← raise (build_interfaces s)
    r ← invoke e.env.cloud (create_instance (instance_request s bootstrap interfaces))
    receive_created site r

  -- `findExistingInstance`
  unfoldable pub find_existing_instance : MachineExec (Option Instance)
  unfolding find_instance invoke
  find_existing_instance = do
    name ← gets (λ w. w.object.owner.name)
    r ← invoke e.env.cloud get_all_instance
    elim (r.err) [ some x ↦ fail (other x) | none ↦ pure (find_instance name (listed r.value)) ]
