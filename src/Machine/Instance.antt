-- ===== src/Machine/Instance.antt =====
-- `reconcileInstance` and `handleInstanceReady` of
-- internal/controller/ncxinframachine_controller.go. The histogram of provisioning times is left out.
pub mod Verdict
pub mod Ready
use cluster_api_provider_nvi.Common.{
  text_of, ℕ, String, Bool, true, false, ◌&&◌, ◌||◌, List, [], ◌∷◌, ◌++◌, Option, none, some,
  is_empty, nat_eq, ◌==◌, ◌<>◌, if◌then◌else◌,
}
use cluster_api_provider_nvi.Common.Exec.{pure, fail, gets, modify, ◌>>=◌, ◌>>◌}
use cluster_api_provider_nvi.ApiError.{ApiError, classify_api_error, is_terminal, is_not_found}
use cluster_api_provider_nvi.Api.Meta.{ApiEndpoint, ReconcileResult}
use cluster_api_provider_nvi.Sdk.{Instance}
use cluster_api_provider_nvi.Sdk.Wire.{
  Reply, invoke, get_instance, update_instance, machines_managed_inc,
}
use cluster_api_provider_nvi.Kube.{Env}
use cluster_api_provider_nvi.Cluster.Normal.{failure, success, done}
use cluster_api_provider_nvi.Machine.Scope.{
  MachineWorld, MachineExec, api, other, mark, record_event, record_api_metrics, count_metric,
  annotate_console, instance_id, set_machine_id, set_instance_state, set_addresses, set_ready,
  is_control_plane, set_machine_failure,
}
use cluster_api_provider_nvi.Machine.Faults.{
  has_fault_management, update_health_conditions, get_machine_health_message, expose_status_history,
}
use cluster_api_provider_nvi.Machine.Update.{build_update_request}

abbrev pub requeue_after : ℕ → ReconcileResult
requeue_after n = record { requeue = false; requeue_after = n }

-- `if p != nil { set(*p) }`
abbrev pub for_some : Option String → (String → MachineExec (Unit {0})) → MachineExec (Unit {0})
for_some none f = pure tt
for_some (some s) f = f s

-- The two loops that collect the addresses of the interfaces.
unfoldable pub instance_addresses : List (List String) → List String
instance_addresses [] = []
instance_addresses (ips ∷ more) = ips ++ instance_addresses more

unfoldable pub publish_addresses : Env → List String → MachineExec (Unit {0})
unfolding set_addresses mark
publish_addresses env [] = pure tt
publish_addresses env (a ∷ addresses) = do
  set_addresses (a ∷ addresses)
  mark env.kube (success "NetworkConfigured" "NetworkReady")

-- The update call, and the event that tells how it went.
unfoldable pub apply_updates : Env → Instance → MachineExec (Unit {0})
unfolding build_update_request instance_id record_event invoke
apply_updates env i = do
  spec ← gets (λ w. w.object.machine.spec)
  let (req, needed) = build_update_request spec i
  if needed
      then (do
        id ← gets instance_id
        r ← invoke env.cloud (update_instance id req)
        elim (r.err) [
          | some x ↦
              record_event env true "UpdateFailed" ("Failed to update instance " <> id <> ": " <> x)
          | none ↦ record_event env false "InstanceUpdated" ("Successfully updated instance " <> id)
        ])
      else pure tt

abbrev lacks_host : Option ApiEndpoint → Bool
lacks_host none = true
lacks_host (some p) = is_empty p.host

-- The port that is set, or else 6443.
abbrev endpoint_port : Option ApiEndpoint → ℕ
endpoint_port none = 6443
endpoint_port (some p) = if nat_eq p.port 0 then 6443 else p.port

abbrev pub with_endpoint : ApiEndpoint → MachineWorld → MachineWorld
with_endpoint p w =
    let s = w.object in
    let c = s.cluster in
    let spec = c.spec in
    record w {
      object = record s {
        cluster = record c { spec = record spec { control_plane_endpoint = some p } };
      };
    }

unfoldable pub set_endpoint : List String → MachineExec (Unit {0})
set_endpoint [] = pure tt
set_endpoint (host ∷ more) = modify (λ w.
    with_endpoint
      (record { host = host; port = endpoint_port w.object.cluster.spec.control_plane_endpoint }) w)

-- The endpoint of the cluster in memory, if this is a control plane and none is configured.
unfoldable pub offer_endpoint : List String → MachineExec (Unit {0})
unfolding is_control_plane set_endpoint
offer_endpoint addresses = do
  control ← gets is_control_plane
  endpoint ← gets (λ w. w.object.cluster.spec.control_plane_endpoint)
  if control && lacks_host endpoint then set_endpoint addresses else pure tt

unfoldable pub handle_instance_ready : Env → Instance → List String → MachineExec ReconcileResult
unfolding set_ready count_metric mark apply_updates offer_endpoint record_event
handle_instance_ready env i addresses = do
  set_ready true
  count_metric machines_managed_inc
  mark env.kube (failure "InstanceProvisioning" "ProvisioningComplete" "")
  mark env.kube (success "Ready" "NcxInfraMachineReady")
  apply_updates env i
  offer_endpoint addresses
  record_event env false "InstanceReady" ("Instance " <> text_of i.id <> " is ready")
  pure done

-- The failure of an instance in the state `Error`, with the faults of its machine where they are known.
unfoldable pub report_error : Env → String → MachineExec (Unit {0})
unfolding has_fault_management get_machine_health_message set_machine_failure
report_error env id = do
  supported ← has_fault_management env
  health ← if supported then get_machine_health_message env else pure ""
  if is_empty health
      then set_machine_failure "ProvisioningFailed" ("Instance " <> id <> " is in Error state")
      else set_machine_failure "UpdateError" ("Instance " <> id <> " is in Error state: " <> health)

-- An instance that is not ready.
unfoldable pub await_instance : Env → Instance → MachineExec ReconcileResult
unfolding expose_status_history report_error mark
await_instance env i = do
  let status = text_of i.status
  if status == "Error" || status == "Provisioning" then expose_status_history env else pure tt
  if status == "Error" then report_error env (text_of i.id) else pure tt
  mark env.kube (record {
    kind = "InstanceProvisioning";
    status = true;
    reason = "WaitingForReady";
    message = "Instance " <> text_of i.id <> " is in state " <> status;
  })
  pure (requeue_after 30)

abbrev pub is_ready_status : Option String → Bool
is_ready_status none = false
is_ready_status (some s) = s == "Ready"

unfoldable pub observe_instance : Env → Instance → MachineExec (Unit {0})
unfolding set_instance_state annotate_console set_machine_id instance_addresses publish_addresses
observe_instance env i = do
  for_some i.status set_instance_state
  annotate_console i.serial_console_url
  for_some i.machine_id set_machine_id
  publish_addresses env (instance_addresses i.interfaces)

-- What follows the answer that has an instance.
unfoldable pub follow_instance : Env → Instance → MachineExec ReconcileResult
unfolding observe_instance has_fault_management update_health_conditions handle_instance_ready
    await_instance
follow_instance env i = do
  observe_instance env i
  supported ← has_fault_management env
  if supported then update_health_conditions env else pure tt
  if is_ready_status i.status
      then handle_instance_ready env i (instance_addresses i.interfaces)
      else await_instance env i

-- What follows an API error.
unfoldable pub follow_error : String → ApiError → MachineExec ReconcileResult
unfolding is_not_found is_terminal set_machine_failure
follow_error id x =
    if is_not_found x
    then (do
      set_machine_failure "InstanceNotFound" ("Instance " <> id <> " no longer exists")
      pure done)
    else if is_terminal x
    then fail (api x)
    else pure (requeue_after 10)

unfoldable pub follow_reply : Env → String → Reply Instance → MachineExec ReconcileResult
unfolding follow_error follow_instance classify_api_error record_api_metrics
follow_reply env id r = do
  let x = classify_api_error r.http r.err "GetInstance"
  record_api_metrics "GetInstance" x
  elim x [
    | some x ↦ follow_error id x
    | none ↦ elim (r.value) [
      | none ↦ fail (other ("instance response is nil for " <> id))
      | some i ↦ follow_instance env i
    ]
  ]

unfoldable pub reconcile_instance : Env → MachineExec ReconcileResult
unfolding instance_id follow_reply invoke
reconcile_instance env = do
  id ← gets instance_id
  r ← invoke env.cloud (get_instance id)
  follow_reply env id r
