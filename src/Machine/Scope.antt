-- ===== src/Machine/Scope.antt =====
-- The methods of MachineScope in pkg/scope/machine.go, and the error values, events and metrics of
-- internal/controller/ncxinframachine_controller.go. A run holds three objects: the NcxInfraMachine,
-- the Machine that owns it and the NcxInfraCluster.
pub mod Identity
pub mod Bootstrap
pub mod ProviderIds
use cluster_api_provider_nvi.Common.{
  String, Bool, not, List, [], ◌∷◌, ◌++◌, Option, none, some, is_empty, ◌<>◌, if◌then◌else◌,
}
use cluster_api_provider_nvi.Common.Dict.{Dict, lookup, insert}
use cluster_api_provider_nvi.Common.Exec.{Exec, Outcome, ok, failed, panic, pure, modify, ◌>>◌}
use cluster_api_provider_nvi.ApiError.{ApiError}
use cluster_api_provider_nvi.ProviderId.{ProviderId, to_string, parse_provider_id}
use cluster_api_provider_nvi.Api.Meta.{Condition}
use cluster_api_provider_nvi.Api.Cluster.{NcxInfraCluster}
use cluster_api_provider_nvi.Api.Machine.{NcxInfraMachine, NcxInfraMachineStatus}
use cluster_api_provider_nvi.Sdk.Wire.{World, Metric, api_error}
use cluster_api_provider_nvi.Kube.{Kube, Env, Fetched, found, not_found, broken}
use cluster_api_provider_nvi.Cluster.Scope.{ClusterWorld, ClusterExec}

-- The `clusterv1.Machine` by what the code reads and writes of it. `control_plane` is the value of
-- the control-plane label, empty where the label is missing.
pub record OwnerMachine : Type 0 where
  pub name : String
  pub namespace : String
  pub control_plane : String
  pub data_secret_name : Option String
  pub provider_id : String
  pub addresses : List String

pub record MachineScope : Type 0 where
  pub machine : NcxInfraMachine
  pub owner : OwnerMachine
  pub cluster : NcxInfraCluster

abbrev pub MachineWorld : Type 0
MachineWorld = World MachineScope

-- An error that is an `*APIError`, or another one by its text.
pub data MachineError : Type 0 where
  api : ApiError → MachineError
  other : String → MachineError

-- `err.Error()`
abbrev pub error_text : MachineError → String
error_text (api e) = e.message
error_text (other e) = e

abbrev pub MachineExec : Type 0 → Type 0
MachineExec A = Exec MachineWorld MachineError A

-- What a run is built with besides: the organization, the secrets of the Kubernetes API by namespace
-- and name, and the UUIDs of github.com/google/uuid.
pub record MachineEnv (U : Type 0) : Type 0 where
  pub env : Env
  pub org_name : String
  pub secrets : String × String → Fetched Dict
  pub uuid_parse : String → Option U
  pub uuid_string : U → String

-- Writes to the parts of the state.
abbrev pub with_machine : (NcxInfraMachine → NcxInfraMachine) → MachineWorld → MachineWorld
with_machine f w = let s = w.object in record w { object = record s { machine = f (s.machine) } }

abbrev pub with_status :
    (NcxInfraMachineStatus → NcxInfraMachineStatus) → MachineWorld → MachineWorld
with_status f = with_machine (λ m. record m { status = f (m.status) })

abbrev pub with_owner : (OwnerMachine → OwnerMachine) → MachineWorld → MachineWorld
with_owner f w = let s = w.object in record w { object = record s { owner = f (s.owner) } }

abbrev pub with_finalizers : (List String → List String) → MachineWorld → MachineWorld
with_finalizers f =
    with_machine
      (λ m. let o = m.meta in record m { meta = record o { finalizers = f (o.finalizers) } })

-- `conditions.Set`
abbrev pub with_condition : Kube → Condition → MachineWorld → MachineWorld
with_condition k c = with_status (λ s. record s { conditions = k.set_condition c s.conditions })

-- A step of the cluster scope, on the cluster that the machine scope holds.
abbrev pub cluster_world : MachineWorld → ClusterWorld
cluster_world w = record {
  object = w.object.cluster;
  calls = w.calls;
  events = w.events;
  metrics = w.metrics;
}

abbrev pub rejoin :
    {A : Type 0}
    → MachineWorld
    → Outcome String A × ClusterWorld
    → Outcome MachineError A × MachineWorld
rejoin w (r, v) =
    let s = w.object in
    (
      elim r [ ok a ↦ ok a | failed e ↦ failed (other e) | panic ↦ panic ],
      record {
        object = record s { cluster = v.object };
        calls = v.calls;
        events = v.events;
        metrics = v.metrics;
      },
    )

abbrev pub on_cluster : {A : Type 0} → ClusterExec A → MachineExec A
on_cluster m w = rejoin w (m (cluster_world w))

-- `fmt.Errorf("text: %w", err)`, which is no `*APIError`.
abbrev pub wrap : {A : Type 0} → String → Outcome MachineError A → Outcome MachineError A
wrap text (ok a) = ok a
wrap text (failed e) = failed (other (text <> ": " <> error_text e))
wrap text panic = panic

-- A text as an error.
abbrev pub raise : {A : Type 0} → Outcome String A → MachineExec A
raise (ok a) w = (ok a, w)
raise (failed e) w = (failed (other e), w)
raise panic w = (panic, w)

unfoldable pub is_control_plane : MachineWorld → Bool
is_control_plane w = not (is_empty w.object.owner.control_plane)

unfoldable pub role : MachineWorld → String
unfolding is_control_plane
role w = if is_control_plane w then "control-plane" else "worker"

unfoldable pub instance_id : MachineWorld → String
instance_id w = w.object.machine.status.instance_id

unfoldable pub set_instance_id : String → MachineExec (Unit {0})
set_instance_id id = modify (with_status (λ s. record s { instance_id = id }))

unfoldable pub machine_id : MachineWorld → String
machine_id w = w.object.machine.status.machine_id

unfoldable pub set_machine_id : String → MachineExec (Unit {0})
set_machine_id id = modify (with_status (λ s. record s { machine_id = id }))

unfoldable pub set_instance_state : String → MachineExec (Unit {0})
set_instance_state state = modify (with_status (λ s. record s { instance_state = state }))

unfoldable pub set_ready : Bool → MachineExec (Unit {0})
set_ready b = modify (with_status (λ s. record s { ready = b }))

unfoldable pub is_ready : MachineWorld → Bool
is_ready w = w.object.machine.status.ready

-- Both machines get the addresses.
unfoldable pub set_addresses : List String → MachineExec (Unit {0})
set_addresses addresses = do
  modify (with_status (λ s. record s { addresses = addresses }))
  modify (with_owner (λ o. record o { addresses = addresses }))

unfoldable pub vpc_id : MachineWorld → String
vpc_id w = w.object.cluster.status.vpc_id

unfoldable pub tenant_id : MachineWorld → String
tenant_id w = w.object.cluster.spec.tenant_id

unfoldable pub get_subnet_id : MachineScope → Outcome String String
get_subnet_id s =
    let name = s.machine.spec.network.subnet_name in
    elim (lookup name s.cluster.status.network_status.subnet_ids) [
      | none ↦ failed ("subnet " <> name <> " not found in cluster status")
      | some id ↦ ok id
    ]

unfoldable pub get_vpc_prefix_id : MachineScope → Outcome String String
get_vpc_prefix_id s =
    let name = s.machine.spec.network.vpc_prefix_name in
    elim (lookup name s.cluster.status.network_status.vpc_prefix_ids) [
      | none ↦ failed ("VPC prefix " <> name <> " not found in cluster status")
      | some id ↦ ok id
    ]

-- `conditions.Set` as a step.
unfoldable pub mark : Kube → Condition → MachineExec (Unit {0})
mark k c = modify (with_condition k c)

-- The controller's `recordEvent`.
unfoldable pub record_event : Env → Bool → String → String → MachineExec (Unit {0})
record_event env warning reason message = modify (λ w.
    if env.recorder
    then record w {
      events =
          w.events ++ (record { is_warning = warning; reason = reason; message = message }) ∷ [];
    }
    else w)

unfoldable pub count_metric : Metric → MachineExec (Unit {0})
count_metric m = modify (λ w. record w { metrics = w.metrics ++ m ∷ [] })

-- `recordAPIMetrics`, without the latency.
unfoldable pub record_api_metrics : String → Option ApiError → MachineExec (Unit {0})
unfolding count_metric
record_api_metrics method none = pure tt
record_api_metrics method (some e) = count_metric (api_error method e.status_code)

unfoldable pub set_machine_failure : String → String → MachineExec (Unit {0})
set_machine_failure reason message =
    modify
      (with_status (λ s. record s { failure_reason = some reason; failure_message = some message }))

abbrev serial_console_key : String
serial_console_key = "ncx-infra.io/serial-console-url"

-- The annotation with the console, if the instance has one.
unfoldable pub annotate_console : Option String → MachineExec (Unit {0})
unfolding insert
annotate_console none = pure tt
annotate_console (some url) =
    if is_empty url
    then pure tt
    else modify (
        with_machine (λ m.
          let o = m.meta in
          record m {
            meta = record o { annotations = insert serial_console_key url o.annotations };
          }))
