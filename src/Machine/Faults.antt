-- ===== src/Machine/Faults.antt =====
-- Capabilities, faults and status history of internal/controller/ncxinframachine_controller.go:
-- `hasFaultManagement` down to `exposeStatusHistory`.
use cluster_api_provider_nvi.Common.{
  text_of, listed, String, Bool, true, false, not, ◌||◌, List, [], ◌∷◌, map, Option, none, some,
  is_empty, itoa, length, ◌<>◌, if◌then◌else◌,
}
use cluster_api_provider_nvi.Common.Exec.{
  Outcome, ok, failed, panic, pure, gets, ◌>>=◌, ◌>>◌, for_each,
}
use cluster_api_provider_nvi.Sdk.{Site, FaultEvent, HealthAlert, PhysicalMachine, StatusDetail}
use cluster_api_provider_nvi.Sdk.Wire.{
  Reply, invoke, get_site, list_fault_events, get_machine, get_instance_status_history,
  machines_unhealthy_inc,
}
use cluster_api_provider_nvi.Kube.{Env}
use cluster_api_provider_nvi.Cluster.Scope.{site_id}
use cluster_api_provider_nvi.Cluster.Normal.{failure, success}
use cluster_api_provider_nvi.Machine.Scope.{
  MachineExec, MachineError, on_cluster, instance_id, machine_id, mark, record_event, count_metric,
}

abbrev is_set : Option Bool → Bool
is_set none = false
is_set (some b) = b

-- `err != nil || site == nil || site.Capabilities == nil`, and the capability.
unfoldable pub supports_faults : Reply Site → Bool
supports_faults r = elim (r.err) [
  | some e ↦ false
  | none ↦ elim (r.value) [
    | none ↦ false
    | some site ↦ elim (site.capabilities) [ none ↦ false | some c ↦ is_set c.fault_management ]
  ]
]

-- An error of the first step is taken for an answer.
abbrev pub settle :
    {A B : Type 0} → Outcome MachineError A → (A → MachineExec B) → MachineExec B → MachineExec B
settle (ok a) f g w = f a w
settle (failed e) f g w = g w
settle panic f g w = (panic, w)

abbrev pub attempt :
    {A B : Type 0} → MachineExec A → (A → MachineExec B) → MachineExec B → MachineExec B
attempt m f g w = let (r, v) = m w in settle r f g v

unfoldable pub has_fault_management : Env → MachineExec Bool
unfolding site_id supports_faults invoke
has_fault_management env =
    attempt (on_cluster (site_id env))
      (λ site. do r ← invoke env.cloud (get_site site); pure (supports_faults r)) (pure false)

unfoldable pub alert_fault : String → HealthAlert → FaultEvent
alert_fault machine alert = record {
  machine_id = some machine;
  classification = alert.id;
  message = alert.message;
  state = some "open";
  severity = some "critical";
  remediation_workflow_id = none;
}

abbrev alerts_of : Reply PhysicalMachine → List HealthAlert
alerts_of r = elim (r.err) [
  | some e ↦ []
  | none ↦ elim (r.value) [
    | none ↦ []
    | some m ↦ elim (m.alerts) [ none ↦ [] | some alerts ↦ alerts ]
  ]
]

unfoldable pub fallback_to_machine_health : Env → String → MachineExec (List FaultEvent)
unfolding alert_fault invoke
fallback_to_machine_health env machine = do
  r ← invoke env.cloud (get_machine machine)
  pure (map (alert_fault machine) (alerts_of r))

unfoldable pub list_open_fault_events : Env → String → MachineExec (List FaultEvent)
unfolding fallback_to_machine_health invoke
list_open_fault_events env machine = do
  r ← invoke env.cloud (list_fault_events machine "open" "critical")
  elim (r.err) [ some e ↦ fallback_to_machine_health env machine | none ↦ pure (listed r.value) ]

-- The classification and the message of a fault, joined.
unfoldable pub fault_text : String → String → String
fault_text classification message =
    if is_empty message
    then classification
    else if is_empty classification
    then message
    else classification <> (" — " <> message)

unfoldable pub format_fault_message : List FaultEvent → String
unfolding fault_text
format_fault_message [] = ""
format_fault_message (f ∷ []) = fault_text (text_of f.classification) (text_of f.message)
format_fault_message (f ∷ g ∷ fs) =
    fault_text (text_of f.classification) (text_of f.message)
    <> " (+"
    <> itoa (length (g ∷ fs))
    <> " more faults)"

-- Whether some fault has a remediation workflow.
unfoldable pub is_remediating : List FaultEvent → Bool
is_remediating [] = false
is_remediating (f ∷ fs) = not (is_empty (text_of f.remediation_workflow_id)) || is_remediating fs

unfoldable pub report_health : Env → String → List FaultEvent → MachineExec (Unit {0})
unfolding format_fault_message is_remediating mark record_event count_metric
report_health env machine [] = do
  mark env.kube (success "NicoHealthy" "MachineHealthy")
  mark env.kube (failure "NicoFaultRemediation" "NoFaultsDetected" "")
report_health env machine (f ∷ fs) = do
  mark env.kube (failure "NicoHealthy" "MachineUnhealthy" (format_fault_message (f ∷ fs)))
  mark env.kube (
      if is_remediating (f ∷ fs)
      then record {
        kind = "NicoFaultRemediation";
        status = true;
        reason = "RemediationInProgress";
        message = "Automated fault remediation in progress";
      }
      else failure "NicoFaultRemediation" "NoRemediationInProgress" "")
  count_metric machines_unhealthy_inc
  record_event env true "MachineUnhealthy" (
      "Physical machine "
      <> machine
      <> " has "
      <> itoa (length (f ∷ fs))
      <> " open fault(s): "
      <> format_fault_message (f ∷ fs))

unfoldable pub update_health_conditions : Env → MachineExec (Unit {0})
unfolding machine_id list_open_fault_events report_health
update_health_conditions env = do
  machine ← gets machine_id
  if is_empty machine
      then pure tt
      else (do faults ← list_open_fault_events env machine; report_health env machine faults)

unfoldable pub get_machine_health_message : Env → MachineExec String
unfolding machine_id list_open_fault_events format_fault_message
get_machine_health_message env = do
  machine ← gets machine_id
  if is_empty machine
      then pure ""
      else (do faults ← list_open_fault_events env machine; pure (format_fault_message faults))

-- The body of the loop over the history.
unfoldable pub history_event : Env → StatusDetail → MachineExec (Unit {0})
unfolding record_event
history_event env d =
    if is_empty (text_of d.message)
    then pure tt
    else record_event env true "StatusHistory"
        ("[" <> text_of d.status <> "] " <> text_of d.message)

unfoldable pub expose_status_history : Env → MachineExec (Unit {0})
unfolding instance_id history_event invoke for_each
expose_status_history env = do
  id ← gets instance_id
  r ← invoke env.cloud (get_instance_status_history id)
  elim (r.err) [ some e ↦ pure tt | none ↦ for_each (history_event env) (listed r.value) ]
