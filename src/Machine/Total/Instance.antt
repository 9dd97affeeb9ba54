-- ===== src/Machine/Total/Instance.antt =====
-- The steps of `reconcileInstance` of internal/controller/ncxinframachine_controller.go that always return.
use cluster_api_provider_nvi.Common.{String, true, false, List, [], ◌∷◌, Option, none, some, ◌<>◌}
use cluster_api_provider_nvi.Kube.{Env}
use cluster_api_provider_nvi.ApiError.{ApiError}
use cluster_api_provider_nvi.Sdk.{Instance}
use cluster_api_provider_nvi.Sdk.Wire.{update_instance}
use cluster_api_provider_nvi.Machine.Scope.{MachineExec, record_event, instance_id}
use cluster_api_provider_nvi.Machine.Update.{build_update_request}
use cluster_api_provider_nvi.Machine.Instance.{
  for_some, publish_addresses, apply_updates, set_endpoint, offer_endpoint, report_error,
  await_instance, observe_instance,
}
use cluster_api_provider_nvi.ApiError.{ApiError}
use cluster_api_provider_nvi.Machine.Scope.{
  set_machine_id, set_instance_state, set_machine_failure, set_addresses, annotate_console,
  record_api_metrics,
}
use cluster_api_provider_nvi.Machine.Total.{
  Total, Total-pure, Total-gets, Total-if, Total-modify, Total-invoke, Total-bind,
}
use cluster_api_provider_nvi.Machine.Total.Faults.{
  Total-mark, Total-record_event, Total-count_metric, Total-has_fault_management,
  Total-get_machine_health_message, Total-expose_status_history,
}

Total-set_machine_id : (id : String) → Total (set_machine_id id)
unfolding set_machine_id
Total-set_machine_id id = record { at = λ w. tt }

Total-set_instance_state : (state : String) → Total (set_instance_state state)
unfolding set_instance_state
Total-set_instance_state state = record { at = λ w. tt }

pub Total-set_machine_failure : (reason text : String) → Total (set_machine_failure reason text)
unfolding set_machine_failure
Total-set_machine_failure reason text = record { at = λ w. tt }

Total-set_addresses : (l : List String) → Total (set_addresses l)
unfolding set_addresses
Total-set_addresses l = record { at = λ w. tt }

Total-annotate_console : (url : Option String) → Total (annotate_console url)
unfolding annotate_console
Total-annotate_console none = Total-pure tt
Total-annotate_console (some url) = search (Total-if, Total-pure, Total-modify)

pub Total-record_api_metrics :
    (method : String) (x : Option ApiError) → Total (record_api_metrics method x)
unfolding record_api_metrics
Total-record_api_metrics method none = Total-pure tt
Total-record_api_metrics method (some x) = search Total-count_metric

pub Total-for_some :
    (o : Option String) {f : String → MachineExec (Unit {0})}
    → ((s : String) → Total (f s))
    → Total (for_some o f)
Total-for_some none k = Total-pure tt
Total-for_some (some s) k = k s

Total-publish_addresses : (env : Env) (l : List String) → Total (publish_addresses env l)
unfolding publish_addresses
Total-publish_addresses env [] = Total-pure tt
Total-publish_addresses env (a ∷ l) = search (Total-bind, Total-set_addresses, Total-mark)

Total-update_event :
    (env : Env) (err : Option String) (text : String → String) (well : String)
    → Total (elim err [
      | some x ↦ record_event env true "UpdateFailed" (text x)
      | none ↦ record_event env false "InstanceUpdated" well
    ])
Total-update_event env none text well = Total-record_event env false "InstanceUpdated" well
Total-update_event env (some x) text well = Total-record_event env true "UpdateFailed" (text x)

pub Total-apply_updates : (env : Env) (i : Instance) → Total (apply_updates env i)
unfolding apply_updates
Total-apply_updates env i = Total-bind (Total-gets (λ w. w.object.machine.spec)) (λ spec.
    Total-if (build_update_request spec i).1
      (Total-bind (Total-gets instance_id) (λ id.
        Total-bind (Total-invoke env.cloud (update_instance id (build_update_request spec i).0))
          (λ r.
            Total-update_event env r.err (λ x. "Failed to update instance " <> id <> ": " <> x)
              ("Successfully updated instance " <> id))))
      (Total-pure tt))

Total-set_endpoint : (l : List String) → Total (set_endpoint l)
unfolding set_endpoint
Total-set_endpoint [] = Total-pure tt
Total-set_endpoint (host ∷ more) = search Total-modify

pub Total-offer_endpoint : (l : List String) → Total (offer_endpoint l)
unfolding offer_endpoint
Total-offer_endpoint l = search (Total-bind, Total-gets, Total-if, Total-set_endpoint, Total-pure)

pub Total-report_error : (env : Env) (id : String) → Total (report_error env id)
unfolding report_error
Total-report_error env id = search (
  Total-bind, Total-has_fault_management, Total-if, Total-get_machine_health_message, Total-pure,
  Total-set_machine_failure,
)

Total-await_instance : (env : Env) (i : Instance) → Total (await_instance env i)
unfolding await_instance
Total-await_instance env i =
    search (
      Total-bind, Total-if, Total-expose_status_history, Total-pure, Total-report_error, Total-mark,
    )

pub Total-observe_instance : (env : Env) (i : Instance) → Total (observe_instance env i)
unfolding observe_instance
Total-observe_instance env i = search (
  Total-bind, Total-for_some, Total-set_instance_state, Total-annotate_console,
  Total-set_machine_id, Total-publish_addresses,
)
