-- ===== src/Machine/Total/Faults.antt =====
-- The steps on capabilities, faults and the status history of
-- internal/controller/ncxinframachine_controller.go always return.
use cluster_api_provider_nvi.Common.{String, Bool, List, [], ◌∷◌, Option, none, some, arith, listed}
use cluster_api_provider_nvi.Common.Exec.{pure, for_each}
use cluster_api_provider_nvi.Kube.{Kube, Env}
use cluster_api_provider_nvi.Api.Meta.{Condition}
use cluster_api_provider_nvi.Sdk.Wire.{Metric, get_all_site}
use cluster_api_provider_nvi.Sdk.{Site}
use cluster_api_provider_nvi.Common.{◌≢◌}
use cluster_api_provider_nvi.Common.Exec.{panic}
use cluster_api_provider_nvi.Cluster.Scope.{site_id_by_name, find_site}
use cluster_api_provider_nvi.Sdk.{StatusDetail, FaultEvent}
use cluster_api_provider_nvi.Sdk.Wire.{get_all_site, list_fault_events, get_instance_status_history}
use cluster_api_provider_nvi.Cluster.Scope.{site_id}
use cluster_api_provider_nvi.Machine.Scope.{
  mark, record_event, count_metric, on_cluster, instance_id,
}
use cluster_api_provider_nvi.Machine.Faults.{
  has_fault_management, fallback_to_machine_health, list_open_fault_events, report_health,
  update_health_conditions, get_machine_health_message, history_event, expose_status_history,
}
use cluster_api_provider_nvi.Machine.Total.{
  Safe, Total, Total-pure, Total-gets, Total-if, Total-invoke, Total-bind, Total-attempt,
  Total-for_each,
}

pub Total-mark : (k : Kube) (c : Condition) → Total (mark k c)
unfolding mark
Total-mark k c = record { at = λ w. tt }

pub Total-record_event :
    (env : Env) (warning : Bool) (reason text : String)
    → Total (record_event env warning reason text)
unfolding record_event
Total-record_event env warning reason text = record { at = λ w. tt }

pub Total-count_metric : (m : Metric) → Total (count_metric m)
unfolding count_metric
Total-count_metric m = record { at = λ w. tt }

find_site-safe : (wanted : String) (sites : List Site) → find_site wanted sites ≢ panic
unfolding find_site
find_site-safe wanted [] = ground arith
find_site-safe wanted (site ∷ sites) =
    let rest = find_site-safe wanted sites in λ h. rest (grind arith)

Safe-on_cluster-site_id : (env : Env) → Safe (on_cluster (site_id env))
unfolding site_id site_id_by_name
Safe-on_cluster-site_id env = record {
  at = λ w h.
      let f =
        find_site-safe w.object.cluster.spec.site_ref.name
          (listed (env.cloud w.calls get_all_site).value) in
      grind arith;
}

pub Total-has_fault_management : (env : Env) → Total (has_fault_management env)
unfolding has_fault_management
Total-has_fault_management env =
    search (Total-attempt, Safe-on_cluster-site_id, Total-bind, Total-invoke, Total-pure)

Total-fallback_to_machine_health :
    (env : Env) (machine : String) → Total (fallback_to_machine_health env machine)
unfolding fallback_to_machine_health
Total-fallback_to_machine_health env machine = search (Total-bind, Total-invoke, Total-pure)

Total-answer :
    (env : Env) (machine : String) (err : Option String) (faults : List FaultEvent)
    → Total (elim err [ some e ↦ fallback_to_machine_health env machine | none ↦ pure faults ])
Total-answer env machine none faults = Total-pure faults
Total-answer env machine (some e) faults = Total-fallback_to_machine_health env machine

pub Total-list_open_fault_events :
    (env : Env) (machine : String) → Total (list_open_fault_events env machine)
unfolding list_open_fault_events
Total-list_open_fault_events env machine =
    Total-bind (Total-invoke env.cloud (list_fault_events machine "open" "critical"))
      (λ r. Total-answer env machine r.err (listed r.value))

Total-report_health :
    (env : Env) (machine : String) (faults : List FaultEvent)
    → Total (report_health env machine faults)
unfolding report_health
Total-report_health env machine [] = search (Total-bind, Total-mark)
Total-report_health env machine (f ∷ fs) =
    search (Total-bind, Total-mark, Total-count_metric, Total-record_event)

pub Total-update_health_conditions : (env : Env) → Total (update_health_conditions env)
unfolding update_health_conditions
Total-update_health_conditions env = search (
  Total-bind, Total-gets, Total-if, Total-pure, Total-list_open_fault_events, Total-report_health,
)

pub Total-get_machine_health_message : (env : Env) → Total (get_machine_health_message env)
unfolding get_machine_health_message
Total-get_machine_health_message env =
    search (Total-bind, Total-gets, Total-if, Total-pure, Total-list_open_fault_events)

Total-history_event : (env : Env) (d : StatusDetail) → Total (history_event env d)
unfolding history_event
Total-history_event env d = search (Total-if, Total-pure, Total-record_event)

Total-history :
    (env : Env) (err : Option String) (l : List StatusDetail)
    → Total (elim err [ some e ↦ pure tt | none ↦ for_each (history_event env) l ])
Total-history env none l = Total-for_each (Total-history_event env) l
Total-history env (some e) l = Total-pure tt

pub Total-expose_status_history : (env : Env) → Total (expose_status_history env)
unfolding expose_status_history
Total-expose_status_history env = Total-bind (Total-gets instance_id) (λ id.
    Total-bind (Total-invoke env.cloud (get_instance_status_history id))
      (λ r. Total-history env r.err (listed r.value)))
