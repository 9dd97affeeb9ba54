-- ===== src/Machine/Frame/Faults.antt =====
-- The frame of the capability checks, the faults and the status history of
-- internal/controller/ncxinframachine_controller.go.
use cluster_api_provider_nvi.Common.{
  String, Bool, List, [], ◌∷◌, ◌++◌, append-nil, Option, none, some, ◌≡◌, ◌⊎◌, inl, inr, refl, sym,
  ◌∙◌, arith, listed,
}
use cluster_api_provider_nvi.Common.Exec.{pure, for_each}
use cluster_api_provider_nvi.Kube.{Env}
use cluster_api_provider_nvi.Sdk.{StatusDetail, FaultEvent}
use cluster_api_provider_nvi.Sdk.Wire.{get_all_site, list_fault_events, get_instance_status_history}
use cluster_api_provider_nvi.Cluster.Scope.{ClusterWorld, site_id}
use cluster_api_provider_nvi.Machine.Scope.{MachineWorld, cluster_world, on_cluster, instance_id}
use cluster_api_provider_nvi.Machine.Faults.{
  has_fault_management, fallback_to_machine_health, list_open_fault_events, report_health,
  update_health_conditions, get_machine_health_message, history_event, expose_status_history,
}
use cluster_api_provider_nvi.Machine.Frame.{
  Frame, Moves, is_decisive, Moves-pure, Moves-gets, Moves-if, Moves-invoke, Moves-bind,
  Moves-attempt, Moves-for_each,
}
use cluster_api_provider_nvi.Machine.Frame.Steps.{
  Moves-mark, Moves-record_event, Moves-count_metric,
}

site_id-calls :
    (env : Env) (v : ClusterWorld)
    → ((site_id env v).1.calls ≡ v.calls) ⊎ ((site_id env v).1.calls ≡ v.calls ++ get_all_site ∷ [])
unfolding site_id
site_id-calls env v = grind arith

site_id-vpc :
    (env : Env) (v : ClusterWorld) → (site_id env v).1.object.status.vpc_id ≡ v.object.status.vpc_id
unfolding site_id
site_id-vpc env v = grind arith

module _ {b : Bool} where
  Moves-site :
      (env : Env) (w : MachineWorld)
      → ((site_id env (cluster_world w)).1.calls ≡ w.calls)
        ⊎ ((site_id env (cluster_world w)).1.calls ≡ w.calls ++ get_all_site ∷ [])
      → Frame b w (on_cluster (site_id env) w).1
  unfolding is_decisive
  Moves-site env w (inl e) = record {
    spec = refl;
    name = refl;
    vpc = site_id-vpc env (cluster_world w);
    finalizers = refl;
    instance = refl;
    provider = refl;
    readiness = inl refl;
    made = [];
    calls = e ∙ sym (append-nil w.calls);
    minor = tt;
  }
  Moves-site env w (inr e) = record {
    spec = refl;
    name = refl;
    vpc = site_id-vpc env (cluster_world w);
    finalizers = refl;
    instance = refl;
    provider = refl;
    readiness = inl refl;
    made = get_all_site ∷ [];
    calls = e;
    minor = (refl, tt);
  }

  pub Moves-on_cluster-site_id : (env : Env) → Moves b (on_cluster (site_id env))
  Moves-on_cluster-site_id env = record {
    at = λ w. Moves-site env w (site_id-calls env (cluster_world w));
  }

  pub Moves-has_fault_management : (env : Env) → Moves b (has_fault_management env)
  unfolding has_fault_management is_decisive
  Moves-has_fault_management env =
      search (Moves-attempt, Moves-on_cluster-site_id, Moves-bind, Moves-invoke, Moves-pure)

  Moves-fallback_to_machine_health :
      (env : Env) (machine : String) → Moves b (fallback_to_machine_health env machine)
  unfolding fallback_to_machine_health is_decisive
  Moves-fallback_to_machine_health env machine = search (Moves-bind, Moves-invoke, Moves-pure)

  Moves-answer :
      (env : Env) (machine : String) (err : Option String) (faults : List FaultEvent)
      → Moves b (elim err [ some e ↦ fallback_to_machine_health env machine | none ↦ pure faults ])
  Moves-answer env machine none faults = Moves-pure faults
  Moves-answer env machine (some e) faults = Moves-fallback_to_machine_health env machine

  pub Moves-list_open_fault_events :
      (env : Env) (machine : String) → Moves b (list_open_fault_events env machine)
  unfolding list_open_fault_events is_decisive
  Moves-list_open_fault_events env machine =
      Moves-bind (Moves-invoke env.cloud (list_fault_events machine "open" "critical") refl)
        (λ r. Moves-answer env machine r.err (listed r.value))

  Moves-report_health :
      (env : Env) (machine : String) (faults : List FaultEvent)
      → Moves b (report_health env machine faults)
  unfolding report_health
  Moves-report_health env machine [] = search (Moves-bind, Moves-mark)
  Moves-report_health env machine (f ∷ fs) =
      search (Moves-bind, Moves-mark, Moves-count_metric, Moves-record_event)

  pub Moves-update_health_conditions : (env : Env) → Moves b (update_health_conditions env)
  unfolding update_health_conditions
  Moves-update_health_conditions env = search (
    Moves-bind, Moves-gets, Moves-if, Moves-pure, Moves-list_open_fault_events, Moves-report_health,
  )

  pub Moves-get_machine_health_message : (env : Env) → Moves b (get_machine_health_message env)
  unfolding get_machine_health_message
  Moves-get_machine_health_message env =
      search (Moves-bind, Moves-gets, Moves-if, Moves-pure, Moves-list_open_fault_events)

  Moves-history_event : (env : Env) (d : StatusDetail) → Moves b (history_event env d)
  unfolding history_event
  Moves-history_event env d = search (Moves-if, Moves-pure, Moves-record_event)

  Moves-history :
      (env : Env) (err : Option String) (l : List StatusDetail)
      → Moves b (elim err [ some e ↦ pure tt | none ↦ for_each (history_event env) l ])
  Moves-history env none l = Moves-for_each (Moves-history_event env) l
  Moves-history env (some e) l = Moves-pure tt

  pub Moves-expose_status_history : (env : Env) → Moves b (expose_status_history env)
  unfolding expose_status_history is_decisive
  Moves-expose_status_history env = Moves-bind (Moves-gets instance_id) (λ id.
      Moves-bind (Moves-invoke env.cloud (get_instance_status_history id) refl)
        (λ r. Moves-history env r.err (listed r.value)))
