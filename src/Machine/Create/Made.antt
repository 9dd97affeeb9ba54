-- ===== src/Machine/Create/Made.antt =====
-- `createInstance` of internal/controller/ncxinframachine_controller.go: one call at most makes an
-- instance, and what comes back is recorded.
use cluster_api_provider_nvi.Common.{String, Bool, false, List, [], ◌∷◌, ◌++◌, ◌≡◌, refl, arith}
use cluster_api_provider_nvi.Common.Exec.{Outcome, ok, failed, panic, ◌>>=◌}
use cluster_api_provider_nvi.ApiError.{is_terminal}
use cluster_api_provider_nvi.Api.Machine.{NcxInfraMachineSpec}
use cluster_api_provider_nvi.Sdk.{Instance, InterfaceCreateRequest}
use cluster_api_provider_nvi.Sdk.Wire.{Reply, invoke, create_instance}
use cluster_api_provider_nvi.Api.Meta.{Condition}
use cluster_api_provider_nvi.Cluster.Normal.{failure}
use cluster_api_provider_nvi.Machine.Scope.{
  MachineScope, MachineWorld, MachineExec, MachineEnv, raise, with_condition, mark, set_instance_id,
  set_machine_id, set_instance_state, annotate_console, record_event, record_api_metrics,
  count_metric, set_machine_failure, error_text,
}
use cluster_api_provider_nvi.Machine.Scope.Identity.{set_provider_id}
use cluster_api_provider_nvi.Machine.Scope.Bootstrap.{get_bootstrap_data}
use cluster_api_provider_nvi.Machine.Interfaces.{build_interfaces}
use cluster_api_provider_nvi.Machine.Request.{apply_optional_instance_fields}
use cluster_api_provider_nvi.Machine.Create.{
  wrap_exec, validate_site, validate_tenant, validate_capabilities, fetch_bootstrap_data,
  reject_creation, adopt_created, receive_created, make_instance, base_request, instance_request,
}
use cluster_api_provider_nvi.Machine.Create.Attempt.{
  created_id, id_or, Creation, Attempt, unmade, made, Tries, Tries-bind, Moves-raise,
  Moves-on_failure,
}
use cluster_api_provider_nvi.Machine.Frame.{
  Frame, Moves, is_decisive, Frame-refl, Moves-pure, Moves-fail, Moves-gets, Moves-if, Moves-invoke,
  Moves-bind, Moves-attempt,
}
use cluster_api_provider_nvi.Machine.Frame.Steps.{Moves-mark}
use cluster_api_provider_nvi.Machine.Frame.Faults.{Moves-on_cluster-site_id}

-- What the reply to the creation leaves behind.
record Receipt (r : Reply Instance) (w v : MachineWorld) : Type 0 where
  calls : v.calls ≡ w.calls
  instance :
      v.object.machine.status.instance_id ≡ id_or w.object.machine.status.instance_id (created_id r)
  finalizers : v.object.machine.meta.finalizers ≡ w.object.machine.meta.finalizers
  ready : v.object.machine.status.ready ≡ w.object.machine.status.ready

module _ {A : Type 0} {b : Bool} where
  Moves-wrap_exec : (text : String) {m : MachineExec A} → Moves b m → Moves b (wrap_exec text m)
  Moves-wrap_exec text k = record { at = k.at }

instance_request-name :
    (s : MachineScope) (bootstrap : String) (l : List InterfaceCreateRequest)
    → (instance_request s bootstrap l).name ≡ s.owner.name
unfolding instance_request base_request apply_optional_instance_fields
instance_request-name s bootstrap l = refl

instance_request-vpc :
    (s : MachineScope) (bootstrap : String) (l : List InterfaceCreateRequest)
    → (instance_request s bootstrap l).vpc_id ≡ s.cluster.status.vpc_id
unfolding instance_request base_request apply_optional_instance_fields
instance_request-vpc s bootstrap l = refl

module _ {U : Type 0} (e : MachineEnv U) where
  receive_created-Receipt :
      (site : String) (r : Reply Instance) (w : MachineWorld)
      → Receipt r w (receive_created e site r w).1
  unfolding receive_created reject_creation adopt_created record_api_metrics count_metric
      is_terminal set_machine_failure annotate_console set_instance_id set_machine_id
      set_instance_state set_provider_id record_event
  receive_created-Receipt site r w = record {
    calls = grind arith;
    instance = grind arith;
    finalizers = grind arith;
    ready = grind arith;
  }

  mark-Frame : (c : Condition) (w : MachineWorld) → Frame false w (with_condition e.env.kube c w)
  unfolding mark
  mark-Frame c w = (Moves-mark e.env.kube c).at w

  Moves-fetch_bootstrap_data : Moves false (fetch_bootstrap_data e)
  unfolding fetch_bootstrap_data
  Moves-fetch_bootstrap_data = Moves-bind (Moves-gets (λ w. w.object.owner)) (λ owner.
      Moves-bind
        (Moves-wrap_exec "failed to get bootstrap data" (
          Moves-on_failure
            (λ x.
              with_condition e.env.kube
                (failure "BootstrapDataApplied" "BootstrapDataFailed" (error_text x)))
            (raise (get_bootstrap_data e.secrets owner)) (λ x w. mark-Frame _ w)
            (Moves-raise (get_bootstrap_data e.secrets owner))))
        (λ bootstrap. search (Moves-bind, Moves-mark, Moves-pure)))

  Moves-validate_site : (spec : NcxInfraMachineSpec) → Moves false (validate_site e spec)
  unfolding validate_site is_decisive
  Moves-validate_site spec =
      search
        (
          Moves-if, Moves-attempt, Moves-on_cluster-site_id, Moves-bind, Moves-invoke, Moves-fail,
          Moves-pure,
        )
        depth 10

  Moves-validate_tenant : (spec : NcxInfraMachineSpec) → Moves false (validate_tenant e spec)
  unfolding validate_tenant is_decisive
  Moves-validate_tenant spec =
      search (Moves-if, Moves-bind, Moves-invoke, Moves-fail, Moves-pure) depth 10

  Moves-validate_capabilities : Moves false (validate_capabilities e)
  unfolding validate_capabilities
  Moves-validate_capabilities =
      search (Moves-bind, Moves-gets, Moves-validate_site, Moves-validate_tenant)

  -- The request of the state before, and what follows it.
  Creation-call :
      (site bootstrap : String) (l : List InterfaceCreateRequest) (w : MachineWorld)
      → Creation e.env.cloud w
          ((do
            r ← invoke e.env.cloud (create_instance (instance_request w.object bootstrap l))
            receive_created e site r)
            w).1
  unfolding invoke
  Creation-call site bootstrap l w =
      let request = instance_request w.object bootstrap l in
      let c =
        receive_created-Receipt site (e.env.cloud w.calls (create_instance request))
          (record w { calls = w.calls ++ create_instance request ∷ [] }) in
      record {
        request = request;
        name = instance_request-name w.object bootstrap l;
        vpc = instance_request-vpc w.object bootstrap l;
        calls = c.calls;
        instance = c.instance;
        finalizers = c.finalizers;
        ready = c.ready;
      }

  Attempt-call :
      (site bootstrap : String) (r : Outcome String (List InterfaceCreateRequest))
      (w : MachineWorld)
      → Attempt e.env.cloud w
          ((do
            interfaces ← raise r
            r ←
                invoke e.env.cloud
                  (create_instance (instance_request w.object bootstrap interfaces))
            receive_created e site r)
            w).1
  Attempt-call site bootstrap (ok l) w = made w (Frame-refl w) (Creation-call site bootstrap l w)
  Attempt-call site bootstrap (failed x) w = unmade (Frame-refl w)
  Attempt-call site bootstrap panic w = unmade (Frame-refl w)

  pub make_instance-Tries : Tries e.env.cloud (make_instance e)
  unfolding make_instance
  make_instance-Tries = Tries-bind Moves-fetch_bootstrap_data (λ bootstrap.
      Tries-bind Moves-validate_capabilities (λ _.
        Tries-bind (Moves-wrap_exec "failed to get site ID" (Moves-on_cluster-site_id (e.env)))
          (λ site. record { at = λ w. Attempt-call site bootstrap (build_interfaces w.object) w })))
