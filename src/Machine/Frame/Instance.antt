-- ===== src/Machine/Frame/Instance.antt =====
-- The frame of `reconcileInstance` of internal/controller/ncxinframachine_controller.go.
use cluster_api_provider_nvi.Common.{
  String, Bool, true, false, List, [], ◌∷◌, Option, none, some, inr, refl, ◌<>◌, if◌then◌else◌,
}
use cluster_api_provider_nvi.Common.Exec.{fail}
use cluster_api_provider_nvi.Kube.{Env}
use cluster_api_provider_nvi.ApiError.{ApiError, classify_api_error}
use cluster_api_provider_nvi.Api.Meta.{ReconcileResult}
use cluster_api_provider_nvi.Sdk.{Instance}
use cluster_api_provider_nvi.Sdk.Wire.{Reply, get_instance, update_instance}
use cluster_api_provider_nvi.Machine.Scope.{
  MachineWorld, MachineExec, record_event, instance_id, set_ready, other, with_status,
}
use cluster_api_provider_nvi.Machine.Update.{build_update_request}
use cluster_api_provider_nvi.Machine.Instance.{
  for_some, publish_addresses, apply_updates, set_endpoint, offer_endpoint, handle_instance_ready,
  report_error, await_instance, is_ready_status, observe_instance, follow_instance, follow_error,
  follow_reply, reconcile_instance, instance_addresses,
}
use cluster_api_provider_nvi.Machine.Frame.{
  Frame, Frame-trans, Moves, is_decisive, Moves-pure, Moves-fail, Moves-gets, Moves-if,
  Moves-modify, Moves-invoke, Moves-bind,
}
use cluster_api_provider_nvi.Machine.Frame.Steps.{
  Moves-mark, Moves-record_event, Moves-count_metric, Moves-record_api_metrics,
  Moves-set_machine_id, Moves-set_instance_state, Moves-set_machine_failure, Moves-set_addresses,
  Moves-annotate_console, Moves-beside,
}
use cluster_api_provider_nvi.Machine.Frame.Faults.{
  Moves-has_fault_management, Moves-update_health_conditions, Moves-get_machine_health_message,
  Moves-expose_status_history,
}

module _ {b : Bool} where
  pub Moves-for_some :
      (o : Option String) {f : String → MachineExec (Unit {0})}
      → ((s : String) → Moves b (f s))
      → Moves b (for_some o f)
  Moves-for_some none k = Moves-pure tt
  Moves-for_some (some s) k = k s

  Moves-publish_addresses : (env : Env) (l : List String) → Moves b (publish_addresses env l)
  unfolding publish_addresses
  Moves-publish_addresses env [] = Moves-pure tt
  Moves-publish_addresses env (a ∷ l) = search (Moves-bind, Moves-set_addresses, Moves-mark)

  Moves-update_event :
      (env : Env) (err : Option String) (text : String → String) (well : String)
      → Moves b (elim err [
        | some x ↦ record_event env true "UpdateFailed" (text x)
        | none ↦ record_event env false "InstanceUpdated" well
      ])
  Moves-update_event env none text well = Moves-record_event env false "InstanceUpdated" well
  Moves-update_event env (some x) text well = Moves-record_event env true "UpdateFailed" (text x)

  pub Moves-apply_updates : (env : Env) (i : Instance) → Moves b (apply_updates env i)
  unfolding apply_updates is_decisive
  Moves-apply_updates env i = Moves-bind (Moves-gets (λ w. w.object.machine.spec)) (λ spec.
      Moves-if (build_update_request spec i).1
        (Moves-bind (Moves-gets instance_id) (λ id.
          Moves-bind
            (Moves-invoke env.cloud (update_instance id (build_update_request spec i).0) refl)
            (λ r.
              Moves-update_event env r.err (λ x. "Failed to update instance " <> id <> ": " <> x)
                ("Successfully updated instance " <> id))))
        (Moves-pure tt))

  Moves-set_endpoint : (l : List String) → Moves b (set_endpoint l)
  unfolding set_endpoint
  Moves-set_endpoint [] = Moves-pure tt
  Moves-set_endpoint (host ∷ more) = search Moves-beside

  pub Moves-offer_endpoint : (l : List String) → Moves b (offer_endpoint l)
  unfolding offer_endpoint
  Moves-offer_endpoint l = search (Moves-bind, Moves-gets, Moves-if, Moves-set_endpoint, Moves-pure)

  Moves-report_error : (env : Env) (id : String) → Moves b (report_error env id)
  unfolding report_error
  Moves-report_error env id = search (
    Moves-bind, Moves-has_fault_management, Moves-if, Moves-get_machine_health_message, Moves-pure,
    Moves-set_machine_failure,
  )

  Moves-await_instance : (env : Env) (i : Instance) → Moves b (await_instance env i)
  unfolding await_instance
  Moves-await_instance env i = search (
    Moves-bind, Moves-if, Moves-expose_status_history, Moves-pure, Moves-report_error, Moves-mark,
  )

  Moves-observe_instance : (env : Env) (i : Instance) → Moves b (observe_instance env i)
  unfolding observe_instance
  Moves-observe_instance env i = search (
    Moves-bind, Moves-for_some, Moves-set_instance_state, Moves-annotate_console,
    Moves-set_machine_id, Moves-publish_addresses,
  )

  pub Moves-follow_error : (id : String) (x : ApiError) → Moves b (follow_error id x)
  unfolding follow_error
  Moves-follow_error id x =
      search (Moves-if, Moves-bind, Moves-set_machine_failure, Moves-pure, Moves-fail)

Moves-set_ready : Moves true (set_ready true)
unfolding set_ready
Moves-set_ready = Moves-modify (with_status (λ s. record s { ready = true })) (record {
  spec = λ w. refl;
  name = λ w. refl;
  vpc = λ w. refl;
  finalizers = λ w. refl;
  instance = λ w. refl;
  provider = λ w. refl;
  readiness = λ w. inr (refl, refl);
  calls = λ w. refl;
})

Moves-handle_instance_ready :
    (env : Env) (i : Instance) (l : List String) → Moves true (handle_instance_ready env i l)
unfolding handle_instance_ready
Moves-handle_instance_ready env i l =
    search
      (
        Moves-bind, Moves-set_ready, Moves-count_metric, Moves-mark, Moves-apply_updates,
        Moves-offer_endpoint, Moves-record_event, Moves-pure,
      )
      depth 12

Moves-by_status :
    (env : Env) (i : Instance) (ready : Bool)
    → Moves ready (
        if ready
        then handle_instance_ready env i (instance_addresses i.interfaces)
        else await_instance env i)
Moves-by_status env i true = Moves-handle_instance_ready env i (instance_addresses i.interfaces)
Moves-by_status env i false = Moves-await_instance env i

pub Moves-follow_instance :
    (env : Env) (i : Instance) → Moves (is_ready_status i.status) (follow_instance env i)
unfolding follow_instance
Moves-follow_instance env i = search (
  Moves-bind, Moves-observe_instance, Moves-has_fault_management, Moves-if,
  Moves-update_health_conditions, Moves-pure, Moves-by_status,
)

-- Whether the reply shows an instance that is ready.
abbrev pub shows_ready : Reply Instance → Bool
shows_ready r = elim (classify_api_error r.http r.err "GetInstance") [
  | some x ↦ false
  | none ↦ elim (r.value) [ none ↦ false | some i ↦ is_ready_status i.status ]
]

abbrev pub shown : Option ApiError → Option Instance → Bool
shown x value = elim x [
  | some x ↦ false
  | none ↦ elim value [ none ↦ false | some i ↦ is_ready_status i.status ]
]

Moves-answer :
    (env : Env) (id : String) (x : Option ApiError) (value : Option Instance)
    → Moves {A = ReconcileResult} (shown x value) (elim x [
      | some x ↦ follow_error id x
      | none ↦ elim value [
        | none ↦ fail (other ("instance response is nil for " <> id))
        | some i ↦ follow_instance env i
      ]
    ])
Moves-answer env id (some x) value = Moves-follow_error id x
Moves-answer env id none none = Moves-fail (other ("instance response is nil for " <> id))
Moves-answer env id none (some i) = Moves-follow_instance env i

Moves-follow_reply :
    (env : Env) (id : String) (r : Reply Instance) → Moves (shows_ready r) (follow_reply env id r)
unfolding follow_reply
Moves-follow_reply env id r =
    Moves-bind
      (Moves-record_api_metrics "GetInstance" (classify_api_error r.http r.err "GetInstance"))
      (λ _. Moves-answer env id (classify_api_error r.http r.err "GetInstance") r.value)

-- A reconcile of a recorded instance leaves the spec, the finalizers, the instance ID and the provider ID
-- alone, makes or deletes no instance, and never takes the readiness back; the status becomes ready only
-- if the service answers that the instance is in the state Ready.
pub reconcile_instance-Frame :
    (env : Env) (w : MachineWorld)
    → Frame
        (shows_ready (env.cloud w.calls (get_instance w.object.machine.status.instance_id)))
        w
        (reconcile_instance env w).1
unfolding reconcile_instance instance_id is_decisive
reconcile_instance-Frame env w =
    let r = env.cloud w.calls (get_instance w.object.machine.status.instance_id) in
    Frame-trans
      ((Moves-invoke env.cloud (get_instance w.object.machine.status.instance_id) refl).at w)
      ((Moves-follow_reply env w.object.machine.status.instance_id r).at _)
