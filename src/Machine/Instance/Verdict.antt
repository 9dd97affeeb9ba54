-- ===== src/Machine/Instance/Verdict.antt =====
-- What `reconcileInstance` of internal/controller/ncxinframachine_controller.go returns for each reply.
use cluster_api_provider_nvi.Common.{
  String, Bool, true, false, List, Option, none, some, ◌≡◌, refl, ◌<>◌, arith, if◌then◌else◌,
}
use cluster_api_provider_nvi.Common.Exec.{Outcome, ok, failed, fail}
use cluster_api_provider_nvi.ApiError.{
  ApiError, classify_api_error, classify_failure, is_not_found, is_terminal,
}
use cluster_api_provider_nvi.Api.Meta.{ReconcileResult}
use cluster_api_provider_nvi.Sdk.{Instance}
use cluster_api_provider_nvi.Sdk.Wire.{Reply, invoke, get_instance}
use cluster_api_provider_nvi.Sdk.Answers.{succeeded, answered_with, bad_request}
use cluster_api_provider_nvi.Kube.{Env}
use cluster_api_provider_nvi.Cluster.Normal.{done}
use cluster_api_provider_nvi.Machine.Scope.{
  MachineWorld, MachineError, api, other, instance_id, set_ready,
}
use cluster_api_provider_nvi.Machine.Instance.{
  requeue_after, instance_addresses, is_ready_status, handle_instance_ready, await_instance,
  follow_instance, follow_error, follow_reply, reconcile_instance,
}
use cluster_api_provider_nvi.Machine.Total.{
  Total, Gives, Total-pure, Total-if, Gives-pure, Gives-bind,
}
use cluster_api_provider_nvi.Machine.Total.Faults.{
  Total-mark, Total-count_metric, Total-record_event, Total-has_fault_management,
  Total-update_health_conditions, Total-expose_status_history,
}
use cluster_api_provider_nvi.Machine.Total.Instance.{
  Total-record_api_metrics, Total-apply_updates, Total-offer_endpoint, Total-report_error,
  Total-observe_instance,
}
use mathlib.Core.Path.{subst}

-- The result for a reply to the question for an instance.
abbrev pub verdict : String → Reply Instance → Outcome MachineError ReconcileResult
verdict id r =
    if succeeded r
    then elim (r.value) [
      | none ↦ failed (other ("instance response is nil for " <> id))
      | some i ↦ ok (if is_ready_status i.status then done else requeue_after 30)
    ]
    else if answered_with 404 r
    then ok done
    else if answered_with 400 r
    then failed (api (bad_request "GetInstance" r.err))
    else ok (requeue_after 10)

Total-set_ready : Total (set_ready true)
unfolding set_ready
Total-set_ready = record { at = λ w. tt }

Gives-handle_instance_ready :
    (env : Env) (i : Instance) (l : List String) → Gives (ok done) (handle_instance_ready env i l)
unfolding handle_instance_ready
Gives-handle_instance_ready env i l =
    search
      (
        Gives-bind, Total-set_ready, Total-count_metric, Total-mark, Total-apply_updates,
        Total-offer_endpoint, Total-record_event, Gives-pure,
      )
      depth 12

Gives-await_instance :
    (env : Env) (i : Instance) → Gives (ok (requeue_after 30)) (await_instance env i)
unfolding await_instance
Gives-await_instance env i = search (
  Gives-bind, Total-if, Total-expose_status_history, Total-pure, Total-report_error, Total-mark,
  Gives-pure,
)

Gives-by_status :
    (env : Env) (i : Instance) (ready : Bool)
    → Gives (ok (if ready then done else requeue_after 30)) (
        if ready
        then handle_instance_ready env i (instance_addresses i.interfaces)
        else await_instance env i)
Gives-by_status env i true = Gives-handle_instance_ready env i (instance_addresses i.interfaces)
Gives-by_status env i false = Gives-await_instance env i

Gives-follow_instance :
    (env : Env) (i : Instance)
    → Gives
        (ok (if is_ready_status i.status then done else requeue_after 30))
        (follow_instance env i)
unfolding follow_instance
Gives-follow_instance env i = search (
  Gives-bind, Total-observe_instance, Total-has_fault_management, Total-if,
  Total-update_health_conditions, Total-pure, Gives-by_status,
)

abbrev error_verdict : ApiError → Outcome MachineError ReconcileResult
error_verdict x =
    if is_not_found x
    then ok done
    else if is_terminal x
    then failed (api x)
    else ok (requeue_after 10)

Gives-follow_error : (id : String) (x : ApiError) → Gives (error_verdict x) (follow_error id x)
unfolding follow_error
Gives-follow_error id x = record { at = λ w. grind arith }

abbrev class_verdict :
    String → Option ApiError → Option Instance → Outcome MachineError ReconcileResult
class_verdict id x value = elim x [
  | some x ↦ error_verdict x
  | none ↦ elim value [
    | none ↦ failed (other ("instance response is nil for " <> id))
    | some i ↦ ok (if is_ready_status i.status then done else requeue_after 30)
  ]
]

Gives-answer :
    (env : Env) (id : String) (x : Option ApiError) (value : Option Instance)
    → Gives (class_verdict id x value) (elim x [
      | some x ↦ follow_error id x
      | none ↦ elim value [
        | none ↦ fail (other ("instance response is nil for " <> id))
        | some i ↦ follow_instance env i
      ]
    ])
Gives-answer env id (some x) value = Gives-follow_error id x
Gives-answer env id none none = record { at = λ w. refl }
Gives-answer env id none (some i) = Gives-follow_instance env i

class_verdict-verdict :
    (id : String) (r : Reply Instance)
    → class_verdict id (classify_api_error r.http r.err "GetInstance") r.value ≡ verdict id r
unfolding classify_api_error classify_failure is_not_found is_terminal
class_verdict-verdict id r = grind arith

Gives-follow_reply :
    (env : Env) (id : String) (r : Reply Instance) → Gives (verdict id r) (follow_reply env id r)
unfolding follow_reply
Gives-follow_reply env id r =
    let x = classify_api_error r.http r.err "GetInstance" in
    subst (λ s. Gives s (follow_reply env id r)) (class_verdict-verdict id r)
      (Gives-bind (Total-record_api_metrics "GetInstance" x) (λ _. Gives-answer env id x r.value))

-- A reconcile of a recorded instance always returns, with the result that the reply asks for: an instance
-- that is Ready ends it, one in another state is looked at again in 30 seconds, 404 ends it, 400 and a
-- success without an instance are errors, and after any other failure it comes again in 10 seconds.
pub reconcile_instance-verdict :
    (env : Env) (w : MachineWorld)
    → (reconcile_instance env w).0
      ≡ verdict w.object.machine.status.instance_id
          (env.cloud w.calls (get_instance w.object.machine.status.instance_id))
unfolding reconcile_instance instance_id invoke
reconcile_instance-verdict env w =
    let id = w.object.machine.status.instance_id in
    (Gives-follow_reply env id (env.cloud w.calls (get_instance id))).at _
