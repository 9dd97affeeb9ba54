-- ===== src/Machine/Instance/Ready.antt =====
-- When `reconcileInstance` of internal/controller/ncxinframachine_controller.go makes the machine ready.
use cluster_api_provider_nvi.Common.{
  String, Bool, true, false, ◌||◌, List, Option, none, some, ◌≡◌, refl, ◌<>◌, arith, if◌then◌else◌,
}
use cluster_api_provider_nvi.Common.Exec.{fail}
use cluster_api_provider_nvi.ApiError.{ApiError, classify_api_error}
use cluster_api_provider_nvi.Api.Meta.{ReconcileResult}
use cluster_api_provider_nvi.Sdk.{Instance}
use cluster_api_provider_nvi.Sdk.Wire.{Reply, invoke, get_instance}
use cluster_api_provider_nvi.Kube.{Env}
use cluster_api_provider_nvi.Machine.Scope.{MachineWorld, other, instance_id, set_ready}
use cluster_api_provider_nvi.Machine.Instance.{
  instance_addresses, is_ready_status, handle_instance_ready, await_instance, follow_instance,
  follow_error, follow_reply, reconcile_instance,
}
use cluster_api_provider_nvi.Machine.Frame.{Frame, Moves-bind, Moves-pure}
use cluster_api_provider_nvi.Machine.Frame.Steps.{
  Moves-mark, Moves-count_metric, Moves-record_event,
}
use cluster_api_provider_nvi.Machine.Frame.Instance.{
  Moves-apply_updates, Moves-offer_endpoint, shown, shows_ready, reconcile_instance-Frame,
}
use cluster_api_provider_nvi.Machine.Total.{
  Readies, Total-pure, Total-if, Readies-later, Readies-first,
}
use cluster_api_provider_nvi.Machine.Total.Faults.{
  Total-has_fault_management, Total-update_health_conditions,
}
use cluster_api_provider_nvi.Machine.Total.Instance.{
  Total-record_api_metrics, Total-observe_instance,
}

Readies-set_ready : Readies (set_ready true)
unfolding set_ready
Readies-set_ready = record { at = λ w. refl }

Readies-handle_instance_ready :
    (env : Env) (i : Instance) (l : List String) → Readies (handle_instance_ready env i l)
unfolding handle_instance_ready
Readies-handle_instance_ready env i l =
    search
      (
        Readies-first, Readies-set_ready, Moves-bind, Moves-count_metric, Moves-mark,
        Moves-apply_updates, Moves-offer_endpoint, Moves-record_event, Moves-pure,
      )
      depth 14

Readies-by_status :
    (env : Env) (i : Instance) (ready : Bool)
    → ready ≡ true
    → Readies (
        if ready
        then handle_instance_ready env i (instance_addresses i.interfaces)
        else await_instance env i)
Readies-by_status env i true h =
    Readies-handle_instance_ready env i (instance_addresses i.interfaces)
Readies-by_status env i false h = absurd (ground arith)

Readies-follow_instance :
    (env : Env) (i : Instance) → is_ready_status i.status ≡ true → Readies (follow_instance env i)
unfolding follow_instance
Readies-follow_instance env i h = Readies-later (Total-observe_instance env i) (λ _.
    Readies-later (Total-has_fault_management env) (λ supported.
      Readies-later (Total-if supported (Total-update_health_conditions env) (Total-pure tt))
        (λ _. Readies-by_status env i (is_ready_status i.status) h)))

Readies-answer :
    (env : Env) (id : String) (x : Option ApiError) (value : Option Instance)
    → shown x value ≡ true
    → Readies {A = ReconcileResult} (elim x [
      | some x ↦ follow_error id x
      | none ↦ elim value [
        | none ↦ fail (other ("instance response is nil for " <> id))
        | some i ↦ follow_instance env i
      ]
    ])
Readies-answer env id (some x) value h = absurd (ground arith)
Readies-answer env id none none h = absurd (ground arith)
Readies-answer env id none (some i) h = Readies-follow_instance env i h

Readies-follow_reply :
    (env : Env) (id : String) (r : Reply Instance)
    → shows_ready r ≡ true
    → Readies (follow_reply env id r)
unfolding follow_reply
Readies-follow_reply env id r h =
    let x = classify_api_error r.http r.err "GetInstance" in
    Readies-later (Total-record_api_metrics "GetInstance" x)
      (λ _. Readies-answer env id x r.value h)

still_ready :
    (shows : Bool) {w v : MachineWorld}
    → Frame shows w v
    → (shows ≡ true → v.object.machine.status.ready ≡ true)
    → v.object.machine.status.ready ≡ (w.object.machine.status.ready || shows)
still_ready true {w} {v} f h = let p = h refl in ground arith
still_ready false {w} {v} f h = let p = f.readiness in ground arith

-- After a reconcile of a recorded instance the machine is ready exactly if it was before or the service
-- shows the instance, by a success, in the state Ready.
pub reconcile_instance-ready :
    (env : Env) (w : MachineWorld)
    → (reconcile_instance env w).1.object.machine.status.ready ≡ (
        w.object.machine.status.ready
        || shows_ready (env.cloud w.calls (get_instance w.object.machine.status.instance_id)))
unfolding reconcile_instance instance_id invoke
reconcile_instance-ready env w =
    let id = w.object.machine.status.instance_id in
    let r = env.cloud w.calls (get_instance id) in
    still_ready (shows_ready r) (reconcile_instance-Frame env w)
      (λ h. (Readies-follow_reply env id r h).at _)
