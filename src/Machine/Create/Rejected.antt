-- ===== src/Machine/Create/Rejected.antt =====
-- How `reconcileNormal` of internal/controller/ncxinframachine_controller.go takes the answer to a
-- creation that failed.
use cluster_api_provider_nvi.Common.{
  String, Bool, true, false, ◌||◌, some, ◌≡◌, arith, if◌then◌else◌,
}
use cluster_api_provider_nvi.Common.Exec.{Outcome, ok, failed, panic}
use cluster_api_provider_nvi.ApiError.{
  classify_api_error, classify_failure, is_terminal, is_transient,
}
use cluster_api_provider_nvi.Api.Meta.{ReconcileResult}
use cluster_api_provider_nvi.Sdk.{Instance}
use cluster_api_provider_nvi.Sdk.Wire.{Reply}
use cluster_api_provider_nvi.Sdk.Answers.{succeeded, answered_with}
use cluster_api_provider_nvi.Machine.Scope.{
  MachineWorld, MachineExec, MachineError, MachineEnv, mark, count_metric, record_api_metrics,
  set_machine_failure,
}
use cluster_api_provider_nvi.Machine.Create.{reject_creation, receive_created}
use cluster_api_provider_nvi.Machine.Instance.{requeue_after}
use cluster_api_provider_nvi.Machine.Normal.{creation_failed, conclude}

-- The reply, as createInstance takes it and reconcileNormal what comes of it.
abbrev pub taken :
    {U : Type 0}
    → MachineEnv U
    → String
    → Reply Instance
    → MachineExec ReconcileResult
    → MachineExec ReconcileResult
taken e site r next w =
    let (x, v) = receive_created e site r w in conclude x (λ _. next) (creation_failed (e.env)) v

abbrev pub is_failed : Outcome MachineError ReconcileResult → Bool
is_failed (ok a) = false
is_failed (failed x) = true
is_failed panic = false

-- A creation that is answered with no success: a 400 is recorded as the failure of the machine, and only
-- that; a 400 or 404 is returned as an error, and after any other answer the run comes again in 10
-- seconds. The recorded ID stays as it is.
pub receive_created_rejected :
    {U : Type 0} (e : MachineEnv U) (site : String) (r : Reply Instance)
    (next : MachineExec ReconcileResult) (w : MachineWorld)
    → succeeded r ≡ false
    → ((taken e site r next w).1.object.machine.status.failure_reason ≡ (
        if answered_with 400 r
        then some "CreateInstanceFailed"
        else w.object.machine.status.failure_reason))
      × ((taken e site r next w).1.object.machine.status.instance_id
          ≡ w.object.machine.status.instance_id)
      × ((answered_with 400 r || answered_with 404 r) ≡ false
          → (taken e site r next w).0 ≡ ok (requeue_after 10))
      × (is_failed (taken e site r next w).0 ≡ (answered_with 400 r || answered_with 404 r))
unfolding receive_created classify_api_error classify_failure reject_creation record_api_metrics
    count_metric is_terminal set_machine_failure creation_failed is_transient mark
receive_created_rejected e site r next w h =
    (grind arith, grind arith, (λ k. grind arith), grind arith)
