-- ===== src/Machine/Delete/Released.antt =====
-- When `reconcileDelete` of internal/controller/ncxinframachine_controller.go releases the finalizer.
use cluster_api_provider_nvi.Common.{Bool, ◌||◌, [], ◌∷◌, ◌++◌, ◌≡◌, is_empty, arith, if◌then◌else◌}
use cluster_api_provider_nvi.Common.Exec.{Outcome, ok, failed}
use cluster_api_provider_nvi.ApiError.{
  classify_api_error, classify_failure, is_not_found, is_transient,
}
use cluster_api_provider_nvi.Api.Meta.{ReconcileResult}
use cluster_api_provider_nvi.Sdk.Wire.{Reply, invoke, delete_instance}
use cluster_api_provider_nvi.Sdk.Answers.{succeeded, answered_with, bad_request}
use cluster_api_provider_nvi.Kube.{Env}
use cluster_api_provider_nvi.Cluster.Normal.{done}
use cluster_api_provider_nvi.Machine.Scope.{
  MachineWorld, MachineError, api, instance_id, is_ready, count_metric, record_api_metrics,
}
use cluster_api_provider_nvi.Machine.Instance.{requeue_after}
use cluster_api_provider_nvi.Machine.Normal.{machine_finalizer}
use cluster_api_provider_nvi.Machine.Delete.{release_machine, follow_deletion, reconcile_delete}

-- The service says that the instance is gone: a success or 404.
abbrev pub is_gone : {A : Type 0} → Reply A → Bool
is_gone r = succeeded r || answered_with 404 r

-- The reply to the deletion of the recorded instance.
abbrev pub deletion_reply : Env → MachineWorld → Reply Unit
deletion_reply env w = env.cloud w.calls (delete_instance w.object.machine.status.instance_id)

-- No instance is recorded, or it is gone.
abbrev pub is_released : Env → MachineWorld → Bool
is_released env w = is_empty w.object.machine.status.instance_id || is_gone (deletion_reply env w)

-- Everything that a deletion leaves behind.
pub record Deletion (env : Env) (w : MachineWorld) (r : Outcome MachineError ReconcileResult)
    (v : MachineWorld) : Type 0 where
  pub calls : v.calls ≡ (
      if is_empty w.object.machine.status.instance_id
      then w.calls
      else w.calls ++ delete_instance w.object.machine.status.instance_id ∷ [])
  pub status : v.object.machine.status ≡ w.object.machine.status
  pub finalizers : v.object.machine.meta.finalizers ≡ (
      if is_released env w
      then env.kube.remove_finalizer w.object.machine.meta.finalizers machine_finalizer
      else w.object.machine.meta.finalizers)
  pub result : r ≡ (
      if is_released env w
      then ok done
      else if answered_with 400 (deletion_reply env w)
      then failed (api (bad_request "DeleteInstance" (deletion_reply env w).err))
      else ok (requeue_after 10))

-- A deletion on every branch: it makes one call, the deletion of the recorded instance, if there is one,
-- and leaves the status alone. The finalizer is removed exactly if no instance is recorded or the service
-- answered with a success or 404, and then the run is done; a 400 is returned as an error, and after any
-- other answer the run comes again in 10 seconds.
pub reconcile_delete-Deletion :
    (env : Env) (w : MachineWorld)
    → Deletion env w (reconcile_delete env w).0 (reconcile_delete env w).1
unfolding reconcile_delete instance_id follow_deletion release_machine classify_api_error
    classify_failure is_not_found is_transient is_ready count_metric record_api_metrics invoke
reconcile_delete-Deletion env w = record {
  calls = grind arith;
  status = grind arith;
  finalizers = grind arith;
  result = grind arith;
}
