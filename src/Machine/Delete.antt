-- ===== src/Machine/Delete.antt =====
-- `reconcileDelete` of internal/controller/ncxinframachine_controller.go.
pub mod Released
use cluster_api_provider_nvi.Common.{
  String, Bool, true, false, Option, none, some, is_empty, if◌then◌else◌,
}
use cluster_api_provider_nvi.Common.Exec.{
  Outcome, ok, failed, panic, pure, fail, gets, modify, ◌>>=◌, ◌>>◌,
}
use cluster_api_provider_nvi.ApiError.{ApiError, classify_api_error, is_not_found, is_transient}
use cluster_api_provider_nvi.Api.Meta.{ReconcileResult}
use cluster_api_provider_nvi.Sdk.Wire.{invoke, delete_instance, machines_managed_dec}
use cluster_api_provider_nvi.Kube.{Env}
use cluster_api_provider_nvi.Cluster.Normal.{done}
use cluster_api_provider_nvi.Machine.Scope.{
  MachineExec, MachineError, api, with_finalizers, instance_id, is_ready, count_metric,
  record_api_metrics,
}
use cluster_api_provider_nvi.Machine.Instance.{requeue_after}
use cluster_api_provider_nvi.Machine.Normal.{machine_finalizer}

unfoldable pub release_machine : Env → MachineExec ReconcileResult
unfolding is_ready count_metric
release_machine env = do
  modify (with_finalizers (λ fs. env.kube.remove_finalizer fs machine_finalizer))
  ready ← gets is_ready
  if ready then count_metric machines_managed_dec else pure tt
  pure done

-- What follows the answer to the deletion of the instance.
unfoldable pub follow_deletion : Env → Option ApiError → MachineExec ReconcileResult
unfolding is_not_found is_transient release_machine
follow_deletion env none = release_machine env
follow_deletion env (some x) =
    if is_not_found x
    then release_machine env
    else if is_transient x
    then pure (requeue_after 10)
    else fail (api x)

unfoldable pub reconcile_delete : Env → MachineExec ReconcileResult
unfolding instance_id record_api_metrics classify_api_error follow_deletion release_machine invoke
reconcile_delete env = do
  id ← gets instance_id
  if is_empty id then release_machine env else (do
    r ← invoke env.cloud (delete_instance id)
    let x = classify_api_error r.http r.err "DeleteInstance"
    record_api_metrics "DeleteInstance" x
    follow_deletion env x)
