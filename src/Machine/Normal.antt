-- ===== src/Machine/Normal.antt =====
-- `reconcileNormal` of internal/controller/ncxinframachine_controller.go.
pub mod Creates
pub mod Course
use cluster_api_provider_nvi.Common.{
  ℕ, String, Bool, true, false, not, ◌&&◌, List, [], ◌∷◌, Option, none, some, is_empty, itoa,
  length, ◌<>◌, if◌then◌else◌,
}
use cluster_api_provider_nvi.Common.Exec.{
  Outcome, ok, failed, panic, pure, fail, gets, modify, ◌>>=◌, ◌>>◌,
}
use cluster_api_provider_nvi.ApiError.{ApiError, is_transient}
use cluster_api_provider_nvi.Api.Meta.{Condition, ReconcileResult}
use cluster_api_provider_nvi.Api.Machine.{InstanceTypeSpec}
use cluster_api_provider_nvi.Sdk.{Instance, FaultEvent}
use cluster_api_provider_nvi.Kube.{Env}
use cluster_api_provider_nvi.Cluster.Normal.{failure, success}
use cluster_api_provider_nvi.Machine.Scope.{
  MachineWorld, MachineExec, MachineError, MachineEnv, api, other, error_text, with_finalizers,
  mark, record_event, instance_id, set_instance_id, set_machine_id, set_instance_state,
}
use cluster_api_provider_nvi.Machine.Faults.{
  attempt, settle, has_fault_management, list_open_fault_events, format_fault_message,
}
use cluster_api_provider_nvi.Machine.Create.{find_existing_instance, make_instance}
use cluster_api_provider_nvi.Machine.Instance.{requeue_after, for_some, reconcile_instance}

abbrev pub machine_finalizer : String
machine_finalizer = "ncxinframachine.infrastructure.cluster.x-k8s.io"

-- The instance found by its name goes into the status.
unfoldable pub reuse_instance : Env → String → Instance → MachineExec ReconcileResult
unfolding set_instance_id set_machine_id set_instance_state reconcile_instance
reuse_instance env id i = do
  set_instance_id id
  for_some i.machine_id set_machine_id
  for_some i.status set_instance_state
  reconcile_instance env

-- The creation is put off while the target has faults.
unfoldable pub defer_creation : Env → String → List FaultEvent → MachineExec ReconcileResult
unfolding format_fault_message record_event mark
defer_creation env target faults = do
  let message =
      "target machine "
      <> target
      <> " has "
      <> itoa (length faults)
      <> " open fault(s): "
      <> format_fault_message faults
  record_event env true "PreFlightHealthCheckFailed" message
  mark env.kube (failure "InstanceProvisioned" "PreFlightHealthCheckFailed" message)
  pure (requeue_after 30)

-- The open faults of the target, where the pre-flight check applies.
unfoldable pub target_faults : Env → InstanceTypeSpec → MachineExec (List FaultEvent)
unfolding has_fault_management list_open_fault_events
target_faults env t =
    if not (is_empty t.machine_id) && not t.allow_unhealthy_machine
    then (do
      supported ← has_fault_management env
      if supported then list_open_fault_events env t.machine_id else pure [])
    else pure []

-- What a failed creation returns.
unfoldable pub creation_failed : Env → MachineError → MachineExec ReconcileResult
unfolding is_transient mark
creation_failed env x = do
  mark env.kube (failure "InstanceProvisioned" "InstanceCreationFailed" (error_text x))
  elim x [
    | api a ↦ if is_transient a then pure (requeue_after 10) else fail (api a)
    | other text ↦ fail (other text)
  ]

-- `err := m(); if err != nil { return h(err) }; return f()`
abbrev pub conclude :
    {A B : Type 0}
    → Outcome MachineError A
    → (A → MachineExec B)
    → (MachineError → MachineExec B)
    → MachineExec B
conclude (ok a) f h w = f a w
conclude (failed x) f h w = h x w
conclude panic f h w = (panic, w)

module _ {U : Type 0} (e : MachineEnv U) where
  unfoldable pub create_new : MachineExec ReconcileResult
  unfolding make_instance creation_failed mark
  create_new w =
      let (r, v) = make_instance e w in
      conclude r
        (λ _. do
          mark e.env.kube (success "InstanceProvisioned" "InstanceCreated")
          pure (requeue_after 10))
        (creation_failed (e.env)) v

  unfoldable pub check_and_create : MachineExec ReconcileResult
  unfolding target_faults defer_creation create_new
  check_and_create = do
    target ← gets (λ w. w.object.machine.spec.instance_type)
    faults ← target_faults (e.env) target
    elim faults [ [] ↦ create_new | f ∷ fs ↦ defer_creation (e.env) target.machine_id (f ∷ fs) ]

  unfoldable pub provision_instance : MachineExec ReconcileResult
  unfolding find_existing_instance reuse_instance check_and_create
  provision_instance =
      attempt (find_existing_instance e)
        (λ existing. elim existing [
          | none ↦ check_and_create
          | some i ↦ elim (i.id) [ none ↦ check_and_create | some id ↦ reuse_instance (e.env) id i ]
        ])
        check_and_create

  -- `reconcileNormal`
  unfoldable pub reconcile_normal : MachineExec ReconcileResult
  unfolding instance_id reconcile_instance provision_instance
  reconcile_normal = do
    guarded ←
        gets (λ w. e.env.kube.contains_finalizer w.object.machine.meta.finalizers machine_finalizer)
    if guarded
        then (do
          id ← gets instance_id
          if is_empty id then provision_instance else reconcile_instance (e.env))
        else (do
          modify (with_finalizers (λ fs. e.env.kube.add_finalizer fs machine_finalizer))
          pure (record { requeue = true; requeue_after = 0 }))
