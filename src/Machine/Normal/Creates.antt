-- ===== src/Machine/Normal/Creates.antt =====
-- The creation of an instance in `reconcileNormal` of
-- internal/controller/ncxinframachine_controller.go, with the pre-flight check before it.
use cluster_api_provider_nvi.Common.{String, Bool, List, [], ◌∷◌, inl, inr, Bool-cases}
use cluster_api_provider_nvi.Common.Exec.{Outcome, ok, failed, panic, pure, ◌>>◌}
use cluster_api_provider_nvi.ApiError.{is_transient}
use cluster_api_provider_nvi.Api.Meta.{Condition, ReconcileResult}
use cluster_api_provider_nvi.Api.Machine.{InstanceTypeSpec}
use cluster_api_provider_nvi.Sdk.{FaultEvent}
use cluster_api_provider_nvi.Sdk.Wire.{Cloud}
use cluster_api_provider_nvi.Kube.{Kube, Env}
use cluster_api_provider_nvi.Cluster.Normal.{failure, success}
use cluster_api_provider_nvi.Machine.Scope.{
  MachineWorld, MachineError, MachineEnv, api, other, with_condition, mark,
}
use cluster_api_provider_nvi.Machine.Create.{make_instance}
use cluster_api_provider_nvi.Machine.Create.Attempt.{
  Creation, Attempt, unmade, made, Tries, Tries-Moves, Tries-bind,
}
use cluster_api_provider_nvi.Machine.Create.Made.{make_instance-Tries}
use cluster_api_provider_nvi.Machine.Instance.{requeue_after}
use cluster_api_provider_nvi.Machine.Normal.{
  defer_creation, target_faults, creation_failed, conclude, create_new, check_and_create,
}
use cluster_api_provider_nvi.Machine.Frame.{Moves, Frame-trans, Moves-pure, Moves-if, Moves-bind}
use cluster_api_provider_nvi.Machine.Frame.Steps.{Moves-mark, Moves-record_event}
use cluster_api_provider_nvi.Machine.Frame.Faults.{
  Moves-has_fault_management, Moves-list_open_fault_events,
}

Creation-mark :
    {cloud : Cloud} {u v : MachineWorld} (k : Kube) (c : Condition)
    → Creation cloud u v
    → Creation cloud u (with_condition k c v)
Creation-mark k c m = record {
  request = m.request;
  name = m.name;
  vpc = m.vpc;
  calls = m.calls;
  instance = m.instance;
  finalizers = m.finalizers;
  ready = m.ready;
}

Attempt-mark :
    {cloud : Cloud} {w v : MachineWorld} (k : Kube) (c : Condition)
    → Attempt cloud w v
    → Attempt cloud w (with_condition k c v)
unfolding mark
Attempt-mark {v} k c (unmade f) = unmade (Frame-trans f ((Moves-mark k c).at v))
Attempt-mark k c (made u f m) = made u f (Creation-mark k c m)

module _ {b : Bool} where
  Moves-target_faults : (env : Env) (t : InstanceTypeSpec) → Moves b (target_faults env t)
  unfolding target_faults
  Moves-target_faults env t =
      search
        (Moves-if, Moves-bind, Moves-has_fault_management, Moves-list_open_fault_events, Moves-pure)

  Moves-defer_creation :
      (env : Env) (target : String) (faults : List FaultEvent)
      → Moves b (defer_creation env target faults)
  unfolding defer_creation
  Moves-defer_creation env target faults =
      search (Moves-bind, Moves-record_event, Moves-mark, Moves-pure)

module _ {U : Type 0} (e : MachineEnv U) where
  Attempt-failed :
      (x : MachineError) (w v : MachineWorld)
      → Attempt e.env.cloud w v
      → Attempt e.env.cloud w (creation_failed (e.env) x v).1
  unfolding creation_failed mark
  Attempt-failed (api x) w v m =
      let c = failure "InstanceProvisioned" "InstanceCreationFailed" x.message in
      elim (Bool-cases (is_transient x)) [
        | inl t ↦ rw t (Attempt-mark e.env.kube c m)
        | inr t ↦ rw t (Attempt-mark e.env.kube c m)
      ]
  Attempt-failed (other x) w v m =
      Attempt-mark e.env.kube (failure "InstanceProvisioned" "InstanceCreationFailed" x) m

  Attempt-conclude :
      (r : Outcome MachineError (Unit {0})) (w v : MachineWorld)
      → Attempt e.env.cloud w v
      → Attempt e.env.cloud w
          (conclude r
            (λ _. do
              mark e.env.kube (success "InstanceProvisioned" "InstanceCreated")
              pure (requeue_after 10))
            (creation_failed (e.env))
            v).1
  unfolding mark
  Attempt-conclude (ok a) w v m =
      Attempt-mark e.env.kube (success "InstanceProvisioned" "InstanceCreated") m
  Attempt-conclude (failed x) w v m = Attempt-failed x w v m
  Attempt-conclude panic w v m = m

  Tries-create_new : Tries e.env.cloud (create_new e)
  unfolding create_new
  Tries-create_new = record {
    at = λ w.
        Attempt-conclude (make_instance e w).0 w (make_instance e w).1
          ((make_instance-Tries e).at w);
  }

  Tries-by_faults :
      (target : String) (faults : List FaultEvent)
      → Tries {A = ReconcileResult} e.env.cloud
          (elim faults [ [] ↦ create_new e | f ∷ fs ↦ defer_creation (e.env) target (f ∷ fs) ])
  Tries-by_faults target [] = Tries-create_new
  Tries-by_faults target (f ∷ fs) = Tries-Moves (Moves-defer_creation (e.env) target (f ∷ fs))

  pub Tries-check_and_create : Tries e.env.cloud (check_and_create e)
  unfolding check_and_create
  Tries-check_and_create = record {
    at = λ w.
        (Tries-bind (Moves-target_faults (e.env) w.object.machine.spec.instance_type)
            (Tries-by_faults w.object.machine.spec.instance_type.machine_id)).at
          w;
  }
