-- ===== src/Machine/Life/Deleted.antt =====
-- The end of the life of a NcxInfraMachine: no instance is left behind by
-- internal/controller/ncxinframachine_controller.go.
use cluster_api_provider_nvi.Common.{
  String, true, false, List, [], ◌∷◌, ◌++◌, ◌≡◌, ◌≢◌, sym, ap, ◌∙◌, arith, is_empty, is_empty_iff,
  Bool-cases, inl, inr,
}
use cluster_api_provider_nvi.Common.Exec.{Outcome, ok}
use cluster_api_provider_nvi.Api.Cluster.{NcxInfraCluster}
use cluster_api_provider_nvi.Api.Meta.{ReconcileResult}
use cluster_api_provider_nvi.Api.Machine.{NcxInfraMachine}
use cluster_api_provider_nvi.Sdk.Wire.{Call, delete_instance}
use cluster_api_provider_nvi.Kube.{Env}
use cluster_api_provider_nvi.Cluster.Normal.{done}
use cluster_api_provider_nvi.Machine.Scope.{OwnerMachine, MachineWorld, MachineError}
use cluster_api_provider_nvi.Machine.Delete.{reconcile_delete}
use cluster_api_provider_nvi.Machine.Delete.Released.{
  Deletion, is_gone, deletion_reply, reconcile_delete-Deletion,
}
use cluster_api_provider_nvi.Machine.Entry.{fresh_world}
use cluster_api_provider_nvi.Machine.Life.{Life, Life-settled}

nonempty : (s : String) → s ≢ "" → is_empty s ≡ false
nonempty s h = elim (Bool-cases (is_empty s)) [
  | inl e ↦ absurd (h ((is_empty_iff s).0 e))
  | inr e ↦ e
]

-- A deletion that ends a machine with an instance has deleted it.
Deletion-gone :
    (env : Env) (w v : MachineWorld) (r : Outcome MachineError ReconcileResult)
    → Deletion env w r v
    → r ≡ ok done
    → w.object.machine.status.instance_id ≢ ""
    → (v.calls ≡ w.calls ++ delete_instance w.object.machine.status.instance_id ∷ [])
      × (is_gone (deletion_reply env w) ≡ true)
Deletion-gone env w v r d e h =
    let full = nonempty w.object.machine.status.instance_id h in
    let calls = d.calls in let result = d.result in (grind arith, grind arith)

-- However long a machine with a recorded instance lives, the run that ends its deletion has asked the
-- service to delete that very instance, as its one call, and was answered with a success or 404.
pub Life-deleted :
    {U : Type 0} {m n : NcxInfraMachine} {calls : List Call} (env : Env) (o : OwnerMachine)
    (c : NcxInfraCluster)
    → Life U m calls n
    → m.status.instance_id ≢ ""
    → (reconcile_delete env (fresh_world n o c)).0 ≡ ok done
    → ((reconcile_delete env (fresh_world n o c)).1.calls
        ≡ delete_instance m.status.instance_id ∷ [])
      × (is_gone (env.cloud [] (delete_instance m.status.instance_id)) ≡ true)
Life-deleted {m} {n} env o c life h e =
    let (same, _) = (Life-settled life).0 h in
    let w = fresh_world n o c in
    let run = reconcile_delete env w in
    let (made, gone) =
      Deletion-gone env w run.1 run.0 (reconcile_delete-Deletion env w) e
        (λ empty. h (sym same ∙ empty)) in
    (
      made ∙ ap (λ id. delete_instance id ∷ []) same,
      sym (ap (λ id. is_gone (env.cloud [] (delete_instance id))) same) ∙ gone,
    )
