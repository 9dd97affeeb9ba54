-- ===== src/Machine/Entry.antt =====
-- `Reconcile` of internal/controller/ncxinframachine_controller.go and `NewMachineScope` of
-- pkg/scope/machine.go. What the Kubernetes API answers comes in as arguments.
pub mod Permitted
use cluster_api_provider_nvi.Common.{
  ℕ, String, Bool, true, false, not, ◌||◌, Option, none, some, ◌<>◌, is_empty, is_nil,
  if◌then◌else◌, List, [],
}
use cluster_api_provider_nvi.Common.Dict.{Dict}
use cluster_api_provider_nvi.Common.Exec.{Outcome, ok, failed, panic}
use cluster_api_provider_nvi.Api.Meta.{ReconcileResult}
use cluster_api_provider_nvi.Api.Cluster.{NcxInfraCluster}
use cluster_api_provider_nvi.Api.Machine.{NcxInfraMachine}
use cluster_api_provider_nvi.Sdk.Wire.{World}
use cluster_api_provider_nvi.Kube.{Env, Fetched, found, not_found, broken}
use cluster_api_provider_nvi.Cluster.Normal.{done}
use cluster_api_provider_nvi.Cluster.Entry.{Access, org_name_of, new_cluster_scope}
use cluster_api_provider_nvi.Machine.Scope.{
  OwnerMachine, MachineScope, MachineWorld, MachineError, MachineEnv, other,
}
use cluster_api_provider_nvi.Machine.Instance.{requeue_after}
use cluster_api_provider_nvi.Machine.Normal.{reconcile_normal}
use cluster_api_provider_nvi.Machine.Delete.{reconcile_delete}

-- What the Kubernetes API and the Cluster API utilities answer in one run.
pub record MachineInputs : Type 0 where
  pub get_machine : Fetched NcxInfraMachine
  -- `util.GetOwnerMachine`: an error, or the owner if there is one.
  pub owner : Outcome String (Option OwnerMachine)
  -- `util.GetClusterFromMetadata`: an error, or whether there is a cluster.
  pub cluster : Outcome String Bool
  pub get_infra_cluster : Fetched NcxInfraCluster
  -- `annotations.IsPaused`
  pub paused : Bool
  -- `patch.NewHelper`
  pub patch_helper_error : Option String
  -- `OrgName` of the reconciler, if its `NcxInfraClient` is set.
  pub client : Option String
  pub secrets : String × String → Fetched Dict

-- How a run ends: its result, and its last state, of which the deferred patch writes the
-- NcxInfraMachine only; none where the run ends before the patch is deferred.
pub record MachineRun : Type 0 where
  pub result : Outcome MachineError ReconcileResult
  pub last : Option MachineWorld

-- The object that the deferred patch sends.
unfoldable pub patched_machine : MachineRun → Option NcxInfraMachine
patched_machine r = elim (r.last) [ none ↦ none | some w ↦ some w.object.machine ]

abbrev stop : Outcome MachineError ReconcileResult → MachineRun
stop r = record { result = r; last = none }

abbrev pub fresh_world : NcxInfraMachine → OwnerMachine → NcxInfraCluster → MachineWorld
fresh_world m o c = record {
  object = record { machine = m; owner = o; cluster = c };
  calls = [];
  events = [];
  metrics = [];
}

abbrev run_of : Outcome MachineError ReconcileResult × MachineWorld → MachineRun
run_of (r, w) = record { result = r; last = some w }

-- The checks of `NewMachineScope`: all but the organization's name are given.
unfoldable pub check_org_name : Outcome String Access → Outcome String Access
check_org_name (ok access) =
    if is_empty (org_name_of access)
    then failed "failed to create machine scope: org name is required"
    else ok access
check_org_name (failed e) = failed ("failed to create cluster scope: " <> e)
check_org_name panic = panic

module _ {U : Type 0} (env : Access → MachineEnv U) where
  -- From the scopes on.
  unfoldable pub run_machine : MachineWorld → Outcome String Access → MachineRun
  unfolding reconcile_normal reconcile_delete
  run_machine w (ok access) = run_of (
      if w.object.machine.meta.deleted
      then reconcile_delete ((env access).env) w
      else reconcile_normal (env access) w)
  run_machine w (failed e) = record { result = failed (other e); last = some w }
  run_machine w panic = record { result = panic; last = some w }

  -- The three early returns, and the patch helper.
  unfoldable pub run_ready :
      MachineInputs → NcxInfraMachine → OwnerMachine → NcxInfraCluster → MachineRun
  unfolding run_machine new_cluster_scope check_org_name
  run_ready i m o c =
      if i.paused
      then stop (ok done)
      else if not c.status.ready || is_nil o.data_secret_name
      then stop (ok (requeue_after 10))
      else elim (i.patch_helper_error) [
        | some e ↦ stop (failed (other e))
        | none ↦
            run_machine (fresh_world m o c)
              (check_org_name (new_cluster_scope c i.client i.secrets))
      ]

  unfoldable pub run_cluster : MachineInputs → NcxInfraMachine → OwnerMachine → MachineRun
  unfolding run_ready
  run_cluster i m o = elim (i.get_infra_cluster) [
    | found c ↦ run_ready i m o c
    | not_found ↦ stop (failed (other "NcxInfraCluster not found"))
    | broken e ↦ stop (failed (other e))
  ]

  unfoldable pub run_owned : MachineInputs → NcxInfraMachine → OwnerMachine → MachineRun
  unfolding run_cluster
  run_owned i m o = elim (i.cluster) [
    | failed e ↦ stop (failed (other e))
    | panic ↦ stop panic
    | ok named ↦ if named then run_cluster i m o else stop (ok (requeue_after 10))
  ]

  unfoldable pub run_fetched : MachineInputs → NcxInfraMachine → MachineRun
  unfolding run_owned
  run_fetched i m = elim (i.owner) [
    | failed e ↦ stop (failed (other e))
    | panic ↦ stop panic
    | ok none ↦ stop (ok done)
    | ok (some o) ↦ run_owned i m o
  ]

  -- `Reconcile`
  unfoldable pub reconcile : MachineInputs → MachineRun
  unfolding run_fetched
  reconcile i = elim (i.get_machine) [
    | not_found ↦ stop (ok done)
    | broken e ↦ stop (failed (other e))
    | found m ↦ run_fetched i m
  ]
