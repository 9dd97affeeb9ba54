-- ===== src/Machine/Entry/Permitted.antt =====
-- When `Reconcile` of internal/controller/ncxinframachine_controller.go calls the service.
use cluster_api_provider_nvi.Common.{
  String, true, false, [], none, some, ◌≡◌, ◌≢◌, ◌⊎◌, refl, arith, is_empty,
}
use cluster_api_provider_nvi.Common.Exec.{Outcome, ok, failed, panic}
use cluster_api_provider_nvi.Api.Cluster.{NcxInfraCluster}
use cluster_api_provider_nvi.Api.Machine.{NcxInfraMachine}
use cluster_api_provider_nvi.Kube.{found}
use cluster_api_provider_nvi.Cluster.Entry.{Access, org_name_of, new_cluster_scope}
use cluster_api_provider_nvi.Machine.Scope.{OwnerMachine, MachineWorld, MachineEnv}
use cluster_api_provider_nvi.Machine.Normal.{machine_finalizer, reconcile_normal}
use cluster_api_provider_nvi.Machine.Entry.{
  MachineInputs, fresh_world, check_org_name, run_machine, run_ready, run_cluster, run_owned,
  run_fetched, reconcile,
}

-- Everything that it takes: the objects that were read, no pause of the cluster or the NcxInfraMachine, a
-- cluster that is ready, the name of the bootstrap secret, a scope with an organization, and a machine
-- that is deleted or has its finalizer.
pub record IsPermitted {U : Type 0} (env : Access → MachineEnv U) (i : MachineInputs) : Type 0 where
  pub machine : NcxInfraMachine
  pub owner : OwnerMachine
  pub cluster : NcxInfraCluster
  pub access : Access
  pub fetched : i.get_machine ≡ found machine
  pub owned : i.owner ≡ ok (some owner)
  pub clustered : i.cluster ≡ ok true
  pub fetched_cluster : i.get_infra_cluster ≡ found cluster
  pub unpaused : i.paused ≡ false
  pub ready : cluster.status.ready ≡ true
  pub bootstrapped : owner.data_secret_name ≢ none
  pub patchable : i.patch_helper_error ≡ none
  pub scoped : new_cluster_scope cluster i.client i.secrets ≡ ok access
  pub named : is_empty (org_name_of access) ≡ false
  pub guarded :
      (machine.meta.deleted ≡ true)
      ⊎ ((env access).env.kube.contains_finalizer machine.meta.finalizers machine_finalizer ≡ true)

check_org_name-ok :
    (r : Outcome String Access) (access : Access)
    → check_org_name r ≡ ok access
    → (r ≡ ok access) × (is_empty (org_name_of access) ≡ false)
unfolding check_org_name
check_org_name-ok (ok c) access e = (ground arith, ground arith)
check_org_name-ok (failed x) access e = absurd (ground arith)
check_org_name-ok panic access e = absurd (ground arith)

module _ {U : Type 0} (env : Access → MachineEnv U) where
  run_machine-guarded :
      (w v : MachineWorld) (r : Outcome String Access)
      → w.calls ≡ []
      → (run_machine env w r).last ≡ some v
      → v.calls ≢ []
      → (access : Access) × (r ≡ ok access)
        × ((w.object.machine.meta.deleted ≡ true)
            ⊎ ((env access).env.kube.contains_finalizer w.object.machine.meta.finalizers
                  machine_finalizer
                ≡ true))
  unfolding run_machine reconcile_normal
  run_machine-guarded w v (ok access) start e h = (access, refl, ground arith)
  run_machine-guarded w v (failed x) start e h = absurd (ground arith)
  run_machine-guarded w v panic start e h = absurd (ground arith)

  run_ready-run_machine :
      (i : MachineInputs) (m : NcxInfraMachine) (o : OwnerMachine) (c : NcxInfraCluster)
      (v : MachineWorld)
      → (run_ready env i m o c).last ≡ some v
      → (i.paused ≡ false)
        × (c.status.ready ≡ true)
        × (o.data_secret_name ≢ none)
        × (i.patch_helper_error ≡ none)
        × ((run_machine env
              (fresh_world m o c)
              (check_org_name (new_cluster_scope c i.client i.secrets))).last
            ≡ some v)
  unfolding run_ready
  run_ready-run_machine i m o c v e =
      (ground arith, ground arith, ground arith, ground arith, ground arith)

  run_cluster-run_ready :
      (i : MachineInputs) (m : NcxInfraMachine) (o : OwnerMachine) (v : MachineWorld)
      → (run_cluster env i m o).last ≡ some v
      → (c : NcxInfraCluster) × (i.get_infra_cluster ≡ found c)
        × ((run_ready env i m o c).last ≡ some v)
  unfolding run_cluster
  run_cluster-run_ready i m o v e = ground arith

  run_owned-run_cluster :
      (i : MachineInputs) (m : NcxInfraMachine) (o : OwnerMachine) (v : MachineWorld)
      → (run_owned env i m o).last ≡ some v
      → (i.cluster ≡ ok true) × ((run_cluster env i m o).last ≡ some v)
  unfolding run_owned
  run_owned-run_cluster i m o v e = (ground arith, ground arith)

  run_fetched-run_owned :
      (i : MachineInputs) (m : NcxInfraMachine) (v : MachineWorld)
      → (run_fetched env i m).last ≡ some v
      → (o : OwnerMachine) × (i.owner ≡ ok (some o)) × ((run_owned env i m o).last ≡ some v)
  unfolding run_fetched
  run_fetched-run_owned i m v e = ground arith

  reconcile-run_fetched :
      (i : MachineInputs) (v : MachineWorld)
      → (reconcile env i).last ≡ some v
      → (m : NcxInfraMachine) × (i.get_machine ≡ found m) × ((run_fetched env i m).last ≡ some v)
  unfolding reconcile
  reconcile-run_fetched i v e = ground arith

  -- A reconcile of a machine that called the service had all it takes: machine, owner and cluster were
  -- read, the cluster API utilities tell no pause of the cluster or the NcxInfraMachine, the cluster is
  -- ready, the bootstrap secret is named, a client was given or the credentials were read, either with an
  -- organization, and the machine is being deleted or had its finalizer already.
  pub reconcile_machine-IsPermitted :
      (i : MachineInputs) (v : MachineWorld)
      → (reconcile env i).last ≡ some v
      → v.calls ≢ []
      → IsPermitted env i
  reconcile_machine-IsPermitted i v e h =
      let (m, fetched, e) = reconcile-run_fetched i v e in
      let (o, owned, e) = run_fetched-run_owned i m v e in
      let (clustered, e) = run_owned-run_cluster i m o v e in
      let (c, fetched_cluster, e) = run_cluster-run_ready i m o v e in
      let (unpaused, ready, bootstrapped, patchable, e) = run_ready-run_machine i m o c v e in
      let (access, checked, guarded) =
        run_machine-guarded (fresh_world m o c) v
          (check_org_name (new_cluster_scope c i.client i.secrets)) refl e h in
      let (scoped, named) =
        check_org_name-ok (new_cluster_scope c i.client i.secrets) access checked in
      record {
        machine = m;
        owner = o;
        cluster = c;
        access = access;
        fetched = fetched;
        owned = owned;
        clustered = clustered;
        fetched_cluster = fetched_cluster;
        unpaused = unpaused;
        ready = ready;
        bootstrapped = bootstrapped;
        patchable = patchable;
        scoped = scoped;
        named = named;
        guarded = guarded;
      }
