-- ===== src/Cluster/Normal.antt =====
-- `reconcileNormal` of internal/controller/ncxinfracluster_controller.go.
pub mod Frames
pub mod Recorded
pub mod Child
pub mod Stages
pub mod Provisioned
pub mod Reconciled
use cluster_api_provider_nvi.Common.{
  ℕ, String, Bool, true, false, not, List, [], ◌∷◌, Option, none, some, if◌then◌else◌,
}
use cluster_api_provider_nvi.Common.Exec.{
  Exec, Outcome, ok, failed, panic, pure, fail, lift, gets, modify, ◌>>=◌, ◌>>◌, on_failure, finish,
}
use cluster_api_provider_nvi.Api.Meta.{Condition, ReconcileResult}
use cluster_api_provider_nvi.Api.Cluster.{VpcPrefixSpec, VpcPeeringSpec, NsgSpec}
use cluster_api_provider_nvi.Kube.{Env}
use cluster_api_provider_nvi.Cluster.Scope.{
  ClusterExec, ClusterWorld, with_condition, with_finalizers, set_ready, site_id, record_event,
}
use cluster_api_provider_nvi.Cluster.Vpc.{reconcile_vpc}
use cluster_api_provider_nvi.Cluster.Allocation.{ensure_ip_block_and_allocation}
use cluster_api_provider_nvi.Cluster.Subnets.{
  reconcile_subnets, reconcile_vpc_prefixes, reconcile_vpc_peerings,
}
use cluster_api_provider_nvi.Cluster.Nsg.{reconcile_nsg}
use cluster_api_provider_nvi.Cluster.Delete.{cluster_finalizer}

abbrev pub failure : String → String → String → Condition
failure kind reason message = record {
  kind = kind;
  status = false;
  reason = reason;
  message = message;
}

abbrev pub success : String → String → Condition
success kind reason = record { kind = kind; status = true; reason = reason; message = "" }

-- `if err := step(); err != nil { conditions.Set(False, reason, err); return err }`
unfoldable pub guarded : {A : Type 0} → Env → String → String → ClusterExec A → ClusterExec A
unfolding on_failure
guarded env kind reason m = on_failure (λ e. with_condition env.kube (failure kind reason e)) m

unfoldable pub mark : Env → Condition → ClusterExec (Unit {0})
mark env c = modify (with_condition env.kube c)

-- The step for the prefixes, run only if the spec lists some.
unfoldable pub prefixes_step : Env → String → List VpcPrefixSpec → ClusterExec (Unit {0})
unfolding guarded
prefixes_step env site [] = pure tt
prefixes_step env site (p ∷ ps) =
    guarded env "SubnetsReady" "VPCPrefixReconcileFailed" (reconcile_vpc_prefixes env site)

unfoldable pub nsg_step : Env → String → Option NsgSpec → ClusterExec (Unit {0})
unfolding guarded mark
nsg_step env site none = pure tt
nsg_step env site (some spec) = do
  guarded env "NSGReady" "NSGReconcileFailed" (reconcile_nsg env site spec)
  mark env (success "NSGReady" "NSGReady")

unfoldable pub peerings_step : Env → String → List VpcPeeringSpec → ClusterExec (Unit {0})
unfolding guarded mark
peerings_step env site [] = pure tt
peerings_step env site (p ∷ ps) = do
  guarded env "VPCPeeringReady" "VPCPeeringReconcileFailed" (reconcile_vpc_peerings env site)
  mark env (success "VPCPeeringReady" "VPCPeeringReady")

unfoldable pub provision_peerings : Env → String → ClusterExec (Unit {0})
unfolding peerings_step
provision_peerings env site = do
  peerings ← gets (λ w. w.object.spec.vpc_peerings)
  peerings_step env site peerings

unfoldable pub provision_nsg : Env → String → ClusterExec (Unit {0})
unfolding nsg_step provision_peerings
provision_nsg env site = do
  nsg ← gets (λ w. w.object.spec.vpc.network_security_group)
  nsg_step env site nsg
  provision_peerings env site

unfoldable pub provision_prefixes : Env → String → ClusterExec (Unit {0})
unfolding prefixes_step provision_nsg
provision_prefixes env site = do
  prefixes ← gets (λ w. w.object.spec.vpc_prefixes)
  prefixes_step env site prefixes
  provision_nsg env site

unfoldable pub provision_subnets : Env → String → ClusterExec (Unit {0})
unfolding guarded mark provision_prefixes
provision_subnets env site = do
  guarded env "SubnetsReady" "SubnetReconcileFailed" (reconcile_subnets env site)
  mark env (success "SubnetsReady" "SubnetsReady")
  provision_prefixes env site

unfoldable pub provision_vpc : Env → String → ClusterExec (Unit {0})
unfolding guarded mark provision_subnets
provision_vpc env site = do
  guarded env "VPCReady" "VPCReconcileFailed" (reconcile_vpc env site)
  mark env (success "VPCReady" "VPCReady")
  provision_subnets env site

unfoldable pub provision_allocation : Env → String → ClusterExec (Unit {0})
unfolding guarded mark provision_vpc
provision_allocation env site = do
  _ ← guarded env "AllocationReady" "AllocationFailed" (ensure_ip_block_and_allocation env site)
  mark env (success "AllocationReady" "AllocationReady")
  provision_vpc env site

-- All that stands between the finalizer and the Ready condition, each part followed by the rest.
unfoldable pub provision : Env → ClusterExec (Unit {0})
unfolding guarded provision_allocation
provision env = do
  site ← guarded env "VPCReady" "SiteNotFound" (site_id env)
  provision_allocation env site

abbrev pub done : ReconcileResult
done = record { requeue = false; requeue_after = 0 }

abbrev pub requeue_now : ReconcileResult
requeue_now = record { requeue = true; requeue_after = 0 }

-- What follows a provisioning without an error.
unfoldable pub announce_ready : Env → ClusterExec ReconcileResult
unfolding set_ready mark record_event
announce_ready env = do
  set_ready true
  mark env (success "Ready" "NcxInfraClusterReady")
  record_event env "ClusterInfrastructureReady" "Cluster infrastructure is ready"
  pure done

unfoldable pub reconcile_normal : Env → ClusterExec ReconcileResult
unfolding provision announce_ready
reconcile_normal env = do
  finalizers ← gets (λ w. w.object.meta.finalizers)
  if not (env.kube.contains_finalizer finalizers cluster_finalizer)
      then (do
        modify (with_finalizers (λ fs. env.kube.add_finalizer fs cluster_finalizer))
        pure requeue_now)
      else (do provision env; announce_ready env)
