-- ===== src/Cluster/Reads/Quiet.antt =====
-- A whole run of `reconcileNormal` in internal/controller/ncxinfracluster_controller.go on a cluster that
-- is provisioned already.
use cluster_api_provider_nvi.Common.{
  String, true, false, List, [], ◌∷◌, ◌++◌, ◌≡◌, refl, arith, if◌then◌else◌,
}
use cluster_api_provider_nvi.Common.Exec.{Outcome, ok, continue}
use cluster_api_provider_nvi.Api.Meta.{ReconcileResult}
use cluster_api_provider_nvi.Api.Cluster.{NcxInfraCluster}
use cluster_api_provider_nvi.Sdk.Wire.{Event}
use cluster_api_provider_nvi.Kube.{Env}
use cluster_api_provider_nvi.Cluster.Scope.{ClusterWorld}
use cluster_api_provider_nvi.Cluster.Normal.{provision, announce_ready, reconcile_normal, done}
use cluster_api_provider_nvi.Cluster.Normal.Reconciled.{has_finalizer, reconcile_normal-eq}
use cluster_api_provider_nvi.Cluster.Reads.{IsLike, HasRead, OnlyRead-refl}
use cluster_api_provider_nvi.Cluster.Reads.Steps.{HasNetwork}
use cluster_api_provider_nvi.Cluster.Reads.Planned.{IsSteady, planned_reads}
use cluster_api_provider_nvi.Cluster.Reads.Stages.{provision-Reads}

-- What is left of a run behind its provisioning.
abbrev announced : Env → ClusterWorld → List Event
announced env w =
    if env.recorder
    then w.events
      ++ (record {
        is_warning = false;
        reason = "ClusterInfrastructureReady";
        message = "Cluster infrastructure is ready";
      })
        ∷ []
    else w.events

-- How such a run ends: with the empty result, `Ready` set, and the calls that were planned.
pub record IsQuiet (env : Env) (w : ClusterWorld)
    (end : Outcome String ReconcileResult × ClusterWorld) : Type 0 where
  pub returned : end.0 ≡ ok done
  pub like : IsLike w.object end.1.object
  pub ready : end.1.object.status.ready ≡ true
  pub called : end.1.calls ≡ w.calls ++ planned_reads w.object
  pub announces : end.1.events ≡ announced env w
  pub no_metric : end.1.metrics ≡ w.metrics

announce_ready-IsQuiet :
    (env : Env) (w : ClusterWorld) (end : Outcome String (Unit {0}) × ClusterWorld)
    → HasRead w.object w tt (planned_reads w.object) end
    → IsQuiet env w (continue end.0 (λ _. announce_ready env) end.1)
unfolding announce_ready
announce_ready-IsQuiet env w end h =
    ground (arith, h.returned, h.like, h.called, h.no_event, h.no_metric)

IsLike-refl : (o : NcxInfraCluster) → IsLike o o
IsLike-refl o = record { same_meta = refl; same_spec = refl; same_vpc = refl; same_network = refl }

-- A run on a cluster that has its finalizer, whose site is given by its ID and whose status has an ID for
-- all that the spec asks for, before a service that finds each of these resources as long as only they were read since: it returns the
-- empty result with `Ready` set; reads each resource once, and the child IP block before each step
-- that needs it, in order, and makes no other call; leaves metadata, spec and the IDs of the status as
-- they were; changes no metric, and announces that the infrastructure is ready.
pub reconcile_normal_steady :
    (env : Env) (w : ClusterWorld)
    → HasNetwork env.cloud w.calls w.object
    → has_finalizer env w ≡ true
    → IsSteady w.object
    → IsQuiet env w (reconcile_normal env w)
reconcile_normal_steady env w there f h = rw (reconcile_normal-eq env w f) (
    announce_ready-IsQuiet env w (provision env w) (
      (provision-Reads env w.calls w.object there h).at w (OnlyRead-refl w.calls w.object)
        (IsLike-refl w.object)))
