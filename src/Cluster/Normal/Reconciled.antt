-- ===== src/Cluster/Normal/Reconciled.antt =====
-- How `reconcileNormal` of internal/controller/ncxinfracluster_controller.go ends.
use cluster_api_provider_nvi.Common.{
  String, Bool, true, false, List, some, ◌≡◌, refl, sym, ap, arith, if◌then◌else◌,
}
use cluster_api_provider_nvi.Common.Exec.{Outcome, ok, failed, panic, continue}
use cluster_api_provider_nvi.Api.Meta.{ReconcileResult}
use cluster_api_provider_nvi.Sdk.Wire.{Event}
use cluster_api_provider_nvi.Kube.{IsLawful, Env}
use cluster_api_provider_nvi.Cluster.Scope.{ClusterWorld}
use cluster_api_provider_nvi.Cluster.Delete.{cluster_finalizer}
use cluster_api_provider_nvi.Cluster.Normal.{
  provision, announce_ready, reconcile_normal, success, done,
}
use cluster_api_provider_nvi.Cluster.Normal.Frames.{identity}
use cluster_api_provider_nvi.Cluster.Normal.Stages.{provision-Keeps}
use cluster_api_provider_nvi.Cluster.Normal.Provisioned.{IsProvisioned, provision-IsProvisioned}
use mathlib.Core.Path.{subst}

abbrev pub has_finalizer : Env → ClusterWorld → Bool
has_finalizer env w = env.kube.contains_finalizer w.object.meta.finalizers cluster_finalizer

-- The cluster is announced as ready, and its network is there.
pub record IsReady (env : Env) (w w' : ClusterWorld) : Type 0 where
  pub provisioned : IsProvisioned w'.object
  pub ready : w'.object.status.ready ≡ true
  pub announced :
      env.kube.get_condition "Ready" w'.object.status.conditions
      ≡ some (success "Ready" "NcxInfraClusterReady")
  pub same_meta : w'.object.meta ≡ w.object.meta
  pub same_spec : w'.object.spec ≡ w.object.spec

-- How a run ends on a cluster that has its finalizer.
abbrev pub Ending : Env → ClusterWorld → Outcome String ReconcileResult × ClusterWorld → Type 0
Ending env w (ok a, w') = (a ≡ done) × IsReady env w w'
Ending env w (failed e, w') = identity w'.object ≡ identity w.object
Ending env w (panic, w') = identity w'.object ≡ identity w.object

-- An event does not touch the object.
record_event-IsReady :
    (env : Env) (w v : ClusterWorld) (b : Bool) (events : List Event)
    → IsReady env w v
    → IsReady env w (if b then record v { events = events } else v)
record_event-IsReady env w v true events h = record {
  provisioned = h.provisioned;
  ready = h.ready;
  announced = h.announced;
  same_meta = h.same_meta;
  same_spec = h.same_spec;
}
record_event-IsReady env w v false events h = h

announce_ready-Ending :
    (env : Env) (lawful : IsLawful env.kube) (w : ClusterWorld) (r : Outcome String (Unit {0}))
    (w' : ClusterWorld)
    → (r ≡ ok tt → IsProvisioned w'.object)
    → identity w'.object ≡ identity w.object
    → Ending env w (continue r (λ _. announce_ready env) w')
unfolding announce_ready
announce_ready-Ending env lawful w (ok tt) w' p k =
    let there = p refl in
    (
      refl,
      record_event-IsReady env w _ env.recorder _ (record {
        provisioned = record {
          vpc = there.vpc;
          all_subnets = there.all_subnets;
          all_prefixes = there.all_prefixes;
          all_peerings = there.all_peerings;
        };
        ready = refl;
        announced =
            lawful.get-set (success "Ready" "NcxInfraClusterReady") w'.object.status.conditions;
        same_meta = ap (λ r. r.0) k;
        same_spec = ap (λ r. r.1.0) k;
      }),
    )
announce_ready-Ending env lawful w (failed e) w' p k = k
announce_ready-Ending env lawful w panic w' p k = k

pub reconcile_normal-eq :
    (env : Env) (w : ClusterWorld)
    → has_finalizer env w ≡ true
    → reconcile_normal env w
      ≡ continue (provision env w).0 (λ _. announce_ready env) (provision env w).1
unfolding reconcile_normal
reconcile_normal-eq env w h = ground arith

-- On a cluster with its finalizer, the reconcile either returns the empty result, with `Ready` set,
-- the Ready condition true, an ID for the VPC and for every subnet, prefix and peering of the spec, and
-- metadata and spec as they were; or it ends early, and metadata, spec and `Ready` are as they were.
pub reconcile_normal-Ending :
    (env : Env) (lawful : IsLawful env.kube) (w : ClusterWorld)
    → has_finalizer env w ≡ true
    → Ending env w (reconcile_normal env w)
reconcile_normal-Ending env lawful w h = subst (Ending env w) (sym (reconcile_normal-eq env w h)) (
    announce_ready-Ending env lawful w (provision env w).0 (provision env w).1
      (λ e.
        (provision-IsProvisioned env).at w tt (provision env w).1 tt
          (ap (λ r. (r, (provision env w).1)) e))
      ((provision-Keeps env).at w))
