-- ===== src/Cluster/Entry/Permitted.antt =====
-- When `Reconcile` of internal/controller/ncxinfracluster_controller.go calls the service.
use cluster_api_provider_nvi.Common.{
  String, true, false, [], none, some, ◌≡◌, ◌≢◌, ◌⊎◌, refl, arith,
}
use cluster_api_provider_nvi.Common.Exec.{Outcome, ok, failed, panic}
use cluster_api_provider_nvi.Api.Cluster.{NcxInfraCluster}
use cluster_api_provider_nvi.Kube.{Env}
use cluster_api_provider_nvi.Kube.{found}
use cluster_api_provider_nvi.Cluster.Scope.{ClusterWorld}
use cluster_api_provider_nvi.Cluster.Delete.{cluster_finalizer}
use cluster_api_provider_nvi.Cluster.Normal.{reconcile_normal}
use cluster_api_provider_nvi.Cluster.Entry.{
  Access, ClusterInputs, new_cluster_scope, dispatch, with_owner, with_cluster, reconcile,
}

-- The object that was read, with an owner, not paused, a scope, and deleted or with its finalizer.
pub record IsPermitted (env : Access → Env) (i : ClusterInputs) (c : NcxInfraCluster) : Type 0 where
  pub fetched : i.get_cluster ≡ found c
  pub owned : i.owner ≡ ok true
  pub unpaused : i.paused ≡ false
  pub patchable : i.patch_helper_error ≡ none
  pub access : Access
  pub scoped : new_cluster_scope c i.client i.secrets ≡ ok access
  pub guarded :
      (c.meta.deleted ≡ true)
      ⊎ ((env access).kube.contains_finalizer c.meta.finalizers cluster_finalizer ≡ true)

dispatch-guarded :
    (env : Access → Env) (c : NcxInfraCluster) (r : Outcome String Access) (w : ClusterWorld)
    → (dispatch env c r).patched ≡ some w
    → w.calls ≢ []
    → (access : Access) × (r ≡ ok access)
      × ((c.meta.deleted ≡ true)
          ⊎ ((env access).kube.contains_finalizer c.meta.finalizers cluster_finalizer ≡ true))
unfolding dispatch reconcile_normal
dispatch-guarded env c (ok access) w e h = (access, refl, ground arith)
dispatch-guarded env c (failed x) w e h = absurd (ground arith)
dispatch-guarded env c panic w e h = absurd (ground arith)

pub with_owner-dispatch :
    (env : Access → Env) (i : ClusterInputs) (c : NcxInfraCluster) (w : ClusterWorld)
    → (with_owner env i c).patched ≡ some w
    → (i.paused ≡ false)
      × (i.patch_helper_error ≡ none)
      × ((dispatch env c (new_cluster_scope c i.client i.secrets)).patched ≡ some w)
unfolding with_owner
with_owner-dispatch env i c w e = (ground arith, ground arith, ground arith)

pub with_cluster-with_owner :
    (env : Access → Env) (i : ClusterInputs) (c : NcxInfraCluster) (w : ClusterWorld)
    → (with_cluster env i c).patched ≡ some w
    → (i.owner ≡ ok true) × ((with_owner env i c).patched ≡ some w)
unfolding with_cluster
with_cluster-with_owner env i c w e = (ground arith, ground arith)

pub from_fetched :
    (env : Access → Env) (i : ClusterInputs) (w : ClusterWorld)
    → (reconcile env i).patched ≡ some w
    → (c : NcxInfraCluster) × (i.get_cluster ≡ found c) × ((with_cluster env i c).patched ≡ some w)
unfolding reconcile
from_fetched env i w e = ground arith

-- A reconcile that called the service at all had all it takes: the cluster was found, has an owner, is
-- not paused, a client was given or the credentials were read, and it is being deleted or had its
-- finalizer already.
pub reconcile-IsPermitted :
    (env : Access → Env) (i : ClusterInputs) (w : ClusterWorld)
    → (reconcile env i).patched ≡ some w
    → w.calls ≢ []
    → (c : NcxInfraCluster) × IsPermitted env i c
reconcile-IsPermitted env i w e h =
    let (c, fetched, e) = from_fetched env i w e in
    let (owned, e) = with_cluster-with_owner env i c w e in
    let (unpaused, patchable, e) = with_owner-dispatch env i c w e in
    let (access, scoped, guarded) =
      dispatch-guarded env c (new_cluster_scope c i.client i.secrets) w e h in
    (
      c,
      record {
        fetched = fetched;
        owned = owned;
        unpaused = unpaused;
        patchable = patchable;
        access = access;
        scoped = scoped;
        guarded = guarded;
      },
    )
