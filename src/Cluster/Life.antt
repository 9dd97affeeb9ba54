-- ===== src/Cluster/Life.antt =====
-- A cluster over many runs of `Reconcile` in internal/controller/ncxinfracluster_controller.go.
use cluster_api_provider_nvi.Common.{String, true, false, [], some, ◌≡◌, sym, ap, ◌∙◌, arith}
use cluster_api_provider_nvi.Common.Exec.{Outcome, ok, failed, panic}
use cluster_api_provider_nvi.Api.Meta.{ReconcileResult}
use cluster_api_provider_nvi.Api.Cluster.{NcxInfraCluster, NcxInfraClusterStatus}
use cluster_api_provider_nvi.Kube.{Env, IsLawful, found}
use cluster_api_provider_nvi.Cluster.Scope.{ClusterWorld}
use cluster_api_provider_nvi.Cluster.Delete.{reconcile_delete, cluster_finalizer}
use cluster_api_provider_nvi.Cluster.Delete.Teardown.{HasMaps, teardown}
use cluster_api_provider_nvi.Cluster.Delete.Retry.{Result, reconcile_delete-Result}
use cluster_api_provider_nvi.Cluster.Entry.{
  Access, ClusterInputs, dispatch, new_cluster_scope, reconcile,
}
use cluster_api_provider_nvi.Cluster.Maps.Provisioning.{reconcile_normal-KeepsMaps}
use cluster_api_provider_nvi.Cluster.Maps.Deletion.{reconcile_delete-KeepsMaps}
use mathlib.Core.Path.{subst}

-- The status after any number of runs. Each finds a cluster with the status that the last one left,
-- while its metadata and spec may have been edited, and meets any service, utilities and API server.
pub data Life (start : NcxInfraClusterStatus) : NcxInfraClusterStatus → Type 0 where
  begun : Life start start
  run :
      {s s' : NcxInfraClusterStatus} (env : Access → Env) (i : ClusterInputs) (c : NcxInfraCluster)
      (w : ClusterWorld)
      → Life start s
      → i.get_cluster ≡ found c
      → c.status ≡ s
      → (reconcile env i).patched ≡ some w
      → w.object.status ≡ s'
      → Life start s'

abbrev start_world : NcxInfraCluster → ClusterWorld
start_world c = record { object = c; calls = []; events = []; metrics = [] }

dispatch-HasMaps :
    (env : Access → Env) (c : NcxInfraCluster) (r : Outcome String Access) (w : ClusterWorld)
    → (dispatch env c r).patched ≡ some w
    → HasMaps c.status
    → HasMaps w.object.status
unfolding dispatch
dispatch-HasMaps env c (ok access) w e h = ground (
  arith,
  (reconcile_normal-KeepsMaps (env access)).at (start_world c) h,
  (reconcile_delete-KeepsMaps (env access)).at (start_world c) h,
)
dispatch-HasMaps env c (failed x) w e h = ground arith
dispatch-HasMaps env c panic w e h = ground arith

-- A run whose patch is written came to its scope.
reconcile-eq :
    (env : Access → Env) (i : ClusterInputs) (c : NcxInfraCluster) (w : ClusterWorld)
    → i.get_cluster ≡ found c
    → (reconcile env i).patched ≡ some w
    → reconcile env i ≡ dispatch env c (new_cluster_scope c i.client i.secrets)
unfolding reconcile
reconcile-eq env i c w f e = ground arith

-- However long a cluster lives, its status maps hold no key twice.
pub Life-HasMaps : {start s : NcxInfraClusterStatus} → HasMaps start → Life start s → HasMaps s
Life-HasMaps h begun = h
Life-HasMaps h (run env i c w past f same e end) =
    let before = subst HasMaps (sym same) (Life-HasMaps h past) in
    let patched = ap (λ r. r.patched) (sym (reconcile-eq env i c w f e)) ∙ e in
    subst HasMaps end
      (dispatch-HasMaps env c (new_cluster_scope c i.client i.secrets) w patched before)

-- What the run of a deletion leaves.
pub record IsGone (env : Access → Env) (s : NcxInfraClusterStatus) (w : ClusterWorld) : Type 0 where
  pub access : Access
  pub made : w.calls ≡ teardown s
  pub nothing_left : teardown w.object.status ≡ []
  pub released :
      (env access).kube.contains_finalizer w.object.meta.finalizers cluster_finalizer ≡ false

torn-IsGone :
    (env : Access → Env) (access : Access) (c : NcxInfraCluster)
    (r : Outcome String ReconcileResult) (w w' : ClusterWorld) (a : ReconcileResult)
    → Result (env access) (start_world c) (r, w')
    → r ≡ ok a
    → w' ≡ w
    → IsGone env c.status w
torn-IsGone env access c (ok b) w w' a h e same = record {
  access = access;
  made = ap (λ (v : ClusterWorld). v.calls) (sym same) ∙ h.made;
  nothing_left = ap (λ (v : ClusterWorld). teardown v.object.status) (sym same) ∙ h.nothing_left;
  released =
      ap
        (λ (v : ClusterWorld).
          (env access).kube.contains_finalizer v.object.meta.finalizers cluster_finalizer)
        (sym same)
      ∙ h.released;
}
torn-IsGone env access c (failed x) w w' a h e same = absurd (ground (arith, e))
torn-IsGone env access c panic w w' a h e same = absurd (ground (arith, e))

dispatch-IsGone :
    (env : Access → Env) (c : NcxInfraCluster) (r : Outcome String Access) (w : ClusterWorld)
    (a : ReconcileResult)
    → ((access : Access) → IsLawful (env access).kube)
    → HasMaps c.status
    → c.meta.deleted ≡ true
    → (dispatch env c r).patched ≡ some w
    → (dispatch env c r).result ≡ ok a
    → IsGone env c.status w
unfolding dispatch
dispatch-IsGone env c (ok access) w a lawful h gone e fine =
    let run = reconcile_delete (env access) (start_world c) in
    torn-IsGone env access c run.0 w run.1 a
      (reconcile_delete-Result (env access) (lawful access) (start_world c) h) (ground arith)
      (ground arith)
dispatch-IsGone env c (failed x) w a lawful h gone e fine = absurd (ground arith)
dispatch-IsGone env c panic w a lawful h gone e fine = absurd (ground arith)

-- However long a cluster has lived since its status held each key once, as an empty one does, with any
-- service, utilities, edits of its metadata and spec, and failures: with lawful utilities, a run on it when
-- it is being deleted, that returns without an error and whose patch is written, has made exactly the delete
-- calls of the resources that the status records, in their order, leaves a status that asks for no
-- deletion, and has released the finalizer.
pub Life-teardown :
    {start s : NcxInfraClusterStatus} (env : Access → Env) (i : ClusterInputs) (c : NcxInfraCluster)
    (w : ClusterWorld) (a : ReconcileResult)
    → HasMaps start
    → Life start s
    → ((access : Access) → IsLawful (env access).kube)
    → i.get_cluster ≡ found c
    → c.status ≡ s
    → c.meta.deleted ≡ true
    → (reconcile env i).patched ≡ some w
    → (reconcile env i).result ≡ ok a
    → IsGone env s w
Life-teardown env i c w a h past lawful f same gone e fine =
    let eq = reconcile-eq env i c w f e in
    subst (λ t. IsGone env t w) same
      (dispatch-IsGone env c (new_cluster_scope c i.client i.secrets) w a lawful
        (subst HasMaps (sym same) (Life-HasMaps h past)) gone (ap (λ r. r.patched) (sym eq) ∙ e)
        (ap (λ r. r.result) (sym eq) ∙ fine))
