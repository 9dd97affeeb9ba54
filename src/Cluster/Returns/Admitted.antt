-- ===== src/Cluster/Returns/Admitted.antt =====
-- From the admission by api/v1beta1/nvidiacarbidecluster_webhook.go to the end of `reconcileNormal` in
-- internal/controller/ncxinfracluster_controller.go.
use cluster_api_provider_nvi.Common.{String, true, [], ◌≡◌, refl, ap, ◌∙◌, arith}
use cluster_api_provider_nvi.Common.Exec.{Outcome, ok, failed, panic, continue}
use cluster_api_provider_nvi.Api.Meta.{ReconcileResult}
use cluster_api_provider_nvi.Webhook.Cluster.{validate_create}
use cluster_api_provider_nvi.Webhook.Cluster.Accepts.{validate_create_iff}
use cluster_api_provider_nvi.Kube.{Env, IsLawful}
use cluster_api_provider_nvi.Cluster.Scope.{ClusterWorld}
use cluster_api_provider_nvi.Cluster.Normal.{provision, announce_ready, reconcile_normal, done}
use cluster_api_provider_nvi.Cluster.Normal.Reconciled.{
  has_finalizer, IsReady, Ending, reconcile_normal-eq, reconcile_normal-Ending,
}
use cluster_api_provider_nvi.Cluster.Returns.Willing.{IsWilling}
use cluster_api_provider_nvi.Cluster.Returns.Stages.{provision-Returns}

announced :
    (env : Env) (r : Outcome String (Unit {0})) (w : ClusterWorld)
    → r ≡ ok tt
    → (continue r (λ _. announce_ready env) w).0 ≡ ok done
unfolding announce_ready
announced env r w e = ground (arith, e)

Ending-IsReady :
    (env : Env) (w : ClusterWorld) (r : Outcome String ReconcileResult) (w' : ClusterWorld)
    → r ≡ ok done
    → Ending env w (r, w')
    → IsReady env w w'
Ending-IsReady env w (ok a) w' e h = h.1
Ending-IsReady env w (failed x) w' e h = absurd (ground (arith, e))
Ending-IsReady env w panic w' e h = absurd (ground (arith, e))

-- A cluster that the webhook admits and that has its finalizer, whatever its status says, before a
-- service that makes what it is asked for with 201 and an ID, names the child IP block in its
-- allocations and lists the site if it is given by name, whatever else it answers to reads: one
-- run returns the empty result, and leaves the cluster ready, with metadata and spec as they were
-- and an ID for the VPC and for every subnet, prefix and peering of the spec.
pub reconcile_normal-admitted :
    (env : Env) (w : ClusterWorld)
    → IsLawful env.kube
    → has_finalizer env w ≡ true
    → validate_create w.object.spec ≡ []
    → IsWilling w.object.spec env.cloud
    → ((reconcile_normal env w).0 ≡ ok done) × IsReady env w (reconcile_normal env w).1
reconcile_normal-admitted env w lawful f accepted h =
    let good = (validate_create_iff w.object.spec).0 accepted in
    let (a, e, q) = (provision-Returns env w.object.spec h good).at w refl in
    let returned =
      ap (λ r. r.0) (reconcile_normal-eq env w f)
      ∙ announced env (provision env w).0 (provision env w).1 e in
    (
      returned,
      Ending-IsReady env w (reconcile_normal env w).0 (reconcile_normal env w).1 returned
          (reconcile_normal-Ending env lawful w f),
    )
