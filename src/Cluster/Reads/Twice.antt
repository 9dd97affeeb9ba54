-- ===== src/Cluster/Reads/Twice.antt =====
-- `reconcileNormal` of internal/controller/ncxinfracluster_controller.go run again after it succeeded.
use cluster_api_provider_nvi.Common.{String, true, some, ◌≡◌, ◌≢◌, refl, ap, sym, ◌∙◌, arith}
use cluster_api_provider_nvi.Common.Exec.{Outcome, ok, failed, panic, continue}
use cluster_api_provider_nvi.Api.Meta.{ReconcileResult}
use cluster_api_provider_nvi.Api.Cluster.{NsgSpec}
use cluster_api_provider_nvi.Sdk.Wire.{Cloud}
use cluster_api_provider_nvi.Kube.{Env, IsLawful}
use cluster_api_provider_nvi.Cluster.Scope.{ClusterWorld}
use cluster_api_provider_nvi.Cluster.Delete.{cluster_finalizer}
use cluster_api_provider_nvi.Cluster.Normal.{provision, announce_ready, reconcile_normal}
use cluster_api_provider_nvi.Cluster.Normal.Child.{HasChild, provision-HasChild}
use cluster_api_provider_nvi.Cluster.Normal.Reconciled.{
  has_finalizer, Ending, reconcile_normal-eq, reconcile_normal-Ending,
}
use cluster_api_provider_nvi.Cluster.Reads.Steps.{HasNetwork}
use cluster_api_provider_nvi.Cluster.Reads.Quiet.{IsQuiet, reconcile_normal_steady}
use mathlib.Core.Path.{subst}

announce_ready-HasChild :
    (env : Env) (r : Outcome String (Unit {0})) (w : ClusterWorld) (a : ReconcileResult)
    (w' : ClusterWorld)
    → (r ≡ ok tt → HasChild w)
    → continue r (λ _. announce_ready env) w ≡ (ok a, w')
    → HasChild w'
unfolding announce_ready
announce_ready-HasChild env (ok tt) w a w' h e = ground (arith, h refl)
announce_ready-HasChild env (failed x) w a w' h e = absurd (ground arith)
announce_ready-HasChild env panic w a w' h e = absurd (ground arith)

reconcile_normal-HasChild :
    (env : Env) (w w' : ClusterWorld) (a : ReconcileResult)
    → has_finalizer env w ≡ true
    → reconcile_normal env w ≡ (ok a, w')
    → HasChild w'
reconcile_normal-HasChild env w w' a f e =
    announce_ready-HasChild env (provision env w).0 (provision env w).1 a w'
      (λ same.
        (provision-HasChild env).at w tt (provision env w).1 tt
          (ap (λ r. (r, (provision env w).1)) same))
      (sym (reconcile_normal-eq env w f) ∙ e)

-- The second run may meet another service; the rest of its environment is the same.
abbrev pub later : Env → Cloud → Env
later env cloud = record env { cloud = cloud }

-- A run on a cluster that has its finalizer and names its site by ID succeeded, and recorded a security
-- group if the spec asks for one. Then a second run, before a service that finds the recorded resources as
-- long as nothing but reads of them came since the first run, only reads: it returns the empty result, reads each resource once, and the child
-- IP block before each step that needs it, in order, makes no other call, leaves metadata, spec and the
-- recorded IDs as they were, changes no metric and announces that the infrastructure is ready.
pub reconcile_normal_twice :
    (env : Env) (cloud : Cloud) (w w' : ClusterWorld) (a : ReconcileResult)
    → IsLawful env.kube
    → HasNetwork cloud w'.calls w'.object
    → has_finalizer env w ≡ true
    → w.object.spec.site_ref.id ≢ ""
    → reconcile_normal env w ≡ (ok a, w')
    → ((s : NsgSpec)
        → w.object.spec.vpc.network_security_group ≡ some s
        → w'.object.status.network_status.nsg_id ≢ "")
    → IsQuiet (later env cloud) w' (reconcile_normal (later env cloud) w')
reconcile_normal_twice env cloud w w' a lawful there f site e nsg =
    let ready = (subst (Ending env w) e (reconcile_normal-Ending env lawful w f)).1 in
    reconcile_normal_steady (later env cloud) w' there
      (ap (λ m. env.kube.contains_finalizer m.finalizers cluster_finalizer) ready.same_meta ∙ f)
      (record {
        site = λ z. site (sym (ap (λ s. s.site_ref.id) ready.same_spec) ∙ z);
        child = reconcile_normal-HasChild env w w' a f e;
        vpc = ready.provisioned.vpc;
        nsg = λ s z. nsg s (sym (ap (λ s. s.vpc.network_security_group) ready.same_spec) ∙ z);
        subnets = ready.provisioned.all_subnets;
        prefixes = ready.provisioned.all_prefixes;
        peerings = ready.provisioned.all_peerings;
      })
