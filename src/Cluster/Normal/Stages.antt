-- ===== src/Cluster/Normal/Stages.antt =====
-- The stages of `reconcileNormal` in internal/controller/ncxinfracluster_controller.go: what each
-- leaves alone, whatever its outcome.
use cluster_api_provider_nvi.Common.{String, List, [], ◌∷◌, Option, none, some, ◌≡◌, refl}
use cluster_api_provider_nvi.Api.Meta.{Condition}
use cluster_api_provider_nvi.Api.Cluster.{NcxInfraCluster, VpcPrefixSpec, VpcPeeringSpec, NsgSpec}
use cluster_api_provider_nvi.Kube.{Env}
use cluster_api_provider_nvi.Cluster.Scope.{ClusterWorld, ClusterExec, with_condition}
use cluster_api_provider_nvi.Cluster.Keeps.{
  Keeps, Keeps-pure, Keeps-gets, Keeps-bind, Keeps-on_failure, Keeps-of,
}
use cluster_api_provider_nvi.Cluster.Normal.{
  guarded, mark, failure, prefixes_step, nsg_step, peerings_step, provision_peerings, provision_nsg,
  provision_prefixes, provision_subnets, provision_vpc, provision_allocation, provision,
}
use cluster_api_provider_nvi.Cluster.Normal.Frames.{
  identity, with_vpc, with_subnets, with_prefixes, site_id-Keeps,
  ensure_ip_block_and_allocation-Keeps, reconcile_vpc-Keeps, reconcile_subnets-Keeps,
  reconcile_vpc_prefixes-Keeps, reconcile_nsg-Keeps, reconcile_vpc_peerings-Keeps,
}

module _ {X : Type 0} {read : NcxInfraCluster → X} (env : Env)
    (stable : (c : Condition) (w : ClusterWorld)
      → read (with_condition env.kube c w).object ≡ read w.object) where
  pub mark-Keeps : (c : Condition) → Keeps read (mark env c)
  unfolding mark
  mark-Keeps c = record { at = stable c }

  pub guarded-Keeps :
      {A : Type 0} (kind reason : String) (m : ClusterExec A)
      → Keeps read m
      → Keeps read (guarded env kind reason m)
  unfolding guarded
  guarded-Keeps kind reason m k = Keeps-on_failure _ m (λ e. stable (failure kind reason e)) k

pub prefixes_step-Keeps :
    (env : Env) (site : String) (l : List VpcPrefixSpec)
    → Keeps with_subnets (prefixes_step env site l)
unfolding prefixes_step
prefixes_step-Keeps env site [] = Keeps-pure tt
prefixes_step-Keeps env site (p ∷ ps) =
    guarded-Keeps env (λ c w. refl) _ _ _ (reconcile_vpc_prefixes-Keeps env site)

pub nsg_step-Keeps :
    (env : Env) (site : String) (o : Option NsgSpec) → Keeps with_prefixes (nsg_step env site o)
unfolding nsg_step
nsg_step-Keeps env site none = Keeps-pure tt
nsg_step-Keeps env site (some s) =
    Keeps-bind (guarded-Keeps env (λ c w. refl) _ _ _ (reconcile_nsg-Keeps env site s))
      (λ _. mark-Keeps env (λ c w. refl) _)

pub peerings_step-Keeps :
    (env : Env) (site : String) (l : List VpcPeeringSpec)
    → Keeps with_prefixes (peerings_step env site l)
unfolding peerings_step
peerings_step-Keeps env site [] = Keeps-pure tt
peerings_step-Keeps env site (p ∷ ps) =
    Keeps-bind (guarded-Keeps env (λ c w. refl) _ _ _ (reconcile_vpc_peerings-Keeps env site))
      (λ _. mark-Keeps env (λ c w. refl) _)

pub provision_peerings-Keeps :
    (env : Env) (site : String) → Keeps with_prefixes (provision_peerings env site)
unfolding provision_peerings
provision_peerings-Keeps env site = Keeps-bind (Keeps-gets _) (peerings_step-Keeps env site)

pub provision_nsg-Keeps : (env : Env) (site : String) → Keeps with_prefixes (provision_nsg env site)
unfolding provision_nsg
provision_nsg-Keeps env site =
    Keeps-bind (Keeps-gets _)
      (λ o. Keeps-bind (nsg_step-Keeps env site o) (λ _. provision_peerings-Keeps env site))

pub provision_prefixes-Keeps :
    (env : Env) (site : String) → Keeps with_subnets (provision_prefixes env site)
unfolding provision_prefixes
provision_prefixes-Keeps env site = Keeps-bind (Keeps-gets _) (λ l.
    Keeps-bind (prefixes_step-Keeps env site l)
      (λ _. Keeps-of (λ r. r.0) (provision_nsg-Keeps env site)))

pub provision_subnets-Keeps :
    (env : Env) (site : String) → Keeps with_vpc (provision_subnets env site)
unfolding provision_subnets
provision_subnets-Keeps env site =
    Keeps-bind (guarded-Keeps env (λ c w. refl) _ _ _ (reconcile_subnets-Keeps env site)) (λ _.
      Keeps-bind (mark-Keeps env (λ c w. refl) _)
        (λ _. Keeps-of (λ r. r.0) (provision_prefixes-Keeps env site)))

provision_vpc-Keeps : (env : Env) (site : String) → Keeps identity (provision_vpc env site)
unfolding provision_vpc
provision_vpc-Keeps env site =
    Keeps-bind (guarded-Keeps env (λ c w. refl) _ _ _ (reconcile_vpc-Keeps env site)) (λ _.
      Keeps-bind (mark-Keeps env (λ c w. refl) _)
        (λ _. Keeps-of (λ r. r.0) (provision_subnets-Keeps env site)))

provision_allocation-Keeps :
    (env : Env) (site : String) → Keeps identity (provision_allocation env site)
unfolding provision_allocation
provision_allocation-Keeps env site =
    Keeps-bind
      (guarded-Keeps env (λ c w. refl) _ _ _
        (Keeps-of (λ r. r.0.0.0) (ensure_ip_block_and_allocation-Keeps env site)))
      (λ _. Keeps-bind (mark-Keeps env (λ c w. refl) _) (λ _. provision_vpc-Keeps env site))

-- Whatever the outcome, provisioning changes neither the metadata nor the spec nor `Ready`.
pub provision-Keeps : (env : Env) → Keeps identity (provision env)
unfolding provision
provision-Keeps env =
    Keeps-bind (guarded-Keeps env (λ c w. refl) _ _ _ (Keeps-of (λ r. r.0.0.0) (site_id-Keeps env)))
      (provision_allocation-Keeps env)
