-- ===== src/Cluster/Responds/Provisioning.antt =====
-- `reconcileNormal` of internal/controller/ncxinfracluster_controller.go and nil responses.
use cluster_api_provider_nvi.Common.{
  String, not, List, [], ◌∷◌, Option, none, some, ◌≢◌, arith, is_empty,
}
use cluster_api_provider_nvi.Common.Exec.{panic, pure}
use cluster_api_provider_nvi.Sdk.{Site}
use cluster_api_provider_nvi.Api.Meta.{Condition}
use cluster_api_provider_nvi.Api.Cluster.{SubnetSpec, VpcPrefixSpec, VpcPeeringSpec, NsgSpec}
use cluster_api_provider_nvi.Cidr.{parse_cidr}
use cluster_api_provider_nvi.Kube.{Env}
use cluster_api_provider_nvi.Cluster.Scope.{ClusterWorld, site_id, find_site, vpc_id}
use cluster_api_provider_nvi.Cluster.Vpc.{reconcile_vpc}
use cluster_api_provider_nvi.Cluster.Nsg.{reconcile_nsg}
use cluster_api_provider_nvi.Cluster.Allocation.{
  verify_child_ip_block, ensure_parent_ip_block, ensure_allocation, query_child_ip_block,
  build_child_ip_block, ensure_ip_block_and_allocation,
}
use cluster_api_provider_nvi.Cluster.Subnets.{
  reconcile_subnet, reconcile_vpc_prefix, reconcile_vpc_peering, reconcile_subnets,
  reconcile_vpc_prefixes, reconcile_vpc_peerings,
}
use cluster_api_provider_nvi.Cluster.Delete.{cluster_finalizer}
use cluster_api_provider_nvi.Cluster.Normal.{
  mark, prefixes_step, nsg_step, peerings_step, provision_peerings, provision_nsg,
  provision_prefixes, provision_subnets, provision_vpc, provision_allocation, provision,
  announce_ready, reconcile_normal,
}
use cluster_api_provider_nvi.Cluster.Responds.{
  HasResponses, HasReadResponses, IsSafe, IsSafe-bind, IsSafe-pure, IsSafe-gets, IsSafe-if,
  IsSafe-fail, IsSafe-guarded, IsSafe-wrap_exec, IsSafe-for_each,
}

parse_cidr-safe : (s : String) → parse_cidr s ≢ panic
unfolding parse_cidr
parse_cidr-safe s = ground arith

module _ (env : Env) (h : HasReadResponses env.cloud) where
  mark-IsSafe : (c : Condition) → IsSafe (mark env c)
  unfolding mark
  mark-IsSafe c = record { at = λ w. ground arith }

  find_site-safe : (name : String) (sites : List Site) → find_site name sites ≢ panic
  unfolding find_site
  find_site-safe name [] = ground arith
  find_site-safe name (site ∷ sites) = ground (arith, find_site-safe name sites)

  site_id-IsSafe : IsSafe (site_id env)
  unfolding site_id
  site_id-IsSafe = record { at = λ w. grind (arith, find_site-safe) }

  verify_child_ip_block-IsSafe : IsSafe (verify_child_ip_block env)
  unfolding verify_child_ip_block
  verify_child_ip_block-IsSafe = record { at = λ w. grind arith }

  ensure_parent_ip_block-IsSafe : (site : String) → IsSafe (ensure_parent_ip_block env site)
  unfolding ensure_parent_ip_block
  ensure_parent_ip_block-IsSafe site = record { at = λ w. grind (arith, h) }

  ensure_allocation-IsSafe : (site parent : String) → IsSafe (ensure_allocation env site parent)
  unfolding ensure_allocation
  ensure_allocation-IsSafe site parent = record { at = λ w. grind arith }

  query_child_ip_block-IsSafe : IsSafe (query_child_ip_block env)
  unfolding query_child_ip_block
  query_child_ip_block-IsSafe = record { at = λ w. grind arith }

  build_child_ip_block-IsSafe : (site : String) → IsSafe (build_child_ip_block env site)
  unfolding build_child_ip_block
  build_child_ip_block-IsSafe site = IsSafe-bind (ensure_parent_ip_block-IsSafe site) (λ parent.
      IsSafe-bind (ensure_allocation-IsSafe site parent)
        (λ _. IsSafe-bind query_child_ip_block-IsSafe (λ _. record { at = λ w. grind arith })))

  ensure-choice :
      (site : String) (present : Option String)
      → IsSafe (elim present [ some child ↦ pure child | none ↦ build_child_ip_block env site ])
  ensure-choice site none = build_child_ip_block-IsSafe site
  ensure-choice site (some child) = IsSafe-pure child

  ensure_ip_block_and_allocation-IsSafe :
      (site : String) → IsSafe (ensure_ip_block_and_allocation env site)
  unfolding ensure_ip_block_and_allocation
  ensure_ip_block_and_allocation-IsSafe site =
      IsSafe-bind verify_child_ip_block-IsSafe (ensure-choice site)

  reconcile_vpc-IsSafe : (site : String) → IsSafe (reconcile_vpc env site)
  unfolding reconcile_vpc
  reconcile_vpc-IsSafe site = record { at = λ w. grind (arith, h) }

  reconcile_subnet-IsSafe :
      (vpc child : String) (s : SubnetSpec) → IsSafe (reconcile_subnet env vpc child s)
  unfolding reconcile_subnet
  reconcile_subnet-IsSafe vpc child s = record { at = λ w. grind (arith, h, parse_cidr-safe) }

  reconcile_vpc_prefix-IsSafe :
      (vpc child : String) (s : VpcPrefixSpec) → IsSafe (reconcile_vpc_prefix env vpc child s)
  unfolding reconcile_vpc_prefix
  reconcile_vpc_prefix-IsSafe vpc child s = record { at = λ w. grind (arith, h, parse_cidr-safe) }

  reconcile_vpc_peering-IsSafe :
      (site vpc : String) (s : VpcPeeringSpec) → IsSafe (reconcile_vpc_peering env site vpc s)
  unfolding reconcile_vpc_peering
  reconcile_vpc_peering-IsSafe site vpc s = record { at = λ w. grind (arith, h) }

  reconcile_nsg-IsSafe : (site : String) (s : NsgSpec) → IsSafe (reconcile_nsg env site s)
  unfolding reconcile_nsg
  reconcile_nsg-IsSafe site s = record { at = λ w. grind (arith, h) }

  reconcile_subnets-IsSafe : (site : String) → IsSafe (reconcile_subnets env site)
  unfolding reconcile_subnets
  reconcile_subnets-IsSafe site = IsSafe-bind (IsSafe-gets vpc_id) (λ vpc.
      IsSafe-if (is_empty vpc) (IsSafe-fail "VPC ID is empty") (
        IsSafe-bind (IsSafe-wrap_exec _ (ensure_ip_block_and_allocation-IsSafe site)) (λ child.
          IsSafe-bind (IsSafe-gets (λ w. w.object.spec.subnets))
            (IsSafe-for_each (reconcile_subnet-IsSafe vpc child)))))

  reconcile_vpc_prefixes-IsSafe : (site : String) → IsSafe (reconcile_vpc_prefixes env site)
  unfolding reconcile_vpc_prefixes
  reconcile_vpc_prefixes-IsSafe site = IsSafe-bind (IsSafe-gets vpc_id) (λ vpc.
      IsSafe-if (is_empty vpc) (IsSafe-fail "VPC ID is empty") (
        IsSafe-bind (IsSafe-wrap_exec _ (ensure_ip_block_and_allocation-IsSafe site)) (λ child.
          IsSafe-bind (IsSafe-gets (λ w. w.object.spec.vpc_prefixes))
            (IsSafe-for_each (reconcile_vpc_prefix-IsSafe vpc child)))))

  reconcile_vpc_peerings-IsSafe : (site : String) → IsSafe (reconcile_vpc_peerings env site)
  unfolding reconcile_vpc_peerings
  reconcile_vpc_peerings-IsSafe site = IsSafe-bind (IsSafe-gets vpc_id) (λ vpc.
      IsSafe-if (is_empty vpc) (IsSafe-fail "VPC ID is empty") (
        IsSafe-bind (IsSafe-gets (λ w. w.object.spec.vpc_peerings))
          (IsSafe-for_each (reconcile_vpc_peering-IsSafe site vpc))))

  prefixes_step-IsSafe :
      (site : String) (l : List VpcPrefixSpec) → IsSafe (prefixes_step env site l)
  unfolding prefixes_step
  prefixes_step-IsSafe site [] = IsSafe-pure tt
  prefixes_step-IsSafe site (p ∷ ps) = IsSafe-guarded env _ _ (reconcile_vpc_prefixes-IsSafe site)

  nsg_step-IsSafe : (site : String) (o : Option NsgSpec) → IsSafe (nsg_step env site o)
  unfolding nsg_step
  nsg_step-IsSafe site none = IsSafe-pure tt
  nsg_step-IsSafe site (some s) =
      IsSafe-bind (IsSafe-guarded env _ _ (reconcile_nsg-IsSafe site s)) (λ _. mark-IsSafe _)

  peerings_step-IsSafe :
      (site : String) (l : List VpcPeeringSpec) → IsSafe (peerings_step env site l)
  unfolding peerings_step
  peerings_step-IsSafe site [] = IsSafe-pure tt
  peerings_step-IsSafe site (p ∷ ps) =
      IsSafe-bind (IsSafe-guarded env _ _ (reconcile_vpc_peerings-IsSafe site)) (λ _. mark-IsSafe _)

  provision_peerings-IsSafe : (site : String) → IsSafe (provision_peerings env site)
  unfolding provision_peerings
  provision_peerings-IsSafe site = IsSafe-bind (IsSafe-gets _) (peerings_step-IsSafe site)

  provision_nsg-IsSafe : (site : String) → IsSafe (provision_nsg env site)
  unfolding provision_nsg
  provision_nsg-IsSafe site =
      IsSafe-bind (IsSafe-gets _)
        (λ o. IsSafe-bind (nsg_step-IsSafe site o) (λ _. provision_peerings-IsSafe site))

  provision_prefixes-IsSafe : (site : String) → IsSafe (provision_prefixes env site)
  unfolding provision_prefixes
  provision_prefixes-IsSafe site =
      IsSafe-bind (IsSafe-gets _)
        (λ l. IsSafe-bind (prefixes_step-IsSafe site l) (λ _. provision_nsg-IsSafe site))

  provision_subnets-IsSafe : (site : String) → IsSafe (provision_subnets env site)
  unfolding provision_subnets
  provision_subnets-IsSafe site =
      IsSafe-bind (IsSafe-guarded env _ _ (reconcile_subnets-IsSafe site))
        (λ _. IsSafe-bind (mark-IsSafe _) (λ _. provision_prefixes-IsSafe site))

  provision_vpc-IsSafe : (site : String) → IsSafe (provision_vpc env site)
  unfolding provision_vpc
  provision_vpc-IsSafe site =
      IsSafe-bind (IsSafe-guarded env _ _ (reconcile_vpc-IsSafe site))
        (λ _. IsSafe-bind (mark-IsSafe _) (λ _. provision_subnets-IsSafe site))

  provision_allocation-IsSafe : (site : String) → IsSafe (provision_allocation env site)
  unfolding provision_allocation
  provision_allocation-IsSafe site =
      IsSafe-bind (IsSafe-guarded env _ _ (ensure_ip_block_and_allocation-IsSafe site))
        (λ _. IsSafe-bind (mark-IsSafe _) (λ _. provision_vpc-IsSafe site))

  provision-IsSafe : IsSafe (provision env)
  unfolding provision
  provision-IsSafe = IsSafe-bind (IsSafe-guarded env _ _ site_id-IsSafe) provision_allocation-IsSafe

  announce_ready-IsSafe : IsSafe (announce_ready env)
  unfolding announce_ready
  announce_ready-IsSafe = record { at = λ w. grind arith }

  pub normal-IsSafe : IsSafe (reconcile_normal env)
  unfolding reconcile_normal
  normal-IsSafe = record {
    at = λ w.
        (IsSafe-if (not (env.kube.contains_finalizer w.object.meta.finalizers cluster_finalizer))
            (record { at = λ v. ground arith })
            (IsSafe-bind provision-IsSafe (λ _. announce_ready-IsSafe))).at
          w;
  }

-- With a service whose replies without an error have a response, the provisioning of a cluster never
-- dereferences a nil response, whatever else the service answers.
pub reconcile_normal-IsSafe :
    (env : Env) (h : HasResponses env.cloud) (w : ClusterWorld) → (reconcile_normal env w).0 ≢ panic
reconcile_normal-IsSafe env h = (normal-IsSafe env (λ history c _. h history c)).at
