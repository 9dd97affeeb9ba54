-- ===== src/Cluster/Returns/Stages.antt =====
-- The stages of `reconcileNormal` in internal/controller/ncxinfracluster_controller.go before a willing
-- service, on a cluster that the webhook admits.
use cluster_api_provider_nvi.Common.{String, List, [], ◌∷◌, Option, none, some, ◌≡◌, refl, ap, ◌∙◌}
use cluster_api_provider_nvi.Common.Exec.{ok, fail, gets, ◌>>=◌}
use cluster_api_provider_nvi.Api.Meta.{Condition}
use cluster_api_provider_nvi.Api.Cluster.{
  NcxInfraClusterSpec, VpcPrefixSpec, VpcPeeringSpec, NsgSpec,
}
use cluster_api_provider_nvi.Webhook.Cluster.Accepts.{IsSubnet, IsVpcPrefix, IsAcceptable}
use cluster_api_provider_nvi.Kube.{Env}
use cluster_api_provider_nvi.Cluster.Scope.{ClusterWorld, ClusterExec, site_id, vpc_id}
use cluster_api_provider_nvi.Cluster.Vpc.{reconcile_vpc}
use cluster_api_provider_nvi.Cluster.Nsg.{reconcile_nsg}
use cluster_api_provider_nvi.Cluster.Allocation.{ensure_ip_block_and_allocation}
use cluster_api_provider_nvi.Cluster.Subnets.{
  wrap_exec, reconcile_subnet, reconcile_vpc_prefix, reconcile_vpc_peering, reconcile_subnets,
  reconcile_vpc_prefixes, reconcile_vpc_peerings,
}
use cluster_api_provider_nvi.Cluster.Keeps.{Keeps, Keeps-of}
use cluster_api_provider_nvi.Cluster.Normal.{
  guarded, mark, success, prefixes_step, nsg_step, peerings_step, provision_peerings, provision_nsg,
  provision_prefixes, provision_subnets, provision_vpc, provision_allocation, provision,
}
use cluster_api_provider_nvi.Cluster.Normal.Frames.{
  site_id-Keeps, ensure_ip_block_and_allocation-Keeps, reconcile_vpc-Keeps, reconcile_nsg-Keeps,
}
use cluster_api_provider_nvi.Cluster.Returns.{
  Returns, Returns-bind, Returns-weaken, Returns-guarded, Returns-wrap_exec, Returns-kept,
  Returns-gets, Returns-pure,
}
use cluster_api_provider_nvi.Cluster.Returns.Willing.{IsWilling}
use cluster_api_provider_nvi.Cluster.Returns.Source.{ensure-Returns}
use cluster_api_provider_nvi.Cluster.Returns.Steps.{
  reconcile_vpc-Returns, site_id-Returns, reconcile_nsg-Returns,
}
use cluster_api_provider_nvi.Cluster.Returns.Based.{
  HasSpec, IsBased, Returns-filled, All-any, mark-Returns, ensure-IsBased, loop-Returns,
  subnet-IsBased, prefix-IsBased, peering-IsBased, based,
}

module _ (env : Env) (s : NcxInfraClusterSpec) (h : IsWilling s env.cloud)
    (good : IsAcceptable s) where
  reconcile_subnets-IsBased :
      (site : String) → Returns (IsBased s) (reconcile_subnets env site) (λ _. IsBased s)
  unfolding reconcile_subnets vpc_id
  reconcile_subnets-IsBased site = Returns-bind (gets vpc_id) _ (Returns-gets _) (λ vpc.
      Returns-filled vpc (fail "VPC ID is empty") _ (λ w p z. p.1.1 (p.0 ∙ z))
        (Returns-weaken (λ w p. p.1) (λ a w q. q)
          (Returns-bind
            (wrap_exec "failed to ensure IP block and allocation"
              (ensure_ip_block_and_allocation env site))
            _ (Returns-wrap_exec _ _ (ensure-IsBased env s h good site))
            (λ child.
              loop-Returns env s h good (reconcile_subnet env vpc child) IsSubnet (λ t. t.subnets)
                (subnet-IsBased env s h good vpc child) good.all_subnets))))

  reconcile_vpc_prefixes-IsBased :
      (site : String) → Returns (IsBased s) (reconcile_vpc_prefixes env site) (λ _. IsBased s)
  unfolding reconcile_vpc_prefixes vpc_id
  reconcile_vpc_prefixes-IsBased site = Returns-bind (gets vpc_id) _ (Returns-gets _) (λ vpc.
      Returns-filled vpc (fail "VPC ID is empty") _ (λ w p z. p.1.1 (p.0 ∙ z))
        (Returns-weaken (λ w p. p.1) (λ a w q. q)
          (Returns-bind
            (wrap_exec "failed to ensure IP block and allocation"
              (ensure_ip_block_and_allocation env site))
            _ (Returns-wrap_exec _ _ (ensure-IsBased env s h good site))
            (λ child.
              loop-Returns env s h good (reconcile_vpc_prefix env vpc child) IsVpcPrefix
                (λ t. t.vpc_prefixes) (prefix-IsBased env s h good vpc child) good.all_prefixes))))

  reconcile_vpc_peerings-IsBased :
      (site : String) → Returns (IsBased s) (reconcile_vpc_peerings env site) (λ _. IsBased s)
  unfolding reconcile_vpc_peerings vpc_id
  reconcile_vpc_peerings-IsBased site = Returns-bind (gets vpc_id) _ (Returns-gets _) (λ vpc.
      Returns-filled vpc (fail "VPC ID is empty") _ (λ w p z. p.1.1 (p.0 ∙ z))
        (Returns-weaken (λ w p. p.1) (λ a w q. q)
          (loop-Returns env s h good (reconcile_vpc_peering env site vpc) (λ _. Unit {0})
            (λ t. t.vpc_peerings) (λ x _. peering-IsBased env s h good site vpc x)
            (All-any s.vpc_peerings))))

  prefixes-IsBased :
      (site : String) (l : List VpcPrefixSpec)
      → Returns (IsBased s) (prefixes_step env site l) (λ _. IsBased s)
  unfolding prefixes_step
  prefixes-IsBased site [] = Returns-pure tt
  prefixes-IsBased site (p ∷ ps) = Returns-guarded env _ _ _ (reconcile_vpc_prefixes-IsBased site)

  nsg-IsBased :
      (site : String) (o : Option NsgSpec)
      → Returns (IsBased s) (nsg_step env site o) (λ _. IsBased s)
  unfolding nsg_step
  nsg-IsBased site none = Returns-pure tt
  nsg-IsBased site (some x) =
      Returns-bind (guarded env "NSGReady" "NSGReconcileFailed" (reconcile_nsg env site x)) _
        (Returns-guarded env _ _ _ (
          based env s h good (Keeps-of (λ r. r.0.0) (reconcile_nsg-Keeps env site x))
            (λ w p. (tt, reconcile_nsg-Returns env s h site x w))))
        (λ _. mark-Returns env s h good _)

  peerings-IsBased :
      (site : String) (l : List VpcPeeringSpec)
      → Returns (IsBased s) (peerings_step env site l) (λ _. IsBased s)
  unfolding peerings_step
  peerings-IsBased site [] = Returns-pure tt
  peerings-IsBased site (p ∷ ps) =
      Returns-bind
        (guarded env "VPCPeeringReady" "VPCPeeringReconcileFailed"
          (reconcile_vpc_peerings env site))
        _ (Returns-guarded env _ _ _ (reconcile_vpc_peerings-IsBased site))
        (λ _. mark-Returns env s h good _)

  -- A step behind a list or option that was read from the spec.
  behind :
      {A B : Type 0} (held : ClusterWorld → A) (f : A → ClusterExec B)
      → ((x : A) → Returns (IsBased s) (f x) (λ _. IsBased s))
      → Returns (IsBased s) (gets held >>= f) (λ _. IsBased s)
  behind held f k =
      Returns-bind (gets held) f (Returns-gets held)
        (λ x. Returns-weaken (λ w p. p.1) (λ a w q. q) (k x))

  provision_nsg-IsBased :
      (site : String) → Returns (IsBased s) (provision_nsg env site) (λ _. IsBased s)
  unfolding provision_nsg provision_peerings
  provision_nsg-IsBased site =
      behind (λ w. w.object.spec.vpc.network_security_group) _
        (λ o.
          Returns-bind (nsg_step env site o) _ (nsg-IsBased site o)
            (λ _. behind (λ w. w.object.spec.vpc_peerings) _ (peerings-IsBased site)))

  provision_subnets-IsBased :
      (site : String) → Returns (IsBased s) (provision_subnets env site) (λ _. IsBased s)
  unfolding provision_subnets provision_prefixes
  provision_subnets-IsBased site =
      Returns-bind (guarded env "SubnetsReady" "SubnetReconcileFailed" (reconcile_subnets env site))
        _ (Returns-guarded env _ _ _ (reconcile_subnets-IsBased site))
        (λ _.
          Returns-bind (mark env (success "SubnetsReady" "SubnetsReady")) _
            (mark-Returns env s h good _)
            (λ _.
              behind (λ w. w.object.spec.vpc_prefixes) _
                (λ l.
                  Returns-bind (prefixes_step env site l) _ (prefixes-IsBased site l)
                    (λ _. provision_nsg-IsBased site))))

  -- Before the VPC is there, only the spec is known.
  unbased :
      {A : Type 0} {m : ClusterExec A}
      → Keeps (λ o. o.spec) m
      → ((w : ClusterWorld) → HasSpec s w → (a : A) × ((m w).0 ≡ ok a))
      → Returns (HasSpec s) m (λ _. HasSpec s)
  unbased k total = Returns-kept {read = λ o. o.spec} (λ t. t ≡ s) k total

  mark-unbased : (c : Condition) → Returns (HasSpec s) (mark env c) (λ _. HasSpec s)
  unfolding mark
  mark-unbased c = record { at = λ w p. (tt, refl, p) }

  vpc-IsBased : (site : String) → Returns (HasSpec s) (reconcile_vpc env site) (λ _. IsBased s)
  vpc-IsBased site = record {
    at = λ w p.
        let (a, e, q) = (reconcile_vpc-Returns env s h site).at w tt in
        (a, e, (ap (λ r. r.1.0) ((reconcile_vpc-Keeps env site).at w) ∙ p, q));
  }

  provision_vpc-Returns :
      (site : String) → Returns (HasSpec s) (provision_vpc env site) (λ _. IsBased s)
  unfolding provision_vpc
  provision_vpc-Returns site =
      Returns-bind (guarded env "VPCReady" "VPCReconcileFailed" (reconcile_vpc env site)) _
        (Returns-guarded env _ _ _ (vpc-IsBased site))
        (λ _.
          Returns-bind (mark env (success "VPCReady" "VPCReady")) _ (mark-Returns env s h good _)
            (λ _. provision_subnets-IsBased site))

  provision_allocation-Returns :
      (site : String) → Returns (HasSpec s) (provision_allocation env site) (λ _. IsBased s)
  unfolding provision_allocation
  provision_allocation-Returns site =
      Returns-bind
        (guarded env "AllocationReady" "AllocationFailed" (ensure_ip_block_and_allocation env site))
        _
        (Returns-guarded env _ _ _ (
          unbased (Keeps-of (λ r. r.0.0.0.1.0) (ensure_ip_block_and_allocation-Keeps env site))
            (λ w p. let (a, e, q) = (ensure-Returns env s h site).at w tt in (a, e))))
        (λ _.
          Returns-bind (mark env (success "AllocationReady" "AllocationReady")) _ (mark-unbased _)
            (λ _. provision_vpc-Returns site))

  pub provision-Returns : Returns (HasSpec s) (provision env) (λ _. IsBased s)
  unfolding provision
  provision-Returns =
      Returns-bind (guarded env "VPCReady" "SiteNotFound" (site_id env)) _
        (Returns-guarded env _ _ _ (
          unbased (Keeps-of (λ r. r.0.0.0.1.0) (site_id-Keeps env))
            (λ w p. site_id-Returns env s h w p good.site_named)))
        provision_allocation-Returns
