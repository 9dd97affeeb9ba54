-- ===== src/Cluster/Maps/Provisioning.antt =====
-- `reconcileNormal` of internal/controller/ncxinfracluster_controller.go and the maps of the status.
use cluster_api_provider_nvi.Common.{
  String, not, List, [], ◌∷◌, Option, none, some, arith, is_empty,
}
use cluster_api_provider_nvi.Common.Dict.{insert-NodupKeys, erase-NodupKeys}
use cluster_api_provider_nvi.Api.Cluster.{SubnetSpec, VpcPrefixSpec, VpcPeeringSpec, NsgSpec}
use cluster_api_provider_nvi.Kube.{Env}
use cluster_api_provider_nvi.Cluster.Scope.{vpc_id}
use cluster_api_provider_nvi.Cluster.Subnets.{
  reconcile_subnet, reconcile_vpc_prefix, reconcile_vpc_peering, reconcile_subnets,
  reconcile_vpc_prefixes, reconcile_vpc_peerings,
}
use cluster_api_provider_nvi.Cluster.Delete.{cluster_finalizer}
use cluster_api_provider_nvi.Cluster.Keeps.{Keeps}
use cluster_api_provider_nvi.Cluster.Normal.{
  success, prefixes_step, nsg_step, peerings_step, provision_peerings, provision_nsg,
  provision_prefixes, provision_subnets, provision_vpc, provision_allocation, provision,
  announce_ready, reconcile_normal,
}
use cluster_api_provider_nvi.Cluster.Maps.Frames.{
  site_id-maps, reconcile_vpc-maps, reconcile_nsg-maps, ensure-maps,
}
use cluster_api_provider_nvi.Cluster.Maps.{
  KeepsMaps, KeepsMaps-of, KeepsMaps-if, KeepsMaps-bind, KeepsMaps-guarded, KeepsMaps-wrap_exec,
  KeepsMaps-for_each, KeepsMaps-pure, KeepsMaps-fail, KeepsMaps-gets, KeepsMaps-mark, maps_of,
}

module _ (env : Env) where
  reconcile_subnet-KeepsMaps :
      (vpc child : String) (s : SubnetSpec) → KeepsMaps (reconcile_subnet env vpc child s)
  unfolding reconcile_subnet
  reconcile_subnet-KeepsMaps vpc child s = record {
    at = λ w h. grind (arith, insert-NodupKeys, erase-NodupKeys);
  }

  reconcile_vpc_prefix-KeepsMaps :
      (vpc child : String) (s : VpcPrefixSpec) → KeepsMaps (reconcile_vpc_prefix env vpc child s)
  unfolding reconcile_vpc_prefix
  reconcile_vpc_prefix-KeepsMaps vpc child s = record {
    at = λ w h. grind (arith, insert-NodupKeys, erase-NodupKeys);
  }

  reconcile_vpc_peering-KeepsMaps :
      (site vpc : String) (s : VpcPeeringSpec) → KeepsMaps (reconcile_vpc_peering env site vpc s)
  unfolding reconcile_vpc_peering
  reconcile_vpc_peering-KeepsMaps site vpc s = record {
    at = λ w h. grind (arith, insert-NodupKeys, erase-NodupKeys);
  }

  reconcile_subnets-KeepsMaps : (site : String) → KeepsMaps (reconcile_subnets env site)
  unfolding reconcile_subnets
  reconcile_subnets-KeepsMaps site = KeepsMaps-bind (KeepsMaps-gets vpc_id) (λ vpc.
      KeepsMaps-if (is_empty vpc) (KeepsMaps-fail "VPC ID is empty") (
        KeepsMaps-bind (KeepsMaps-wrap_exec _ (KeepsMaps-of (ensure-maps env site))) (λ child.
          KeepsMaps-bind (KeepsMaps-gets (λ w. w.object.spec.subnets))
            (KeepsMaps-for_each (reconcile_subnet-KeepsMaps vpc child)))))

  reconcile_vpc_prefixes-KeepsMaps : (site : String) → KeepsMaps (reconcile_vpc_prefixes env site)
  unfolding reconcile_vpc_prefixes
  reconcile_vpc_prefixes-KeepsMaps site = KeepsMaps-bind (KeepsMaps-gets vpc_id) (λ vpc.
      KeepsMaps-if (is_empty vpc) (KeepsMaps-fail "VPC ID is empty") (
        KeepsMaps-bind (KeepsMaps-wrap_exec _ (KeepsMaps-of (ensure-maps env site))) (λ child.
          KeepsMaps-bind (KeepsMaps-gets (λ w. w.object.spec.vpc_prefixes))
            (KeepsMaps-for_each (reconcile_vpc_prefix-KeepsMaps vpc child)))))

  reconcile_vpc_peerings-KeepsMaps : (site : String) → KeepsMaps (reconcile_vpc_peerings env site)
  unfolding reconcile_vpc_peerings
  reconcile_vpc_peerings-KeepsMaps site = KeepsMaps-bind (KeepsMaps-gets vpc_id) (λ vpc.
      KeepsMaps-if (is_empty vpc) (KeepsMaps-fail "VPC ID is empty") (
        KeepsMaps-bind (KeepsMaps-gets (λ w. w.object.spec.vpc_peerings))
          (KeepsMaps-for_each (reconcile_vpc_peering-KeepsMaps site vpc))))

  prefixes_step-KeepsMaps :
      (site : String) (l : List VpcPrefixSpec) → KeepsMaps (prefixes_step env site l)
  unfolding prefixes_step
  prefixes_step-KeepsMaps site [] = KeepsMaps-pure tt
  prefixes_step-KeepsMaps site (p ∷ ps) =
      KeepsMaps-guarded env _ _ _ (reconcile_vpc_prefixes-KeepsMaps site)

  nsg_step-KeepsMaps : (site : String) (s : Option NsgSpec) → KeepsMaps (nsg_step env site s)
  unfolding nsg_step
  nsg_step-KeepsMaps site none = KeepsMaps-pure tt
  nsg_step-KeepsMaps site (some s) =
      KeepsMaps-bind (KeepsMaps-guarded env _ _ _ (KeepsMaps-of (reconcile_nsg-maps env site s)))
        (λ _. KeepsMaps-mark env _)

  peerings_step-KeepsMaps :
      (site : String) (l : List VpcPeeringSpec) → KeepsMaps (peerings_step env site l)
  unfolding peerings_step
  peerings_step-KeepsMaps site [] = KeepsMaps-pure tt
  peerings_step-KeepsMaps site (p ∷ ps) =
      KeepsMaps-bind (KeepsMaps-guarded env _ _ _ (reconcile_vpc_peerings-KeepsMaps site))
        (λ _. KeepsMaps-mark env _)

  provision_nsg-KeepsMaps : (site : String) → KeepsMaps (provision_nsg env site)
  unfolding provision_nsg provision_peerings
  provision_nsg-KeepsMaps site =
      KeepsMaps-bind (KeepsMaps-gets (λ w. w.object.spec.vpc.network_security_group)) (λ s.
        KeepsMaps-bind (nsg_step-KeepsMaps site s) (λ _.
          KeepsMaps-bind (KeepsMaps-gets (λ w. w.object.spec.vpc_peerings))
            (peerings_step-KeepsMaps site)))

  provision_subnets-KeepsMaps : (site : String) → KeepsMaps (provision_subnets env site)
  unfolding provision_subnets provision_prefixes
  provision_subnets-KeepsMaps site =
      KeepsMaps-bind (KeepsMaps-guarded env _ _ _ (reconcile_subnets-KeepsMaps site)) (λ _.
        KeepsMaps-bind (KeepsMaps-mark env (success "SubnetsReady" "SubnetsReady")) (λ _.
          KeepsMaps-bind (KeepsMaps-gets (λ w. w.object.spec.vpc_prefixes)) (λ l.
            KeepsMaps-bind (prefixes_step-KeepsMaps site l) (λ _. provision_nsg-KeepsMaps site))))

  provision_vpc-KeepsMaps : (site : String) → KeepsMaps (provision_vpc env site)
  unfolding provision_vpc
  provision_vpc-KeepsMaps site =
      KeepsMaps-bind (KeepsMaps-guarded env _ _ _ (KeepsMaps-of (reconcile_vpc-maps env site)))
        (λ _.
          KeepsMaps-bind (KeepsMaps-mark env (success "VPCReady" "VPCReady"))
            (λ _. provision_subnets-KeepsMaps site))

  provision_allocation-KeepsMaps : (site : String) → KeepsMaps (provision_allocation env site)
  unfolding provision_allocation
  provision_allocation-KeepsMaps site =
      KeepsMaps-bind (KeepsMaps-guarded env _ _ _ (KeepsMaps-of (ensure-maps env site))) (λ _.
        KeepsMaps-bind (KeepsMaps-mark env (success "AllocationReady" "AllocationReady"))
          (λ _. provision_vpc-KeepsMaps site))

  provision-KeepsMaps : KeepsMaps (provision env)
  unfolding provision
  provision-KeepsMaps =
      KeepsMaps-bind (KeepsMaps-guarded env _ _ _ (KeepsMaps-of (site_id-maps env)))
        provision_allocation-KeepsMaps

  announce_ready-maps : Keeps maps_of (announce_ready env)
  unfolding announce_ready
  announce_ready-maps = record { at = λ w. grind arith }

  -- A normal run keeps the maps, on every outcome.
  pub reconcile_normal-KeepsMaps : KeepsMaps (reconcile_normal env)
  unfolding reconcile_normal
  reconcile_normal-KeepsMaps = record {
    at = λ w h.
        (KeepsMaps-if (not (env.kube.contains_finalizer w.object.meta.finalizers cluster_finalizer))
            (KeepsMaps-of (record { at = λ v. ground arith }))
            (KeepsMaps-bind provision-KeepsMaps (λ _. KeepsMaps-of announce_ready-maps))).at
          w h;
  }
