-- ===== src/Cluster/Normal/Recorded.antt =====
-- The loops of internal/controller/ncxinfracluster_controller.go over subnets, prefixes and
-- peerings: each element that a loop went through without an error has an ID in the status map.
use cluster_api_provider_nvi.Common.{
  String, none, ◌≡◌, ◌≢◌, arith, All, is_empty, is_empty_iff, ap, eq_refl,
}
use cluster_api_provider_nvi.Common.Dict.{lookup, lookup-insert, lookup-erase}
use cluster_api_provider_nvi.Common.Exec.{ok, gets, ◌>>=◌, for_each}
use cluster_api_provider_nvi.Api.Cluster.{SubnetSpec, VpcPrefixSpec, VpcPeeringSpec}
use cluster_api_provider_nvi.Kube.{Env}
use cluster_api_provider_nvi.Cluster.Scope.{ClusterWorld, network_of, vpc_id}
use cluster_api_provider_nvi.Cluster.Subnets.{
  wrap_exec, reconcile_subnet, reconcile_vpc_prefix, reconcile_vpc_peering, reconcile_subnets,
  reconcile_vpc_prefixes, reconcile_vpc_peerings,
}
use cluster_api_provider_nvi.Cluster.Allocation.{ensure_ip_block_and_allocation}
use cluster_api_provider_nvi.Cluster.Keeps.{Keeps-of, Keeps-after}
use cluster_api_provider_nvi.Cluster.Normal.Frames.{
  reconcile_subnet-Keeps, reconcile_vpc_prefix-Keeps, reconcile_vpc_peering-Keeps,
  reconcile_subnets-Keeps,
}
use cluster_api_provider_nvi.Cluster.Yields.{
  Yields, Anywhere, Yields-any, Yields-bind, Yields-guard, for_each-All_held,
}

abbrev pub HasSubnet : SubnetSpec → ClusterWorld → Type 0
HasSubnet s w = lookup s.name (network_of w).subnet_ids ≢ none

abbrev pub HasVpcPrefix : VpcPrefixSpec → ClusterWorld → Type 0
HasVpcPrefix s w = lookup s.name (network_of w).vpc_prefix_ids ≢ none

abbrev pub HasVpcPeering : VpcPeeringSpec → ClusterWorld → Type 0
HasVpcPeering s w = lookup s.peer_vpc_id (network_of w).vpc_peering_ids ≢ none

reconcile_subnet-own :
    (env : Env) (vpc child : String) (s : SubnetSpec) (w w' : ClusterWorld)
    → reconcile_subnet env vpc child s w ≡ (ok tt, w')
    → HasSubnet s w'
unfolding reconcile_subnet
reconcile_subnet-own env vpc child s w w' e = grind (arith, lookup-insert, eq_refl)

reconcile_subnet-others :
    (env : Env) (vpc child : String) (s t : SubnetSpec) (w w' : ClusterWorld)
    → HasSubnet t w
    → reconcile_subnet env vpc child s w ≡ (ok tt, w')
    → HasSubnet t w'
unfolding reconcile_subnet
reconcile_subnet-others env vpc child s t w w' h e =
    grind (arith, lookup-insert, lookup-erase, eq_refl)

reconcile_vpc_prefix-own :
    (env : Env) (vpc child : String) (s : VpcPrefixSpec) (w w' : ClusterWorld)
    → reconcile_vpc_prefix env vpc child s w ≡ (ok tt, w')
    → HasVpcPrefix s w'
unfolding reconcile_vpc_prefix
reconcile_vpc_prefix-own env vpc child s w w' e = grind (arith, lookup-insert, eq_refl)

reconcile_vpc_prefix-others :
    (env : Env) (vpc child : String) (s t : VpcPrefixSpec) (w w' : ClusterWorld)
    → HasVpcPrefix t w
    → reconcile_vpc_prefix env vpc child s w ≡ (ok tt, w')
    → HasVpcPrefix t w'
unfolding reconcile_vpc_prefix
reconcile_vpc_prefix-others env vpc child s t w w' h e =
    grind (arith, lookup-insert, lookup-erase, eq_refl)

reconcile_vpc_peering-own :
    (env : Env) (site vpc : String) (s : VpcPeeringSpec) (w w' : ClusterWorld)
    → reconcile_vpc_peering env site vpc s w ≡ (ok tt, w')
    → HasVpcPeering s w'
unfolding reconcile_vpc_peering
reconcile_vpc_peering-own env site vpc s w w' e = grind (arith, lookup-insert, eq_refl)

reconcile_vpc_peering-others :
    (env : Env) (site vpc : String) (s t : VpcPeeringSpec) (w w' : ClusterWorld)
    → HasVpcPeering t w
    → reconcile_vpc_peering env site vpc s w ≡ (ok tt, w')
    → HasVpcPeering t w'
unfolding reconcile_vpc_peering
reconcile_vpc_peering-others env site vpc s t w w' h e =
    grind (arith, lookup-insert, lookup-erase, eq_refl)

subnets_loop :
    (env : Env) (vpc child : String)
    → Yields Anywhere
        (gets (λ w. w.object.spec.subnets) >>= for_each (reconcile_subnet env vpc child))
        (λ _ w. All (λ s. HasSubnet s w) w.object.spec.subnets)
subnets_loop env vpc child =
    for_each-All_held (reconcile_subnet env vpc child) HasSubnet
      (λ s. record { at = λ w a w' _. reconcile_subnet-own env vpc child s w w' })
      (λ s t. record { at = λ w a w'. reconcile_subnet-others env vpc child s t w w' })
      (λ o. o.spec.subnets)
      (λ s. Keeps-of (λ r. (r.0.1.0).subnets) (reconcile_subnet-Keeps env vpc child s))

-- If the step for the subnets returns, the VPC has an ID and so has each subnet of the spec.
pub reconcile_subnets-HasSubnet :
    (env : Env) (site : String)
    → Yields Anywhere
        (reconcile_subnets env site)
        (λ _ w. (w.object.status.vpc_id ≢ "") × All (λ s. HasSubnet s w) w.object.spec.subnets)
unfolding reconcile_subnets vpc_id
reconcile_subnets-HasSubnet env site = record {
  at = λ w a w' _ e.
      let (filled, all) =
        (Yields-guard (is_empty (w.object.status.vpc_id)) "VPC ID is empty" _ {P = Anywhere} (
            Yields-bind
              (wrap_exec "failed to ensure IP block and allocation"
                (ensure_ip_block_and_allocation env site))
              _ (Yields-any _) (subnets_loop env (w.object.status.vpc_id)))).at
          w a w' tt e in
      let same = ap (λ r. r.1) (Keeps-after (reconcile_subnets-Keeps env site) w e) in
      (ground (arith, is_empty_iff (w.object.status.vpc_id)), all);
}

prefixes_loop :
    (env : Env) (vpc child : String)
    → Yields Anywhere
        (gets (λ w. w.object.spec.vpc_prefixes) >>= for_each (reconcile_vpc_prefix env vpc child))
        (λ _ w. All (λ s. HasVpcPrefix s w) w.object.spec.vpc_prefixes)
prefixes_loop env vpc child =
    for_each-All_held (reconcile_vpc_prefix env vpc child) HasVpcPrefix
      (λ s. record { at = λ w a w' _. reconcile_vpc_prefix-own env vpc child s w w' })
      (λ s t. record { at = λ w a w'. reconcile_vpc_prefix-others env vpc child s t w w' })
      (λ o. o.spec.vpc_prefixes)
      (λ s. Keeps-of (λ r. (r.0.0.1.0).vpc_prefixes) (reconcile_vpc_prefix-Keeps env vpc child s))

pub reconcile_vpc_prefixes-HasVpcPrefix :
    (env : Env) (site : String)
    → Yields Anywhere
        (reconcile_vpc_prefixes env site)
        (λ _ w. All (λ s. HasVpcPrefix s w) w.object.spec.vpc_prefixes)
unfolding reconcile_vpc_prefixes vpc_id
reconcile_vpc_prefixes-HasVpcPrefix env site = record {
  at = λ w a w' _ e.
      ((Yields-guard (is_empty (w.object.status.vpc_id)) "VPC ID is empty" _ {P = Anywhere} (
          Yields-bind
            (wrap_exec "failed to ensure IP block and allocation"
              (ensure_ip_block_and_allocation env site))
            _ (Yields-any _) (prefixes_loop env (w.object.status.vpc_id)))).at
        w a w' tt e).1;
}

peerings_loop :
    (env : Env) (site vpc : String)
    → Yields Anywhere
        (gets (λ w. w.object.spec.vpc_peerings) >>= for_each (reconcile_vpc_peering env site vpc))
        (λ _ w. All (λ s. HasVpcPeering s w) w.object.spec.vpc_peerings)
peerings_loop env site vpc =
    for_each-All_held (reconcile_vpc_peering env site vpc) HasVpcPeering
      (λ s. record { at = λ w a w' _. reconcile_vpc_peering-own env site vpc s w w' })
      (λ s t. record { at = λ w a w'. reconcile_vpc_peering-others env site vpc s t w w' })
      (λ o. o.spec.vpc_peerings)
      (λ s. Keeps-of (λ r. (r.0.0.0.1.0).vpc_peerings) (reconcile_vpc_peering-Keeps env site vpc s))

pub reconcile_vpc_peerings-HasVpcPeering :
    (env : Env) (site : String)
    → Yields Anywhere
        (reconcile_vpc_peerings env site)
        (λ _ w. All (λ s. HasVpcPeering s w) w.object.spec.vpc_peerings)
unfolding reconcile_vpc_peerings vpc_id
reconcile_vpc_peerings-HasVpcPeering env site = record {
  at = λ w a w' _ e.
      ((Yields-guard (is_empty (w.object.status.vpc_id)) "VPC ID is empty" _ {P = Anywhere}
          (peerings_loop env site (w.object.status.vpc_id))).at
        w a w' tt e).1;
}
