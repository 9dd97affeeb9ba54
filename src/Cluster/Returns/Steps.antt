-- ===== src/Cluster/Returns/Steps.antt =====
-- The steps of internal/controller/ncxinfracluster_controller.go before a willing service.
use cluster_api_provider_nvi.Common.{
  ℕ, String, [], ◌∷◌, some, ◌≡◌, ◌≢◌, ◌⊎◌, inl, inr, arith, is_empty, is_empty_iff, Bool-cases,
  Option-cases, map, ◌++◌, if◌then◌else◌,
}
use cluster_api_provider_nvi.Common.Dict.{lookup}
use cluster_api_provider_nvi.Common.Exec.{ok}
use cluster_api_provider_nvi.Api.Cluster.{
  NcxInfraClusterSpec, SubnetSpec, VpcPrefixSpec, VpcPeeringSpec, NsgSpec,
}
use cluster_api_provider_nvi.Sdk.{
  SubnetCreateRequest, VpcPrefixCreateRequest, VpcPeeringCreateRequest,
}
use cluster_api_provider_nvi.Cidr.{parse_cidr}
use cluster_api_provider_nvi.Sdk.Wire.{
  get_vpc, get_subnet, get_vpc_prefix, get_vpc_peering, get_nsg,
}
use cluster_api_provider_nvi.Kube.{Env}
use cluster_api_provider_nvi.Cluster.Scope.{ClusterWorld, network_of, site_id}
use cluster_api_provider_nvi.Cluster.Vpc.{reconcile_vpc, vpc_request}
use cluster_api_provider_nvi.Cluster.Nsg.{reconcile_nsg, rule_request}
use cluster_api_provider_nvi.Cluster.Subnets.{
  reconcile_subnet, reconcile_vpc_prefix, reconcile_vpc_peering,
}
use cluster_api_provider_nvi.Cluster.Yields.{Anywhere}
use cluster_api_provider_nvi.Cluster.Returns.{Returns}
use cluster_api_provider_nvi.Cluster.Returns.Willing.{IsWilling}

module _ (env : Env) (s : NcxInfraClusterSpec) (h : IsWilling s env.cloud) where
  pub reconcile_vpc-Returns :
      (site : String)
      → Returns Anywhere (reconcile_vpc env site) (λ _ w. w.object.status.vpc_id ≢ "")
  unfolding reconcile_vpc
  reconcile_vpc-Returns site = record {
    at = λ w p.
        let id = w.object.status.vpc_id in
        let past = if is_empty id then w.calls else w.calls ++ get_vpc id ∷ [] in
        let made = h.vpc past (vpc_request w.object.spec.vpc site) in
        (
          tt,
          ground (arith, made.no_error, made.status, made.value),
          ground (arith, made.no_error, made.status, made.value, made.filled, is_empty_iff id),
        );
  }

  pub site_id-Returns :
      (w : ClusterWorld)
      → w.object.spec ≡ s
      → (s.site_ref.name ≢ "") ⊎ (s.site_ref.id ≢ "")
      → (a : String) × ((site_id env w).0 ≡ ok a)
  unfolding site_id
  site_id-Returns w same named = elim (Bool-cases (is_empty s.site_ref.id)) [
    | inr e ↦ (s.site_ref.id, ground arith)
    | inl e ↦
        let (fine, (id, known)) = h.site w.calls (ground (arith, is_empty_iff s.site_ref.id)) in
        (id, ground (arith, fine, known, is_empty_iff s.site_ref.name, is_empty_iff s.site_ref.id))
  ]

  pub reconcile_subnet-Returns :
      (vpc child : String) (x : SubnetSpec) (n : ℕ)
      → parse_cidr x.cidr ≡ ok n
      → (w : ClusterWorld) → (reconcile_subnet env vpc child x w).0 ≡ ok tt
  unfolding reconcile_subnet
  reconcile_subnet-Returns vpc child x n parsed w =
      let body : SubnetCreateRequest = record {
        name = x.name;
        vpc_id = vpc;
        ipv4_block_id = some child;
        prefix_length = n;
      } in
      elim (Option-cases (lookup x.name (network_of w).subnet_ids)) [
        | inl e ↦
            let made = h.subnet w.calls body in
            ground (arith, made.no_error, made.status, made.value)
        | inr (id, e) ↦
            let made = h.subnet (w.calls ++ get_subnet id ∷ []) body in
            ground (arith, made.no_error, made.status, made.value)
      ]

  pub reconcile_vpc_prefix-Returns :
      (vpc child : String) (x : VpcPrefixSpec) (n : ℕ)
      → parse_cidr x.cidr ≡ ok n
      → (w : ClusterWorld) → (reconcile_vpc_prefix env vpc child x w).0 ≡ ok tt
  unfolding reconcile_vpc_prefix
  reconcile_vpc_prefix-Returns vpc child x n parsed w =
      let body : VpcPrefixCreateRequest = record {
        name = x.name;
        vpc_id = vpc;
        ip_block_id = some child;
        prefix_length = n;
      } in
      elim (Option-cases (lookup x.name (network_of w).vpc_prefix_ids)) [
        | inl e ↦
            let made = h.prefix w.calls body in
            ground (arith, made.no_error, made.status, made.value)
        | inr (id, e) ↦
            let made = h.prefix (w.calls ++ get_vpc_prefix id ∷ []) body in
            ground (arith, made.no_error, made.status, made.value)
      ]

  pub reconcile_vpc_peering-Returns :
      (site vpc : String) (x : VpcPeeringSpec) (w : ClusterWorld)
      → (reconcile_vpc_peering env site vpc x w).0 ≡ ok tt
  unfolding reconcile_vpc_peering
  reconcile_vpc_peering-Returns site vpc x w =
      let body : VpcPeeringCreateRequest = record {
        vpc1_id = vpc;
        vpc2_id = x.peer_vpc_id;
        site_id = site;
      } in
      elim (Option-cases (lookup x.peer_vpc_id (network_of w).vpc_peering_ids)) [
        | inl e ↦
            let made = h.peering w.calls body in
            ground (arith, made.no_error, made.status, made.value)
        | inr (id, e) ↦
            let made = h.peering (w.calls ++ get_vpc_peering id ∷ []) body in
            ground (arith, made.no_error, made.status, made.value)
      ]

  pub reconcile_nsg-Returns :
      (site : String) (x : NsgSpec) (w : ClusterWorld) → (reconcile_nsg env site x w).0 ≡ ok tt
  unfolding reconcile_nsg
  reconcile_nsg-Returns site x w =
      let id = (network_of w).nsg_id in
      let past = if is_empty id then w.calls else w.calls ++ get_nsg id ∷ [] in
      let made =
        h.nsg past (record { name = x.name; site_id = site; rules = map rule_request x.rules }) in
      ground (arith, made.no_error, made.status, made.value)
