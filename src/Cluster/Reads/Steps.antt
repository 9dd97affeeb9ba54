-- ===== src/Cluster/Reads/Steps.antt =====
-- The steps of `reconcileNormal` in internal/controller/ncxinfracluster_controller.go on a cluster that is
-- recorded as provisioned, before a service that still has it.
use cluster_api_provider_nvi.Common.{
  String, true, List, [], ◌∷◌, none, some, ◌≡◌, ◌≢◌, refl, sym, ap, ◌∙◌, arith, All, is_empty_iff,
  Option-cases, inl, inr,
}
use cluster_api_provider_nvi.Common.Dict.{Dict, lookup}
use cluster_api_provider_nvi.Common.Exec.{fail}
use cluster_api_provider_nvi.Api.Cluster.{
  NcxInfraCluster, SubnetSpec, VpcPrefixSpec, VpcPeeringSpec, NsgSpec,
}
use cluster_api_provider_nvi.Sdk.Wire.{
  Call, Cloud, is_found, get_vpc, get_ip_block, get_subnet, get_vpc_prefix, get_vpc_peering,
  get_nsg,
}
use cluster_api_provider_nvi.Kube.{Env}
use cluster_api_provider_nvi.Cluster.Scope.{vpc_id}
use cluster_api_provider_nvi.Cluster.Vpc.{reconcile_vpc}
use cluster_api_provider_nvi.Cluster.Nsg.{reconcile_nsg}
use cluster_api_provider_nvi.Cluster.Allocation.{ensure_ip_block_and_allocation}
use cluster_api_provider_nvi.Cluster.Subnets.{
  reconcile_subnet, reconcile_vpc_prefix, reconcile_vpc_peering, reconcile_subnets,
  reconcile_vpc_prefixes, reconcile_vpc_peerings,
}
use cluster_api_provider_nvi.Cluster.Reads.{
  IsRecordedRead, OnlyRead, concat_map, Reads, Reads-bind, Reads-after, Reads-gets, Reads-wrap_exec,
  Reads-loop, Reads-filled,
}

-- As long as nothing but the resources that `o` records was read since the calls of `base`, the service
-- finds each of them.
pub record HasNetwork (cloud : Cloud) (base : List Call) (o : NcxInfraCluster) : Type 0 where
  pub finds :
      (history : List Call) (c : Call)
      → OnlyRead base o history
      → IsRecordedRead o c
      → is_found (cloud history c) ≡ true

-- The read of what a map records under a key.
abbrev pub recorded_read : (String → Call) → Dict → String → List Call
recorded_read get ids key = elim (lookup key ids) [ none ↦ [] | some id ↦ get id ∷ [] ]

module _ (env : Env) (base : List Call) (o : NcxInfraCluster)
    (there : HasNetwork env.cloud base o) where
  pub reconcile_vpc-Reads :
      (site : String)
      → o.status.vpc_id ≢ ""
      → Reads base o (reconcile_vpc env site) tt (get_vpc o.status.vpc_id ∷ [])
  unfolding reconcile_vpc
  reconcile_vpc-Reads site v = record {
    recorded = (refl, tt);
    at = λ w only l. ground (
      arith,
      is_empty_iff w.object.status.vpc_id,
      there.finds w.calls (get_vpc w.object.status.vpc_id) only l.same_vpc,
    );
  }

  pub ensure-Reads :
      (site : String)
      → o.status.network_status.child_ip_block_id ≢ ""
      → Reads base o
          (ensure_ip_block_and_allocation env site)
          o.status.network_status.child_ip_block_id
          (get_ip_block o.status.network_status.child_ip_block_id ∷ [])
  unfolding ensure_ip_block_and_allocation
  ensure-Reads site v = record {
    recorded = (refl, tt);
    at = λ w only l. ground (
      arith,
      is_empty_iff w.object.status.network_status.child_ip_block_id,
      there.finds w.calls (get_ip_block w.object.status.network_status.child_ip_block_id) only
          (ap (λ n. n.child_ip_block_id) l.same_network),
    );
  }

  reconcile_subnet-Reads :
      (vpc child : String) (s : SubnetSpec)
      → lookup s.name o.status.network_status.subnet_ids ≢ none
      → Reads base o
          (reconcile_subnet env vpc child s)
          tt
          (recorded_read get_subnet o.status.network_status.subnet_ids s.name)
  unfolding reconcile_subnet
  reconcile_subnet-Reads vpc child s h =
      elim (Option-cases (lookup s.name o.status.network_status.subnet_ids)) [
        | inl e ↦ absurd (h e)
        | inr (id, e) ↦ record {
          recorded = rw (e, All) ((s.name, e), tt);
          at = λ w only l. ground (arith, there.finds w.calls (get_subnet id) only (s.name, e));
        }
      ]

  reconcile_vpc_prefix-Reads :
      (vpc child : String) (s : VpcPrefixSpec)
      → lookup s.name o.status.network_status.vpc_prefix_ids ≢ none
      → Reads base o
          (reconcile_vpc_prefix env vpc child s)
          tt
          (recorded_read get_vpc_prefix o.status.network_status.vpc_prefix_ids s.name)
  unfolding reconcile_vpc_prefix
  reconcile_vpc_prefix-Reads vpc child s h =
      elim (Option-cases (lookup s.name o.status.network_status.vpc_prefix_ids)) [
        | inl e ↦ absurd (h e)
        | inr (id, e) ↦ record {
          recorded = rw (e, All) ((s.name, e), tt);
          at = λ w only l. ground (arith, there.finds w.calls (get_vpc_prefix id) only (s.name, e));
        }
      ]

  reconcile_vpc_peering-Reads :
      (site vpc : String) (s : VpcPeeringSpec)
      → lookup s.peer_vpc_id o.status.network_status.vpc_peering_ids ≢ none
      → Reads base o
          (reconcile_vpc_peering env site vpc s)
          tt
          (recorded_read get_vpc_peering o.status.network_status.vpc_peering_ids s.peer_vpc_id)
  unfolding reconcile_vpc_peering
  reconcile_vpc_peering-Reads site vpc s h =
      elim (Option-cases (lookup s.peer_vpc_id o.status.network_status.vpc_peering_ids)) [
        | inl e ↦ absurd (h e)
        | inr (id, e) ↦ record {
          recorded = rw (e, All) ((s.peer_vpc_id, e), tt);
          at = λ w only l.
              ground (arith, there.finds w.calls (get_vpc_peering id) only (s.peer_vpc_id, e));
        }
      ]

  pub reconcile_nsg-Reads :
      (site : String) (s : NsgSpec)
      → o.status.network_status.nsg_id ≢ ""
      → Reads base o (reconcile_nsg env site s) tt (get_nsg o.status.network_status.nsg_id ∷ [])
  unfolding reconcile_nsg
  reconcile_nsg-Reads site s v = record {
    recorded = (refl, tt);
    at = λ w only l. ground (
      arith,
      is_empty_iff w.object.status.network_status.nsg_id,
      there.finds w.calls (get_nsg w.object.status.network_status.nsg_id) only
          (ap (λ n. n.nsg_id) l.same_network),
    );
  }

  pub reconcile_subnets-Reads :
      (site : String)
      → o.status.vpc_id ≢ ""
      → o.status.network_status.child_ip_block_id ≢ ""
      → All (λ s. lookup s.name o.status.network_status.subnet_ids ≢ none) o.spec.subnets
      → Reads base o (reconcile_subnets env site) tt (
          get_ip_block o.status.network_status.child_ip_block_id
          ∷ concat_map
              (λ s. recorded_read get_subnet o.status.network_status.subnet_ids s.name)
              o.spec.subnets)
  unfolding reconcile_subnets vpc_id
  reconcile_subnets-Reads site v c h =
      Reads-after (Reads-gets vpc_id o.status.vpc_id (λ w l. l.same_vpc)) (λ vpc e.
        Reads-filled vpc (fail "VPC ID is empty") (λ z. v (sym e ∙ z))
          (Reads-bind
            (Reads-wrap_exec "failed to ensure IP block and allocation" (ensure-Reads site c))
            (λ child _.
              Reads-after
                (Reads-gets (λ w. w.object.spec.subnets) o.spec.subnets
                  (λ w l. ap (λ s. s.subnets) l.same_spec))
                (λ specs same.
                  Reads-loop (reconcile_subnet env vpc child)
                    (λ s. recorded_read get_subnet o.status.network_status.subnet_ids s.name)
                    (λ s. lookup s.name o.status.network_status.subnet_ids ≢ none)
                    (reconcile_subnet-Reads vpc child) specs o.spec.subnets same h))))

  pub reconcile_vpc_prefixes-Reads :
      (site : String)
      → o.status.vpc_id ≢ ""
      → o.status.network_status.child_ip_block_id ≢ ""
      → All (λ s. lookup s.name o.status.network_status.vpc_prefix_ids ≢ none) o.spec.vpc_prefixes
      → Reads base o (reconcile_vpc_prefixes env site) tt (
          get_ip_block o.status.network_status.child_ip_block_id
          ∷ concat_map
              (λ s. recorded_read get_vpc_prefix o.status.network_status.vpc_prefix_ids s.name)
              o.spec.vpc_prefixes)
  unfolding reconcile_vpc_prefixes vpc_id
  reconcile_vpc_prefixes-Reads site v c h =
      Reads-after (Reads-gets vpc_id o.status.vpc_id (λ w l. l.same_vpc)) (λ vpc e.
        Reads-filled vpc (fail "VPC ID is empty") (λ z. v (sym e ∙ z))
          (Reads-bind
            (Reads-wrap_exec "failed to ensure IP block and allocation" (ensure-Reads site c))
            (λ child _.
              Reads-after
                (Reads-gets (λ w. w.object.spec.vpc_prefixes) o.spec.vpc_prefixes
                  (λ w l. ap (λ s. s.vpc_prefixes) l.same_spec))
                (λ specs same.
                  Reads-loop (reconcile_vpc_prefix env vpc child)
                    (λ s.
                      recorded_read get_vpc_prefix o.status.network_status.vpc_prefix_ids s.name)
                    (λ s. lookup s.name o.status.network_status.vpc_prefix_ids ≢ none)
                    (reconcile_vpc_prefix-Reads vpc child) specs o.spec.vpc_prefixes same h))))

  pub reconcile_vpc_peerings-Reads :
      (site : String)
      → o.status.vpc_id ≢ ""
      → All
          (λ s. lookup s.peer_vpc_id o.status.network_status.vpc_peering_ids ≢ none)
          o.spec.vpc_peerings
      → Reads base o (reconcile_vpc_peerings env site) tt (
          concat_map
            (λ s.
              recorded_read get_vpc_peering o.status.network_status.vpc_peering_ids s.peer_vpc_id)
            o.spec.vpc_peerings)
  unfolding reconcile_vpc_peerings vpc_id
  reconcile_vpc_peerings-Reads site v h =
      Reads-after (Reads-gets vpc_id o.status.vpc_id (λ w l. l.same_vpc)) (λ vpc e.
        Reads-filled vpc (fail "VPC ID is empty") (λ z. v (sym e ∙ z))
          (Reads-after
            (Reads-gets (λ w. w.object.spec.vpc_peerings) o.spec.vpc_peerings
              (λ w l. ap (λ s. s.vpc_peerings) l.same_spec))
            (λ specs same.
              Reads-loop (reconcile_vpc_peering env site vpc)
                (λ s.
                  recorded_read get_vpc_peering o.status.network_status.vpc_peering_ids
                    s.peer_vpc_id)
                (λ s. lookup s.peer_vpc_id o.status.network_status.vpc_peering_ids ≢ none)
                (reconcile_vpc_peering-Reads site vpc) specs o.spec.vpc_peerings same h)))
