-- ===== src/Cluster/Reads/Planned.antt =====
-- What a run of `reconcileNormal` in internal/controller/ncxinfracluster_controller.go reads on a cluster
-- that is provisioned already.
use cluster_api_provider_nvi.Common.{List, [], ◌∷◌, ◌++◌, Option, none, some, ◌≡◌, ◌≢◌, All}
use cluster_api_provider_nvi.Common.Dict.{lookup}
use cluster_api_provider_nvi.Api.Cluster.{NcxInfraCluster, NsgSpec}
use cluster_api_provider_nvi.Sdk.Wire.{
  Call, get_vpc, get_ip_block, get_subnet, get_vpc_prefix, get_vpc_peering, get_nsg,
}
use cluster_api_provider_nvi.Cluster.Reads.{concat_map}
use cluster_api_provider_nvi.Cluster.Reads.Steps.{recorded_read}

-- The site is given by its ID, and the status has an ID for all that the spec asks for.
pub record IsSteady (o : NcxInfraCluster) : Type 0 where
  pub site : o.spec.site_ref.id ≢ ""
  pub child : o.status.network_status.child_ip_block_id ≢ ""
  pub vpc : o.status.vpc_id ≢ ""
  pub nsg :
      (s : NsgSpec)
      → o.spec.vpc.network_security_group ≡ some s
      → o.status.network_status.nsg_id ≢ ""
  pub subnets : All (λ s. lookup s.name o.status.network_status.subnet_ids ≢ none) o.spec.subnets
  pub prefixes :
      All (λ s. lookup s.name o.status.network_status.vpc_prefix_ids ≢ none) o.spec.vpc_prefixes
  pub peerings :
      All
        (λ s. lookup s.peer_vpc_id o.status.network_status.vpc_peering_ids ≢ none)
        o.spec.vpc_peerings

abbrev pub when_listed : {A : Type 0} → List A → List Call → List Call
when_listed [] calls = []
when_listed (x ∷ xs) calls = calls

abbrev pub when_some : {A : Type 0} → Option A → List Call → List Call
when_some none calls = []
when_some (some a) calls = calls

abbrev pub child_read : NcxInfraCluster → Call
child_read o = get_ip_block o.status.network_status.child_ip_block_id

abbrev pub subnet_reads : NcxInfraCluster → List Call
subnet_reads o =
    concat_map (λ s. recorded_read get_subnet o.status.network_status.subnet_ids s.name)
      o.spec.subnets

abbrev pub prefix_reads : NcxInfraCluster → List Call
prefix_reads o =
    concat_map (λ s. recorded_read get_vpc_prefix o.status.network_status.vpc_prefix_ids s.name)
      o.spec.vpc_prefixes

abbrev pub peering_reads : NcxInfraCluster → List Call
peering_reads o =
    concat_map
      (λ s. recorded_read get_vpc_peering o.status.network_status.vpc_peering_ids s.peer_vpc_id)
      o.spec.vpc_peerings

-- One read of each resource, in the order of the steps, and of the child IP block before each step that
-- needs it.
unfoldable pub planned_reads : NcxInfraCluster → List Call
planned_reads o =
    child_read o
    ∷ get_vpc o.status.vpc_id
    ∷ child_read o
    ∷ (subnet_reads o
        ++ (when_listed o.spec.vpc_prefixes (child_read o ∷ prefix_reads o)
            ++ (when_some o.spec.vpc.network_security_group
                  (get_nsg o.status.network_status.nsg_id ∷ [])
                ++ when_listed o.spec.vpc_peerings (peering_reads o))))
