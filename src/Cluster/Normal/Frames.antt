-- ===== src/Cluster/Normal/Frames.antt =====
-- What the steps of `reconcileNormal` in internal/controller/ncxinfracluster_controller.go leave
-- alone in the object.
use cluster_api_provider_nvi.Common.{String, Bool, Option, none, some, arith, is_empty}
use cluster_api_provider_nvi.Common.Dict.{Dict}
use cluster_api_provider_nvi.Common.Exec.{pure}
use cluster_api_provider_nvi.Api.Meta.{ObjectMeta}
use cluster_api_provider_nvi.Api.Cluster.{
  NcxInfraCluster, NcxInfraClusterSpec, SubnetSpec, VpcPrefixSpec, VpcPeeringSpec, NsgSpec,
}
use cluster_api_provider_nvi.Kube.{Env}
use cluster_api_provider_nvi.Cluster.Scope.{ClusterExec, site_id, vpc_id}
use cluster_api_provider_nvi.Cluster.Vpc.{reconcile_vpc}
use cluster_api_provider_nvi.Cluster.Allocation.{
  ensure_ip_block_and_allocation, verify_child_ip_block, ensure_parent_ip_block, ensure_allocation,
  query_child_ip_block, build_child_ip_block,
}
use cluster_api_provider_nvi.Cluster.Subnets.{
  wrap_exec, reconcile_subnet, reconcile_vpc_prefix, reconcile_vpc_peering, reconcile_subnets,
  reconcile_vpc_prefixes, reconcile_vpc_peerings,
}
use cluster_api_provider_nvi.Cluster.Nsg.{reconcile_nsg}
use cluster_api_provider_nvi.Cluster.Keeps.{
  Keeps, Keeps-pure, Keeps-fail, Keeps-gets, Keeps-if, Keeps-bind, Keeps-for_each, Keeps-of,
}

-- The metadata, the spec and whether the cluster was ready.
abbrev pub identity : NcxInfraCluster → ObjectMeta × (NcxInfraClusterSpec × Bool)
identity o = (o.meta, (o.spec, o.status.ready))

-- What is known of the network after each stage.
abbrev pub with_vpc : NcxInfraCluster → (ObjectMeta × (NcxInfraClusterSpec × Bool)) × String
with_vpc o = (identity o, o.status.vpc_id)

abbrev pub with_subnets :
    NcxInfraCluster → ((ObjectMeta × (NcxInfraClusterSpec × Bool)) × String) × Dict
with_subnets o = (with_vpc o, o.status.network_status.subnet_ids)

abbrev pub with_prefixes :
    NcxInfraCluster → (((ObjectMeta × (NcxInfraClusterSpec × Bool)) × String) × Dict) × Dict
with_prefixes o = (with_subnets o, o.status.network_status.vpc_prefix_ids)

pub site_id-Keeps : (env : Env) → Keeps with_prefixes (site_id env)
unfolding site_id
site_id-Keeps env = record { at = λ w. grind arith }

verify_child_ip_block-Keeps : (env : Env) → Keeps with_prefixes (verify_child_ip_block env)
unfolding verify_child_ip_block
verify_child_ip_block-Keeps env = record { at = λ w. grind arith }

ensure_parent_ip_block-Keeps :
    (env : Env) (site : String) → Keeps with_prefixes (ensure_parent_ip_block env site)
unfolding ensure_parent_ip_block
ensure_parent_ip_block-Keeps env site = record { at = λ w. grind arith }

ensure_allocation-Keeps :
    (env : Env) (site parent : String) → Keeps with_prefixes (ensure_allocation env site parent)
unfolding ensure_allocation
ensure_allocation-Keeps env site parent = record { at = λ w. grind arith }

query_child_ip_block-Keeps : (env : Env) → Keeps with_prefixes (query_child_ip_block env)
unfolding query_child_ip_block
query_child_ip_block-Keeps env = record { at = λ w. grind arith }

build_child_ip_block-Keeps :
    (env : Env) (site : String) → Keeps with_prefixes (build_child_ip_block env site)
unfolding build_child_ip_block
build_child_ip_block-Keeps env site = Keeps-bind (ensure_parent_ip_block-Keeps env site) (λ parent.
    Keeps-bind (ensure_allocation-Keeps env site parent)
      (λ _. Keeps-bind (query_child_ip_block-Keeps env) (λ _. record { at = λ w. grind arith })))

ensure-choice :
    (env : Env) (site : String) (present : Option String)
    → Keeps with_prefixes
        (elim present [ some child ↦ pure child | none ↦ build_child_ip_block env site ])
ensure-choice env site none = build_child_ip_block-Keeps env site
ensure-choice env site (some child) = Keeps-pure child

pub ensure_ip_block_and_allocation-Keeps :
    (env : Env) (site : String) → Keeps with_prefixes (ensure_ip_block_and_allocation env site)
unfolding ensure_ip_block_and_allocation
ensure_ip_block_and_allocation-Keeps env site =
    Keeps-bind (verify_child_ip_block-Keeps env) (ensure-choice env site)

pub reconcile_vpc-Keeps : (env : Env) (site : String) → Keeps identity (reconcile_vpc env site)
unfolding reconcile_vpc
reconcile_vpc-Keeps env site = record { at = λ w. grind arith }

pub reconcile_subnet-Keeps :
    (env : Env) (vpc child : String) (s : SubnetSpec)
    → Keeps with_vpc (reconcile_subnet env vpc child s)
unfolding reconcile_subnet
reconcile_subnet-Keeps env vpc child s = record { at = λ w. grind arith }

pub reconcile_vpc_prefix-Keeps :
    (env : Env) (vpc child : String) (s : VpcPrefixSpec)
    → Keeps with_subnets (reconcile_vpc_prefix env vpc child s)
unfolding reconcile_vpc_prefix
reconcile_vpc_prefix-Keeps env vpc child s = record { at = λ w. grind arith }

pub reconcile_vpc_peering-Keeps :
    (env : Env) (site vpc : String) (s : VpcPeeringSpec)
    → Keeps with_prefixes (reconcile_vpc_peering env site vpc s)
unfolding reconcile_vpc_peering
reconcile_vpc_peering-Keeps env site vpc s = record { at = λ w. grind arith }

pub reconcile_nsg-Keeps :
    (env : Env) (site : String) (s : NsgSpec) → Keeps with_prefixes (reconcile_nsg env site s)
unfolding reconcile_nsg
reconcile_nsg-Keeps env site s = record { at = λ w. grind arith }

module _ {X A : Type 0} {read : NcxInfraCluster → X} where
  Keeps-wrap_exec :
      (text : String) (m : ClusterExec A) → Keeps read m → Keeps read (wrap_exec text m)
  Keeps-wrap_exec text m k = record { at = λ w. k.at w }

pub reconcile_subnets-Keeps :
    (env : Env) (site : String) → Keeps with_vpc (reconcile_subnets env site)
unfolding reconcile_subnets
reconcile_subnets-Keeps env site = Keeps-bind (Keeps-gets vpc_id) (λ vpc.
    Keeps-if (is_empty vpc) (Keeps-fail "VPC ID is empty") (
      Keeps-bind
        (Keeps-of (λ r. r.0.0)
          (Keeps-wrap_exec _ _ (ensure_ip_block_and_allocation-Keeps env site)))
        (λ child.
          Keeps-bind (Keeps-gets (λ w. w.object.spec.subnets))
            (Keeps-for_each (reconcile_subnet-Keeps env vpc child)))))

pub reconcile_vpc_prefixes-Keeps :
    (env : Env) (site : String) → Keeps with_subnets (reconcile_vpc_prefixes env site)
unfolding reconcile_vpc_prefixes
reconcile_vpc_prefixes-Keeps env site = Keeps-bind (Keeps-gets vpc_id) (λ vpc.
    Keeps-if (is_empty vpc) (Keeps-fail "VPC ID is empty") (
      Keeps-bind
        (Keeps-of (λ r. r.0) (Keeps-wrap_exec _ _ (ensure_ip_block_and_allocation-Keeps env site)))
        (λ child.
          Keeps-bind (Keeps-gets (λ w. w.object.spec.vpc_prefixes))
            (Keeps-for_each (reconcile_vpc_prefix-Keeps env vpc child)))))

pub reconcile_vpc_peerings-Keeps :
    (env : Env) (site : String) → Keeps with_prefixes (reconcile_vpc_peerings env site)
unfolding reconcile_vpc_peerings
reconcile_vpc_peerings-Keeps env site = Keeps-bind (Keeps-gets vpc_id) (λ vpc.
    Keeps-if (is_empty vpc) (Keeps-fail "VPC ID is empty") (
      Keeps-bind (Keeps-gets (λ w. w.object.spec.vpc_peerings))
        (Keeps-for_each (reconcile_vpc_peering-Keeps env site vpc))))
