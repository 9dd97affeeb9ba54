-- ===== src/Tests/Steady.antt =====
-- A cluster that is there already, before a service that still has it.
use cluster_api_provider_nvi.Common.{is_empty, is_empty_iff}
use cluster_api_provider_nvi.Common.{
  String, true, false, none, some, [], ◌∷◌, ◌≡◌, ◌≢◌, refl, arith,
}
use cluster_api_provider_nvi.Common.Dict.{lookup}
use cluster_api_provider_nvi.Common.Exec.{ok}
use cluster_api_provider_nvi.Sdk.{Resource, Allocation}
use cluster_api_provider_nvi.Sdk.Wire.{
  Call, Cloud, Reply, is_found, get_subnet, get_ip_block, get_vpc, get_vpc_prefix, get_vpc_peering,
  get_nsg, create_vpc, create_ip_block, create_allocation, get_allocation, create_subnet,
  create_vpc_prefix, create_vpc_peering, create_nsg,
}
use cluster_api_provider_nvi.Kube.{Env}
use cluster_api_provider_nvi.Cluster.Scope.{ClusterWorld}
use cluster_api_provider_nvi.Cluster.Subnets.{
  reconcile_subnets, reconcile_vpc_prefixes, reconcile_vpc_peerings,
}
use cluster_api_provider_nvi.Common.{List, ap, sym, ◌∙◌, ◌==◌, eq_iff, if◌then◌else◌}
use cluster_api_provider_nvi.Common.Dict.{Dict, insert}
use cluster_api_provider_nvi.Cidr.{parse_cidr}
use cluster_api_provider_nvi.Api.Cluster.{NcxInfraClusterSpec}
use cluster_api_provider_nvi.Cluster.Vpc.{reconcile_vpc}
use cluster_api_provider_nvi.Cluster.Nsg.{reconcile_nsg}
use cluster_api_provider_nvi.Cluster.Allocation.{ensure_ip_block_and_allocation}
use cluster_api_provider_nvi.Cluster.Scope.{site_id}
use cluster_api_provider_nvi.Cluster.Normal.{reconcile_normal, done}
use cluster_api_provider_nvi.Cluster.Normal.Reconciled.{has_finalizer}
use cluster_api_provider_nvi.Cluster.Reads.{IsRecordedRead}
use cluster_api_provider_nvi.Cluster.Reads.Steps.{HasNetwork}
use cluster_api_provider_nvi.Cluster.Reads.Planned.{planned_reads}
use cluster_api_provider_nvi.Cluster.Reads.Quiet.{IsQuiet}
use cluster_api_provider_nvi.Cluster.Reads.Twice.{later, reconcile_normal_twice}
use cluster_api_provider_nvi.Tests.Provision.{new_world}
use cluster_api_provider_nvi.Tests.Fixtures.{kube, kube-IsLawful, subnet, spec}

abbrev resource : String → Reply Resource
resource id = record { value = some (record { id = some id }); http = some 200; err = none }

abbrev pub made : String → Reply Resource
made id = record { value = some (record { id = some id }); http = some 201; err = none }

pub filled : (s : String) → is_empty s ≡ false → s ≢ ""
filled s h = ground (arith, is_empty_iff s)

abbrev pub full_spec : NcxInfraClusterSpec
full_spec = record spec {
  vpc = record {
    name = "vpc";
    network_virtualization_type = "FNN";
    labels = [];
    network_security_group = some (record { name = "nsg"; rules = [] });
    nvlink_logical_partition_id = "";
    vni = none;
    description = "";
  };
  vpc_prefixes = (record { name = "front"; cidr = "10.0.2.0/24"; role = "" }) ∷ [];
  vpc_peerings = (record { peer_vpc_id = "v2" }) ∷ [];
}

abbrev pub allocated : Reply Allocation
allocated = record {
  value = some (record {
    id = some "a1";
    name = some "demo-allocation";
    allocation_constraints =
        (record { resource_type = some "IPBlock"; derived_resource_id = some "c1" }) ∷ [];
  });
  http = some 201;
  err = none;
}

-- A service that makes one of each.
abbrev pub making : Cloud
making history (create_vpc r) = made "v1"
making history (create_ip_block r) = made "p1"
making history (create_allocation r) = allocated
making history (get_allocation id) = allocated
making history (create_subnet r) = made "s1"
making history (create_vpc_prefix r) = made "p2"
making history (create_vpc_peering r) = made "e1"
making history (create_nsg r) = made "n1"
making history (get_ip_block id) = resource id
making history c = record { value = none; http = some 500; err = some "not asked for" }

abbrev pub making_env : Env
making_env = record { cloud = making; kube = kube; recorder = true }

abbrev pub full_world : ClusterWorld
full_world = record new_world { object = record new_world.object { spec = full_spec } }

first_run : (reconcile_normal making_env full_world).0 ≡ ok done
unfolding reconcile_normal kube insert lookup site_id ensure_ip_block_and_allocation reconcile_vpc
    reconcile_subnets reconcile_vpc_prefixes reconcile_vpc_peerings reconcile_nsg parse_cidr
first_run = refl

abbrev pub first_end : ClusterWorld
first_end = (reconcile_normal making_env full_world).1

first_nsg : first_end.object.status.network_status.nsg_id ≡ "n1"
unfolding reconcile_normal kube insert lookup site_id ensure_ip_block_and_allocation reconcile_vpc
    reconcile_subnets reconcile_vpc_prefixes reconcile_vpc_peerings reconcile_nsg parse_cidr
first_nsg = refl

pub full_world-finalizer : has_finalizer making_env full_world ≡ true
unfolding kube
full_world-finalizer = refl

-- A service that has what the first run made, and answers 404 to all else.
abbrev only : String → String → Reply Resource
only mine id =
    if id == mine
    then resource id
    else record { value = none; http = some 404; err = some "not found" }

abbrev having : Cloud
having history (get_vpc id) = only "v1" id
having history (get_ip_block id) = only "c1" id
having history (get_subnet id) = only "s1" id
having history (get_vpc_prefix id) = only "p2" id
having history (get_vpc_peering id) = only "e1" id
having history (get_nsg id) = only "n1" id
having history c = record { value = none; http = some 404; err = some "not found" }

only-found : (mine id : String) → id ≡ mine → is_found (only mine id) ≡ true
only-found mine id e = ground (arith, eq_iff id mine)

first_vpc : first_end.object.status.vpc_id ≡ "v1"
unfolding reconcile_normal kube insert lookup site_id ensure_ip_block_and_allocation reconcile_vpc
    reconcile_subnets reconcile_vpc_prefixes reconcile_vpc_peerings reconcile_nsg parse_cidr
first_vpc = refl

first_child : first_end.object.status.network_status.child_ip_block_id ≡ "c1"
unfolding reconcile_normal kube insert lookup site_id ensure_ip_block_and_allocation reconcile_vpc
    reconcile_subnets reconcile_vpc_prefixes reconcile_vpc_peerings reconcile_nsg parse_cidr
first_child = refl

first_subnets : first_end.object.status.network_status.subnet_ids ≡ (subnet.name, "s1") ∷ []
unfolding reconcile_normal kube insert lookup site_id ensure_ip_block_and_allocation reconcile_vpc
    reconcile_subnets reconcile_vpc_prefixes reconcile_vpc_peerings reconcile_nsg parse_cidr
first_subnets = refl

first_prefixes : first_end.object.status.network_status.vpc_prefix_ids ≡ ("front", "p2") ∷ []
unfolding reconcile_normal kube insert lookup site_id ensure_ip_block_and_allocation reconcile_vpc
    reconcile_subnets reconcile_vpc_prefixes reconcile_vpc_peerings reconcile_nsg parse_cidr
first_prefixes = refl

first_peerings : first_end.object.status.network_status.vpc_peering_ids ≡ ("v2", "e1") ∷ []
unfolding reconcile_normal kube insert lookup site_id ensure_ip_block_and_allocation reconcile_vpc
    reconcile_subnets reconcile_vpc_prefixes reconcile_vpc_peerings reconcile_nsg parse_cidr
first_peerings = refl

only_entry :
    (key k id mine : String) (m : Dict) → m ≡ (k, mine) ∷ [] → lookup key m ≡ some id → id ≡ mine
unfolding lookup
only_entry key k id mine m same e =
    let found = ap (lookup key) (sym same) ∙ e in ground (arith, found)

having-found :
    (history : List Call) (c : Call)
    → IsRecordedRead first_end.object c
    → is_found (having history c) ≡ true
having-found history (get_vpc id) e = only-found "v1" id (e ∙ first_vpc)
having-found history (get_ip_block id) e = only-found "c1" id (e ∙ first_child)
having-found history (get_subnet id) (key, e) =
    only-found "s1" id (only_entry key subnet.name id "s1" _ first_subnets e)
having-found history (get_vpc_prefix id) (key, e) =
    only-found "p2" id (only_entry key "front" id "p2" _ first_prefixes e)
having-found history (get_vpc_peering id) (key, e) =
    only-found "e1" id (only_entry key "v2" id "e1" _ first_peerings e)
having-found history (get_nsg id) e = only-found "n1" id (e ∙ first_nsg)
having-found history _ e = absurd e

having-HasNetwork : HasNetwork having first_end.calls first_end.object
having-HasNetwork = record { finds = λ history c read recorded. having-found history c recorded }

reconcile_normal_twice_example :
    IsQuiet
      (later making_env having)
      first_end
      (reconcile_normal (later making_env having) first_end)
reconcile_normal_twice_example =
    reconcile_normal_twice making_env having full_world first_end done kube-IsLawful
      having-HasNetwork full_world-finalizer (filled "site-1" refl)
      (ap (λ r. (r, first_end)) first_run) (λ s z. rw first_nsg (filled "n1" refl))

second_reads :
    planned_reads first_end.object
    ≡ get_ip_block "c1"
      ∷ get_vpc "v1"
      ∷ get_ip_block "c1"
      ∷ get_subnet "s1"
      ∷ get_ip_block "c1"
      ∷ get_vpc_prefix "p2"
      ∷ get_nsg "n1"
      ∷ get_vpc_peering "e1"
      ∷ []
unfolding planned_reads reconcile_normal kube insert lookup site_id ensure_ip_block_and_allocation
    reconcile_vpc reconcile_subnets reconcile_vpc_prefixes reconcile_vpc_peerings reconcile_nsg
    parse_cidr
second_reads = refl
