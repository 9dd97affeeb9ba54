-- ===== src/Tests/Provision.antt =====
-- A cluster that is provisioned from nothing, and a service that fails.
use cluster_api_provider_nvi.Common.{
  ℕ, String, true, false, Option, none, some, [], ◌∷◌, ◌++◌, ◌≡◌, refl,
}
use cluster_api_provider_nvi.Common.Exec.{ok}
use cluster_api_provider_nvi.Common.Dict.{insert, lookup}
use cluster_api_provider_nvi.Api.Cluster.{NcxInfraClusterStatus}
use cluster_api_provider_nvi.Sdk.{Resource, Allocation}
use cluster_api_provider_nvi.Sdk.Wire.{
  Cloud, Reply, create_vpc, create_ip_block, create_allocation, create_subnet, get_vpc,
  get_ip_block,
}
use cluster_api_provider_nvi.Kube.{Env}
use cluster_api_provider_nvi.Cluster.Scope.{ClusterWorld, site_id}
use cluster_api_provider_nvi.Cluster.Allocation.{ensure_ip_block_and_allocation}
use cluster_api_provider_nvi.Cluster.Subnets.{reconcile_subnets}
use cluster_api_provider_nvi.Cidr.{parse_cidr}
use cluster_api_provider_nvi.Cluster.Vpc.{vpc_request, reconcile_vpc}
use cluster_api_provider_nvi.Cluster.Vpc.Lookup.{expected_calls, reconcile_vpc-calls}
use cluster_api_provider_nvi.Common.{◌≢◌, arith}
use cluster_api_provider_nvi.Common.Exec.{panic}
use cluster_api_provider_nvi.Cluster.Responds.{HasResponses}
use cluster_api_provider_nvi.Cluster.Responds.Provisioning.{reconcile_normal-IsSafe}
use cluster_api_provider_nvi.Cluster.Normal.{reconcile_normal, done}
use cluster_api_provider_nvi.Cluster.Normal.Reconciled.{Ending, reconcile_normal-Ending}
use cluster_api_provider_nvi.Tests.Fixtures.{kube, kube-IsLawful, spec, meta, cluster}

created : Reply Resource
created = record { value = some (record { id = some "new" }); http = some 201; err = none }

-- The allocation comes with its IP block.
abbrev allocation : Allocation
allocation = record {
  id = some "a1";
  name = some "demo-allocation";
  allocation_constraints =
      (record { resource_type = some "IPBlock"; derived_resource_id = some "c1" }) ∷ [];
}

abbrev resource : String → Option ℕ → Reply Resource
resource id code = record { value = some (record { id = some id }); http = code; err = none }

abbrev willing : Cloud
willing history (create_vpc r) = resource "v1" (some 201)
willing history (create_ip_block r) = resource "p1" (some 201)
willing history (create_subnet r) = resource "s1" (some 201)
willing history (get_vpc id) = resource id (some 200)
willing history (get_ip_block id) = resource id (some 200)
willing history (create_allocation r) = record {
  value = some allocation;
  http = some 201;
  err = none;
}
willing history c = record { value = none; http = some 500; err = some "not asked for" }

abbrev pub good : Env
good = record { cloud = willing; kube = kube; recorder = true }

abbrev pub empty : NcxInfraClusterStatus
empty = record {
  ready = false;
  vpc_id = "";
  network_status = record {
    subnet_ids = [];
    vpc_prefix_ids = [];
    vpc_peering_ids = [];
    nsg_id = "";
    ip_block_id = "";
    allocation_id = "";
    child_ip_block_id = "";
  };
  failure_reason = none;
  failure_message = none;
  conditions = [];
}

abbrev pub new_world : ClusterWorld
new_world = record {
  object = record {
    meta = meta false ("ncxinfracluster.infrastructure.cluster.x-k8s.io" ∷ []);
    spec = spec;
    status = empty;
  };
  calls = [];
  events = [];
  metrics = [];
}

reconcile_normal-Ending_example : Ending good new_world (reconcile_normal good new_world)
unfolding kube
reconcile_normal-Ending_example = reconcile_normal-Ending good kube-IsLawful new_world refl

pub new_run : (reconcile_normal good new_world).0 ≡ ok done
unfolding reconcile_normal kube insert lookup site_id ensure_ip_block_and_allocation reconcile_vpc
    reconcile_subnets parse_cidr
new_run = refl

-- The service is down: 503 on every read, and a create that works.
abbrev down : Cloud
down history (create_vpc r) = resource "v2" (some 201)
down history c = record { value = none; http = some 503; err = some "down" }

abbrev bad : Env
bad = record { cloud = down; kube = kube; recorder = false }

abbrev ready_world : ClusterWorld
ready_world = record { object = cluster; calls = []; events = []; metrics = [] }

reconcile_vpc-calls_example :
    (reconcile_vpc bad "site-1" ready_world).1.calls ≡ [] ++ expected_calls bad "site-1" ready_world
reconcile_vpc-calls_example = reconcile_vpc-calls bad "site-1" ready_world

second_vpc :
    expected_calls bad "site-1" ready_world
    ≡ get_vpc "v1" ∷ create_vpc (vpc_request spec.vpc "site-1") ∷ []
unfolding expected_calls
second_vpc = refl

-- The same service with a response to every call.
abbrev responsive : Cloud
responsive history c = record {
  value = (willing history c).value;
  http = some 201;
  err = (willing history c).err;
}

responsive-HasResponses : HasResponses responsive
responsive-HasResponses history c e = ground arith

abbrev responsive_env : Env
responsive_env = record { cloud = responsive; kube = kube; recorder = true }

reconcile_normal-IsSafe_example : (reconcile_normal responsive_env new_world).0 ≢ panic
reconcile_normal-IsSafe_example =
    reconcile_normal-IsSafe responsive_env responsive-HasResponses new_world
