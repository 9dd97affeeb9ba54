-- ===== src/Tests/Deletion.antt =====
-- A cluster that is deleted: its teardown, an interrupted one and the next run.
use cluster_api_provider_nvi.Common.{
  true, none, some, List, [], ◌∷◌, ◌≡◌, refl, if◌then◌else◌, nat_eq, length,
}
use cluster_api_provider_nvi.Sdk.Wire.{
  Call, Cloud, invoke, delete_subnet, delete_vpc, delete_nsg, delete_allocation, delete_ip_block,
}
use cluster_api_provider_nvi.Kube.{Env}
use cluster_api_provider_nvi.Cluster.Scope.{ClusterWorld}
use cluster_api_provider_nvi.Cluster.Delete.{
  reconcile_delete, delete_id, delete_map, delete_entries, delete_resource, deleted,
}
use mathlib.Core.List.{Perm}
use mathlib.Core.List.Perm
use cluster_api_provider_nvi.Common.Dict.{Dict, lookup, erase}
use cluster_api_provider_nvi.Cluster.Delete.Progress.{status_of}
use cluster_api_provider_nvi.Cluster.Delete.Teardown.{HasMaps}
use cluster_api_provider_nvi.Cluster.Delete.Retry.{Result, reconcile_delete-Result}
use cluster_api_provider_nvi.Tests.Fixtures.{kube, kube-IsLawful, cluster, provisioned}

abbrev with_subnets : Dict → List Call → ClusterWorld
with_subnets ids calls = record {
  object = record cluster {
    status = record provisioned {
      network_status = record provisioned.network_status { subnet_ids = ids };
    };
  };
  calls = calls;
  events = [];
  metrics = [];
}

abbrev world : ClusterWorld
world = with_subnets (("workers", "s1") ∷ ("edge", "s2") ∷ []) []

-- The service refuses the second call of all with 409 and fulfils all others.
abbrev flaky : Cloud
flaky history (delete_subnet id) =
    if nat_eq (length history) 1
    then record { value = none; http = some 409; err = some "busy" }
    else record { value = none; http = some 204; err = none }
flaky history c = record { value = none; http = some 204; err = none }

abbrev env : Env
env = record { cloud = flaky; kube = kube; recorder = true }

maps : HasMaps (status_of world)
unfolding lookup
maps = record { peerings = tt; prefixes = tt; subnets = (refl, (refl, tt)) }

reconcile_delete-Result_example : Result env world (reconcile_delete env world)
reconcile_delete-Result_example = reconcile_delete-Result env kube-IsLawful world maps

-- The first run: the security group is deleted, the subnet is not.
stopped_world : ClusterWorld
unfolding reconcile_delete delete_id delete_map delete_entries delete_resource invoke deleted erase
stopped_world = (reconcile_delete env world).1

first_run :
    (stopped_world.calls ≡ delete_nsg "n1" ∷ delete_subnet "s1" ∷ [])
    × (stopped_world.object.meta.finalizers ≡ world.object.meta.finalizers)
unfolding stopped_world
first_run = (refl, refl)

-- What the next run finds, and in which order it visits the subnets.
resumed_world : ClusterWorld
unfolding stopped_world
resumed_world = record stopped_world {
  object = record stopped_world.object {
    status = record stopped_world.object.status {
      network_status = record stopped_world.object.status.network_status {
        subnet_ids = ("edge", "s2") ∷ ("workers", "s1") ∷ [];
      };
    };
  };
}

finished_world : ClusterWorld
unfolding resumed_world
finished_world = (reconcile_delete env resumed_world).1

both_runs :
    finished_world.calls
    ≡ delete_nsg "n1"
      ∷ delete_subnet "s1"
      ∷ delete_subnet "s2"
      ∷ delete_subnet "s1"
      ∷ delete_allocation "a1"
      ∷ delete_ip_block "c1"
      ∷ delete_ip_block "p1"
      ∷ delete_vpc "v1"
      ∷ []
unfolding finished_world
both_runs = refl
