-- ===== src/Tests/Lives.antt =====
-- A cluster from its first run to its deletion.
use cluster_api_provider_nvi.Common.{true, some, [], ◌∷◌, ◌≡◌, refl}
use cluster_api_provider_nvi.Common.Dict.{lookup, insert, erase}
use cluster_api_provider_nvi.Common.Text.{strip_prefix}
use cluster_api_provider_nvi.Common.Exec.{ok}
use cluster_api_provider_nvi.Api.Cluster.{NcxInfraCluster}
use cluster_api_provider_nvi.Cidr.{parse_cidr}
use cluster_api_provider_nvi.Sdk.Wire.{invoke}
use cluster_api_provider_nvi.Kube.{Env, found}
use cluster_api_provider_nvi.Cluster.Scope.{ClusterWorld, site_id}
use cluster_api_provider_nvi.Cluster.Vpc.{reconcile_vpc}
use cluster_api_provider_nvi.Cluster.Nsg.{reconcile_nsg}
use cluster_api_provider_nvi.Cluster.Allocation.{ensure_ip_block_and_allocation}
use cluster_api_provider_nvi.Cluster.Subnets.{
  reconcile_subnets, reconcile_vpc_prefixes, reconcile_vpc_peerings,
}
use cluster_api_provider_nvi.Cluster.Normal.{reconcile_normal, done}
use cluster_api_provider_nvi.Cluster.Delete.{
  reconcile_delete, delete_id, delete_map, delete_entries, delete_resource, deleted,
}
use cluster_api_provider_nvi.Cluster.Delete.Teardown.{HasMaps}
use cluster_api_provider_nvi.Cluster.Entry.{
  Access, authenticated, ClusterInputs, new_cluster_scope, reconcile,
}
use cluster_api_provider_nvi.Cluster.Life.{Life, begun, run, IsGone, Life-teardown}
use cluster_api_provider_nvi.Tests.Fixtures.{kube, kube-IsLawful, meta}
use cluster_api_provider_nvi.Tests.Starting.{inputs, env as accepting_env}
use cluster_api_provider_nvi.Tests.Provision.{empty}
use cluster_api_provider_nvi.Tests.Steady.{making_env, full_spec, full_world, first_end}

abbrev first_env : Access → Env
first_env creds = making_env

abbrev first_inputs : ClusterInputs
first_inputs = record inputs { get_cluster = found full_world.object }

empty-HasMaps : HasMaps empty
empty-HasMaps = record { peerings = tt; prefixes = tt; subnets = tt }

first_patched : (reconcile first_env first_inputs).patched ≡ some first_end
unfolding reconcile new_cluster_scope strip_prefix lookup
first_patched = refl

lived : Life empty first_end.object.status
lived = run first_env first_inputs full_world.object first_end begun refl refl first_patched refl

abbrev leaving : NcxInfraCluster
leaving = record {
  meta = meta true ("ncxinfracluster.infrastructure.cluster.x-k8s.io" ∷ []);
  spec = full_spec;
  status = first_end.object.status;
}

abbrev last_inputs : ClusterInputs
last_inputs = record inputs { get_cluster = found leaving }

abbrev last_end : ClusterWorld
last_end =
    (reconcile_delete
      (accepting_env
        (authenticated (record { endpoint = "https://api"; org_name = "org"; token = "t" })))
      (record { object = leaving; calls = []; events = []; metrics = [] })).1

last_patched : (reconcile accepting_env last_inputs).patched ≡ some last_end
unfolding reconcile new_cluster_scope strip_prefix lookup
last_patched = refl

last_result : (reconcile accepting_env last_inputs).result ≡ ok done
unfolding reconcile new_cluster_scope strip_prefix lookup reconcile_delete delete_id delete_map
    delete_entries delete_resource invoke deleted erase reconcile_normal insert site_id
    ensure_ip_block_and_allocation reconcile_vpc reconcile_subnets reconcile_vpc_prefixes
    reconcile_vpc_peerings reconcile_nsg parse_cidr kube
last_result = refl

Life-teardown_example : IsGone accepting_env first_end.object.status last_end
Life-teardown_example =
    Life-teardown accepting_env last_inputs leaving last_end done empty-HasMaps lived
      (λ creds. kube-IsLawful) refl refl refl last_patched last_result
