-- ===== src/Tests/Starting.antt =====
-- A run of the cluster controller from the request on.
use cluster_api_provider_nvi.Common.{true, false, none, some, [], ◌∷◌, ◌≡◌, ◌≢◌, ◌↔◌, refl, arith}
use cluster_api_provider_nvi.Common.Dict.{Dict, lookup, erase}
use cluster_api_provider_nvi.Common.Text.{strip_prefix}
use cluster_api_provider_nvi.Common.Exec.{ok}
use cluster_api_provider_nvi.Api.Cluster.{NcxInfraCluster}
use cluster_api_provider_nvi.Sdk.Wire.{Cloud, invoke}
use cluster_api_provider_nvi.Kube.{Env}
use cluster_api_provider_nvi.Kube.{found}
use cluster_api_provider_nvi.Cluster.Scope.{ClusterWorld}
use cluster_api_provider_nvi.Cluster.Delete.{
  reconcile_delete, delete_id, delete_map, delete_entries, delete_resource, deleted,
}
use cluster_api_provider_nvi.Cluster.Entry.{
  Access, Credentials, authenticated, ClusterInputs, new_cluster_scope, reconcile,
}
use cluster_api_provider_nvi.Cluster.Entry.Permitted.{IsPermitted, reconcile-IsPermitted}
use cluster_api_provider_nvi.Cluster.Entry.Secret.{IsScopeOf, new_cluster_scope_iff}
use cluster_api_provider_nvi.Tests.Fixtures.{kube, cluster}

abbrev pub secret : Dict
secret = ("endpoint", "https://api") ∷ ("orgName", "org") ∷ ("token", "t") ∷ []

abbrev creds : Credentials
creds = record { endpoint = "https://api"; org_name = "org"; token = "t" }

abbrev pub inputs : ClusterInputs
inputs = record {
  get_cluster = found cluster;
  owner = ok true;
  paused = false;
  patch_helper_error = none;
  client = none;
  secrets = λ key. found secret;
}

abbrev pub accepting : Cloud
accepting history c = record { value = none; http = some 204; err = none }

abbrev pub env : Access → Env
env c = record { cloud = accepting; kube = kube; recorder = false }

last_world : ClusterWorld
unfolding reconcile_delete delete_id delete_map delete_entries delete_resource invoke deleted erase
last_world =
    (reconcile_delete (env (authenticated creds))
      (record { object = cluster; calls = []; events = []; metrics = [] })).1

patched : (reconcile env inputs).patched ≡ some last_world
unfolding reconcile last_world new_cluster_scope strip_prefix lookup
patched = refl

called : last_world.calls ≢ []
unfolding last_world
called = ground arith

reconcile-IsPermitted_example : (c : NcxInfraCluster) × IsPermitted env inputs c
reconcile-IsPermitted_example = reconcile-IsPermitted env inputs last_world patched called

new_cluster_scope_iff_example :
    (new_cluster_scope cluster none (λ key. found secret) ≡ ok (authenticated creds))
    ↔ IsScopeOf cluster none (λ key. found secret) (authenticated creds)
new_cluster_scope_iff_example =
    new_cluster_scope_iff cluster none (λ key. found secret) (authenticated creds)
