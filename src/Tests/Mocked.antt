-- ===== src/Tests/Mocked.antt =====
-- The cluster controller with the mock of the tests, and the requests of the client's wrapper.
use cluster_api_provider_nvi.Common.{ℕ, true, none, some, [], ◌∷◌, ◌≡◌, ◌≢◌, refl, arith}
use cluster_api_provider_nvi.Common.Dict.{lookup}
use cluster_api_provider_nvi.Common.Exec.{panic}
use cluster_api_provider_nvi.Sdk.{Resource}
use cluster_api_provider_nvi.Sdk.Wire
use cluster_api_provider_nvi.Sdk.Wire.{Call, Reply}
use cluster_api_provider_nvi.Sdk.Mock.{
  MockNcxInfraClient, mock_cloud, mock_http_response, ptr, empty_mock,
}
use cluster_api_provider_nvi.Sdk.Client.{Context, ClientCall, single, list_fault_events, request_of}
use cluster_api_provider_nvi.Sdk.Client.Requests.{call_of, request_of-faithful}
use cluster_api_provider_nvi.Kube.{Env, not_found}
use cluster_api_provider_nvi.Cluster.Scope.{ClusterWorld}
use cluster_api_provider_nvi.Cluster.Vpc.{reconcile_vpc}
use cluster_api_provider_nvi.Cluster.Entry.{Access, ClusterInputs, reconcile}
use cluster_api_provider_nvi.Cluster.Responds.Entry.{IsResponsive, reconcile_mocked-safe}
use cluster_api_provider_nvi.Tests.Fixtures.{kube, cluster, provisioned}
use cluster_api_provider_nvi.Tests.Starting.{inputs}

abbrev made : Reply Resource
made = record { value = ptr (record { id = ptr "new" }); http = mock_http_response 201; err = none }

abbrev gone : Reply Unit
gone = record { value = none; http = mock_http_response 204; err = none }

-- Reads and the allocation are left unset.
abbrev mock : MockNcxInfraClient
mock = record empty_mock {
  create_vpc_func = some (λ history a. made);
  create_ip_block_func = some (λ history a. made);
  create_subnet_func = some (λ history a. made);
  create_vpc_prefix_func = some (λ history a. made);
  create_vpc_peering_func = some (λ history a. made);
  create_nsg_func = some (λ history a. made);
  delete_vpc_func = some (λ history a. gone);
  delete_ip_block_func = some (λ history a. gone);
  delete_subnet_func = some (λ history a. gone);
  delete_vpc_prefix_func = some (λ history a. gone);
  delete_vpc_peering_func = some (λ history a. gone);
  delete_nsg_func = some (λ history a. gone);
  delete_allocation_func = some (λ history a. gone);
}

mock-IsResponsive : IsResponsive mock
mock-IsResponsive = record {
  create_vpc = λ history a e. ground arith;
  create_ip_block = λ history a e. ground arith;
  create_subnet = λ history a e. ground arith;
  create_vpc_prefix = λ history a e. ground arith;
  create_vpc_peering = λ history a e. ground arith;
  create_nsg = λ history a e. ground arith;
  delete_vpc = λ history a e. ground arith;
  delete_ip_block = λ history a e. ground arith;
  delete_subnet = λ history a e. ground arith;
  delete_vpc_prefix = λ history a e. ground arith;
  delete_vpc_peering = λ history a e. ground arith;
  delete_nsg = λ history a e. ground arith;
  delete_allocation = λ history a e. ground arith;
}

abbrev env : Access → Env
env creds = record { cloud = mock_cloud mock; kube = kube; recorder = true }

-- The mock in the hands of the reconciler, and no secret to read.
abbrev injected : ClusterInputs
injected = record inputs { client = some "test-org"; secrets = λ key. not_found }

reconcile_mocked-safe_example : (reconcile env injected).result ≢ panic
reconcile_mocked-safe_example =
    reconcile_mocked-safe env mock "test-org" injected mock-IsResponsive refl refl (ground arith)

abbrev unprovisioned : ClusterWorld
unprovisioned = record {
  object = record cluster { status = record provisioned { vpc_id = "" } };
  calls = [];
  events = [];
  metrics = [];
}

-- With a mock whose functions are all nil, the creation of a VPC reads the status of no response.
unset_panics :
    (reconcile_vpc
      (record { cloud = mock_cloud empty_mock; kube = kube; recorder = true })
      "site-1"
      unprovisioned).0
    ≡ panic
unfolding reconcile_vpc mock_cloud
unset_panics = refl

abbrev asked : ClientCall ℕ
asked = single (Wire.list_fault_events "m1" "" "critical")

abbrev stale : Context
stale = ("token", "old") ∷ []

request_of-faithful_example :
    let r = request_of "token" (record { token = "new" }) stale "org" asked in
    (lookup "token" r.context ≡ some "new") × (r.org ≡ "org") × (call_of r.operation ≡ asked)
request_of-faithful_example =
    request_of-faithful "token" (record { token = "new" }) stale "org" asked

unset_filter :
    (request_of "token" (record { token = "new" }) stale "org" asked).operation
    ≡ list_fault_events
        (record { machine_id = some "m1"; state = none; severity = some "critical" })
unfolding request_of
unset_filter = refl
