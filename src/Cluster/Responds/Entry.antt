-- ===== src/Cluster/Responds/Entry.antt =====
-- `Reconcile` of internal/controller/ncxinfracluster_controller.go and nil responses, before any service
-- and before the mock of internal/controller/testutil/mock_client.go.
use cluster_api_provider_nvi.Common.{List, [], Option, none, some, ◌≡◌, ◌≢◌, refl, arith}
use cluster_api_provider_nvi.Common.Exec.{Outcome, ok, failed, panic}
use cluster_api_provider_nvi.Common.Dict.{Dict}
use cluster_api_provider_nvi.Common.{String}
use cluster_api_provider_nvi.Api.Cluster.{NcxInfraCluster}
use cluster_api_provider_nvi.Sdk.Wire
use cluster_api_provider_nvi.Sdk.Wire.{Call, Reply}
use cluster_api_provider_nvi.Sdk.Mock.{Mocked, MockNcxInfraClient, call_mocked, mock_cloud}
use cluster_api_provider_nvi.Kube.{Env, Fetched}
use cluster_api_provider_nvi.Cluster.Entry.{
  Access, provided, ClusterInputs, new_cluster_scope, dispatch, with_owner, with_cluster, reconcile,
}
use mathlib.Core.Path.{subst}
use cluster_api_provider_nvi.Cluster.Responds.{HasReadResponses}
use cluster_api_provider_nvi.Cluster.Responds.Provisioning.{normal-IsSafe}
use cluster_api_provider_nvi.Cluster.Responds.Deletion.{delete-IsSafe}

new_cluster_scope-safe :
    (c : NcxInfraCluster) (client : Option String) (secrets : String × String → Fetched Dict)
    → new_cluster_scope c client secrets ≢ panic
unfolding new_cluster_scope
new_cluster_scope-safe c client secrets = ground arith

module _ (env : Access → Env) where
  dispatch-safe :
      (c : NcxInfraCluster) (r : Outcome String Access)
      → r ≢ panic
      → ((access : Access) → r ≡ ok access → HasReadResponses (env access).cloud)
      → (dispatch env c r).result ≢ panic
  unfolding dispatch
  dispatch-safe c (ok access) s h = ground (
    arith,
    (normal-IsSafe (env access) (h access refl)).at
        (record { object = c; calls = []; events = []; metrics = [] }),
    (delete-IsSafe (env access) (h access refl)).at
        (record { object = c; calls = []; events = []; metrics = [] }),
  )
  dispatch-safe c (failed e) s h = ground arith
  dispatch-safe c panic s h = ground arith

  module _ (i : ClusterInputs)
      (h : (c : NcxInfraCluster) (access : Access)
        → new_cluster_scope c i.client i.secrets ≡ ok access
        → HasReadResponses (env access).cloud) where
    with_owner-safe : (c : NcxInfraCluster) → (with_owner env i c).result ≢ panic
    unfolding with_owner
    with_owner-safe c = ground (
      arith,
      dispatch-safe c (new_cluster_scope c i.client i.secrets)
          (new_cluster_scope-safe c i.client i.secrets) (h c),
    )

    with_cluster-safe :
        (c : NcxInfraCluster) → i.owner ≢ panic → (with_cluster env i c).result ≢ panic
    unfolding with_cluster
    with_cluster-safe c o = ground (arith, with_owner-safe c)

    reconcile-safe : i.owner ≢ panic → (reconcile env i).result ≢ panic
    unfolding reconcile
    reconcile-safe o = grind (arith, with_cluster-safe)

-- The function is set, and answers with a response where it answers with no error.
abbrev pub IsResponding : {A B : Type 0} → Mocked (A → Reply B) → Type 0
IsResponding none = ⊥
IsResponding {A} (some f) =
    (history : List Call) (a : A) → (f history a).err ≡ none → (f history a).http ≢ none

-- So are all functions whose response a reconcile of a cluster reads; all others may be nil.
pub record IsResponsive (m : MockNcxInfraClient) : Type 0 where
  pub create_vpc : IsResponding m.create_vpc_func
  pub create_ip_block : IsResponding m.create_ip_block_func
  pub create_subnet : IsResponding m.create_subnet_func
  pub create_vpc_prefix : IsResponding m.create_vpc_prefix_func
  pub create_vpc_peering : IsResponding m.create_vpc_peering_func
  pub create_nsg : IsResponding m.create_nsg_func
  pub delete_vpc : IsResponding m.delete_vpc_func
  pub delete_ip_block : IsResponding m.delete_ip_block_func
  pub delete_subnet : IsResponding m.delete_subnet_func
  pub delete_vpc_prefix : IsResponding m.delete_vpc_prefix_func
  pub delete_vpc_peering : IsResponding m.delete_vpc_peering_func
  pub delete_nsg : IsResponding m.delete_nsg_func
  pub delete_allocation : IsResponding m.delete_allocation_func

call_mocked-http :
    {A B : Type 0} (o : Mocked (A → Reply B)) (history : List Call) (a : A)
    → IsResponding o
    → (call_mocked o history (λ f. f a)).err ≡ none
    → (call_mocked o history (λ f. f a)).http ≢ none
call_mocked-http none history a r = absurd r
call_mocked-http (some f) history a r = r history a

mock_cloud-HasReadResponses :
    {m : MockNcxInfraClient} → IsResponsive m → HasReadResponses (mock_cloud m)
unfolding mock_cloud
mock_cloud-HasReadResponses {m} r history (Wire.create_vpc req) e =
    call_mocked-http m.create_vpc_func history req r.create_vpc
mock_cloud-HasReadResponses {m} r history (Wire.create_ip_block req) e =
    call_mocked-http m.create_ip_block_func history req r.create_ip_block
mock_cloud-HasReadResponses {m} r history (Wire.create_subnet req) e =
    call_mocked-http m.create_subnet_func history req r.create_subnet
mock_cloud-HasReadResponses {m} r history (Wire.create_vpc_prefix req) e =
    call_mocked-http m.create_vpc_prefix_func history req r.create_vpc_prefix
mock_cloud-HasReadResponses {m} r history (Wire.create_vpc_peering req) e =
    call_mocked-http m.create_vpc_peering_func history req r.create_vpc_peering
mock_cloud-HasReadResponses {m} r history (Wire.create_nsg req) e =
    call_mocked-http m.create_nsg_func history req r.create_nsg
mock_cloud-HasReadResponses {m} r history (Wire.delete_vpc id) e =
    call_mocked-http m.delete_vpc_func history id r.delete_vpc
mock_cloud-HasReadResponses {m} r history (Wire.delete_ip_block id) e =
    call_mocked-http m.delete_ip_block_func history id r.delete_ip_block
mock_cloud-HasReadResponses {m} r history (Wire.delete_subnet id) e =
    call_mocked-http m.delete_subnet_func history id r.delete_subnet
mock_cloud-HasReadResponses {m} r history (Wire.delete_vpc_prefix id) e =
    call_mocked-http m.delete_vpc_prefix_func history id r.delete_vpc_prefix
mock_cloud-HasReadResponses {m} r history (Wire.delete_vpc_peering id) e =
    call_mocked-http m.delete_vpc_peering_func history id r.delete_vpc_peering
mock_cloud-HasReadResponses {m} r history (Wire.delete_nsg id) e =
    call_mocked-http m.delete_nsg_func history id r.delete_nsg
mock_cloud-HasReadResponses {m} r history (Wire.delete_allocation id) e =
    call_mocked-http m.delete_allocation_func history id r.delete_allocation
mock_cloud-HasReadResponses {m} r history _ e = cc

provided_scope :
    (c : NcxInfraCluster) (client : Option String) (secrets : String × String → Fetched Dict)
    (org : String) (access : Access)
    → client ≡ some org
    → new_cluster_scope c client secrets ≡ ok access
    → provided org ≡ access
unfolding new_cluster_scope
provided_scope c client secrets org access given e = ground arith

-- A reconcile of a cluster into which a mock is injected whose functions for creations, but that of an
-- allocation, and for deletions are set and answer with a response where there is no error: it never
-- dereferences nil, whatever else is set, the API server answers or the cluster is like, as long as the
-- search of the owner does not.
pub reconcile_mocked-safe :
    (env : Access → Env) (m : MockNcxInfraClient) (org : String) (i : ClusterInputs)
    → IsResponsive m
    → i.client ≡ some org
    → (env (provided org)).cloud ≡ mock_cloud m
    → i.owner ≢ panic
    → (reconcile env i).result ≢ panic
reconcile_mocked-safe env m org i r given same o =
    let responds : HasReadResponses (env (provided org)).cloud =
      rw same (mock_cloud-HasReadResponses r) in
    reconcile-safe env i
      (λ c access e.
        subst (λ a. HasReadResponses (env a).cloud)
          (provided_scope c i.client i.secrets org access given e) responds)
      o
