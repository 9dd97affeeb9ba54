-- ===== src/Cluster/Vpc.antt =====
-- `reconcileVPC` of internal/controller/ncxinfracluster_controller.go.
pub mod Lookup
use cluster_api_provider_nvi.Common.{
  ℕ, String, Bool, true, false, not, List, [], Option, none, some, is_empty, ◌<>◌, if◌then◌else◌,
}
use cluster_api_provider_nvi.Common.Exec.{pure, lift, gets, ◌>>=◌, ◌>>◌}
use cluster_api_provider_nvi.Api.Cluster.{VpcSpec}
use cluster_api_provider_nvi.Sdk.{VpcCreateRequest}
use cluster_api_provider_nvi.Sdk.Wire.{invoke, is_found, get_vpc, create_vpc, vpc_count_inc}
use cluster_api_provider_nvi.Kube.{Env}
use cluster_api_provider_nvi.Cluster.Scope.{
  ClusterExec, vpc_id, set_vpc_id, record_event, count_metric,
}
use cluster_api_provider_nvi.Cluster.Respond.{created_id}

-- A text for the API, absent if it is empty.
abbrev pub optional : String → Option String
optional s = if is_empty s then none else some s

unfoldable pub vpc_request : VpcSpec → String → VpcCreateRequest
vpc_request spec site = record {
  name = spec.name;
  site_id = site;
  network_virtualization_type = optional spec.network_virtualization_type;
  nvlink_logical_partition_id = optional spec.nvlink_logical_partition_id;
  vni = spec.vni;
  description = optional spec.description;
  labels = spec.labels;
}

-- Whether the VPC of the status is still there; if not, the status forgets it.
unfoldable pub verify_vpc : Env → ClusterExec Bool
unfolding vpc_id set_vpc_id invoke
verify_vpc env = do
  id ← gets vpc_id
  if is_empty id then pure false else (do
    r ← invoke env.cloud (get_vpc id)
    if is_found r then pure true else (do set_vpc_id ""; pure false))

unfoldable pub make_vpc : Env → String → ClusterExec (Unit {0})
unfolding vpc_request set_vpc_id record_event count_metric invoke created_id
make_vpc env site = do
  spec ← gets (λ w. w.object.spec.vpc)
  r ← invoke env.cloud (create_vpc (vpc_request spec site))
  id ← lift (created_id "failed to create VPC" "VPC ID missing in response" r)
  set_vpc_id id
  record_event env "VPCCreated" ("Successfully created VPC " <> id)
  count_metric (vpc_count_inc site)

unfoldable pub reconcile_vpc : Env → String → ClusterExec (Unit {0})
unfolding verify_vpc make_vpc
reconcile_vpc env site = do present ← verify_vpc env; if present then pure tt else make_vpc env site
