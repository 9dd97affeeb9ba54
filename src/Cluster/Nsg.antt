-- ===== src/Cluster/Nsg.antt =====
-- `reconcileNSG` of internal/controller/ncxinfracluster_controller.go. The code calls it only where
-- the spec has a security group, which is passed on here.
use cluster_api_provider_nvi.Common.{
  String, Bool, true, false, map, some, is_empty, ◌<>◌, if◌then◌else◌,
}
use cluster_api_provider_nvi.Common.Text.{to_lower}
use cluster_api_provider_nvi.Common.Exec.{pure, lift, gets, ◌>>=◌, ◌>>◌}
use cluster_api_provider_nvi.Api.Cluster.{NsgSpec, NsgRule}
use cluster_api_provider_nvi.Sdk.{NsgRuleRequest}
use cluster_api_provider_nvi.Sdk.Wire.{invoke, is_found, get_nsg, create_nsg}
use cluster_api_provider_nvi.Kube.{Env}
use cluster_api_provider_nvi.Cluster.Scope.{ClusterExec, nsg_id, set_nsg_id, record_event}
use cluster_api_provider_nvi.Cluster.Respond.{created_id}
use cluster_api_provider_nvi.Cluster.Vpc.{optional}

-- A rule of the resource as a rule of the API: the body of the loop over the rules.
unfoldable pub rule_request : NsgRule → NsgRuleRequest
unfolding to_lower
rule_request r = record {
  name = some r.name;
  direction = to_lower r.direction;
  protocol = to_lower r.protocol;
  action = to_lower r.action;
  source_prefix = if is_empty r.source_cidr then "0.0.0.0/0" else r.source_cidr;
  destination_prefix = "0.0.0.0/0";
  destination_port_range = optional r.port_range;
}

unfoldable pub verify_nsg : Env → ClusterExec Bool
unfolding nsg_id set_nsg_id invoke
verify_nsg env = do
  id ← gets nsg_id
  if is_empty id then pure false else (do
    r ← invoke env.cloud (get_nsg id)
    if is_found r then pure true else (do set_nsg_id ""; pure false))

unfoldable pub make_nsg : Env → String → NsgSpec → ClusterExec (Unit {0})
unfolding rule_request set_nsg_id record_event invoke created_id
make_nsg env site spec = do
  r ← invoke env.cloud (
      create_nsg (record { name = spec.name; site_id = site; rules = map rule_request spec.rules }))
  id ← lift (created_id "failed to create NSG" "NSG ID missing in response" r)
  set_nsg_id id
  record_event env "NSGCreated" ("Successfully created NSG " <> id)

unfoldable pub reconcile_nsg : Env → String → NsgSpec → ClusterExec (Unit {0})
unfolding verify_nsg make_nsg
reconcile_nsg env site spec = do
  present ← verify_nsg env
  if present then pure tt else make_nsg env site spec
