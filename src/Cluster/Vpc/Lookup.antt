-- ===== src/Cluster/Vpc/Lookup.antt =====
-- The calls of `reconcileVPC` in internal/controller/ncxinfracluster_controller.go.
use cluster_api_provider_nvi.Common.{
  String, List, [], ◌∷◌, ◌++◌, ◌≡◌, arith, append_assoc, is_empty, if◌then◌else◌,
}
use cluster_api_provider_nvi.Sdk.Wire.{Call, is_found, get_vpc, create_vpc}
use cluster_api_provider_nvi.Kube.{Env}
use cluster_api_provider_nvi.Cluster.Scope.{ClusterWorld}
use cluster_api_provider_nvi.Cluster.Vpc.{reconcile_vpc, vpc_request}

-- The calls that the VPC takes: one to create it where none is recorded; else one to read it, and one
-- to create it unless the reply has a VPC and no error.
unfoldable pub expected_calls : Env → String → ClusterWorld → List Call
expected_calls env site w =
    let id = w.object.status.vpc_id in
    let creation = create_vpc (vpc_request w.object.spec.vpc site) in
    if is_empty id
    then creation ∷ []
    else if is_found (env.cloud w.calls (get_vpc id))
    then get_vpc id ∷ []
    else get_vpc id ∷ creation ∷ []

-- The VPC is created exactly where none is recorded or where the read did not return it, for whatever
-- reason: a transient error of the service also leads to a second VPC.
pub reconcile_vpc-calls :
    (env : Env) (site : String) (w : ClusterWorld)
    → (reconcile_vpc env site w).1.calls ≡ w.calls ++ expected_calls env site w
unfolding reconcile_vpc expected_calls
reconcile_vpc-calls env site w = grind (arith, append_assoc)
