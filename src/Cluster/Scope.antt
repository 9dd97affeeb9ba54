-- ===== src/Cluster/Scope.antt =====
-- The methods of ClusterScope in pkg/scope/cluster.go, on a world whose object is the
-- NcxInfraCluster, and the event helper of the controller.
use cluster_api_provider_nvi.Common.{
  String, Bool, true, false, not, List, [], ◌∷◌, ◌++◌, none, some, is_empty, ◌==◌, ◌<>◌,
  if◌then◌else◌,
}
use cluster_api_provider_nvi.Common.Dict.{Dict, insert}
use cluster_api_provider_nvi.Common.Exec.{
  Exec, Outcome, ok, failed, pure, fail, lift, gets, modify, ◌>>=◌,
}
use cluster_api_provider_nvi.Api.Meta.{Condition}
use cluster_api_provider_nvi.Api.Cluster.{NcxInfraCluster, NetworkStatus}
use cluster_api_provider_nvi.Sdk.{Site}
use cluster_api_provider_nvi.Sdk.Wire.{World, Metric, invoke, Reply, get_all_site}
use cluster_api_provider_nvi.Kube.{Kube, Env}

abbrev pub ClusterWorld : Type 0
ClusterWorld = World NcxInfraCluster

-- An error is its text: the controller only wraps and prints it.
abbrev pub ClusterExec : Type 0 → Type 0
ClusterExec A = Exec ClusterWorld String A

abbrev pub network_of : ClusterWorld → NetworkStatus
network_of w = w.object.status.network_status

-- Writes to the parts of the status.
abbrev pub with_network : (NetworkStatus → NetworkStatus) → ClusterWorld → ClusterWorld
with_network f w =
    let o = w.object in
    let s = o.status in
    record w { object = record o { status = record s { network_status = f (s.network_status) } } }

abbrev pub with_vpc_id : String → ClusterWorld → ClusterWorld
with_vpc_id id w =
    let o = w.object in
    let s = o.status in record w { object = record o { status = record s { vpc_id = id } } }

abbrev pub with_ready : Bool → ClusterWorld → ClusterWorld
with_ready b w =
    let o = w.object in
    let s = o.status in record w { object = record o { status = record s { ready = b } } }

abbrev pub with_finalizers : (List String → List String) → ClusterWorld → ClusterWorld
with_finalizers f w =
    let o = w.object in
    let m = o.meta in
    record w { object = record o { meta = record m { finalizers = f (m.finalizers) } } }

-- `conditions.Set`
abbrev pub with_condition : Kube → Condition → ClusterWorld → ClusterWorld
with_condition k c w =
    let o = w.object in
    let s = o.status in
    record w {
      object = record o { status = record s { conditions = k.set_condition c s.conditions } };
    }

unfoldable pub vpc_id : ClusterWorld → String
vpc_id w = w.object.status.vpc_id

unfoldable pub set_vpc_id : String → ClusterExec (Unit {0})
set_vpc_id id = modify (with_vpc_id id)

unfoldable pub is_ready : ClusterWorld → Bool
is_ready w = w.object.status.ready

unfoldable pub set_ready : Bool → ClusterExec (Unit {0})
set_ready b = modify (with_ready b)

unfoldable pub tenant_id : ClusterWorld → String
tenant_id w = w.object.spec.tenant_id

unfoldable pub subnet_ids : ClusterWorld → Dict
subnet_ids w = (network_of w).subnet_ids

unfoldable pub set_subnet_id : String → String → ClusterExec (Unit {0})
set_subnet_id name id =
    modify (with_network (λ n. record n { subnet_ids = insert name id n.subnet_ids }))

unfoldable pub nsg_id : ClusterWorld → String
nsg_id w = (network_of w).nsg_id

unfoldable pub set_nsg_id : String → ClusterExec (Unit {0})
set_nsg_id id = modify (with_network (λ n. record n { nsg_id = id }))

unfoldable pub ip_block_id : ClusterWorld → String
ip_block_id w = (network_of w).ip_block_id

unfoldable pub set_ip_block_id : String → ClusterExec (Unit {0})
set_ip_block_id id = modify (with_network (λ n. record n { ip_block_id = id }))

unfoldable pub allocation_id : ClusterWorld → String
allocation_id w = (network_of w).allocation_id

unfoldable pub set_allocation_id : String → ClusterExec (Unit {0})
set_allocation_id id = modify (with_network (λ n. record n { allocation_id = id }))

unfoldable pub child_ip_block_id : ClusterWorld → String
child_ip_block_id w = (network_of w).child_ip_block_id

unfoldable pub set_child_ip_block_id : String → ClusterExec (Unit {0})
set_child_ip_block_id id = modify (with_network (λ n. record n { child_ip_block_id = id }))

unfoldable pub vpc_prefix_ids : ClusterWorld → Dict
vpc_prefix_ids w = (network_of w).vpc_prefix_ids

unfoldable pub set_vpc_prefix_id : String → String → ClusterExec (Unit {0})
set_vpc_prefix_id name id =
    modify (with_network (λ n. record n { vpc_prefix_ids = insert name id n.vpc_prefix_ids }))

unfoldable pub vpc_peering_ids : ClusterWorld → Dict
vpc_peering_ids w = (network_of w).vpc_peering_ids

unfoldable pub set_vpc_peering_id : String → String → ClusterExec (Unit {0})
set_vpc_peering_id peer id =
    modify (with_network (λ n. record n { vpc_peering_ids = insert peer id n.vpc_peering_ids }))

-- The loop of `SiteID` over the listed sites. `%q` prints a name without special characters as here.
unfoldable pub find_site : String → List Site → Outcome String String
find_site wanted [] = failed ("site \"" <> wanted <> "\" not found")
find_site wanted (site ∷ sites) = elim (site.name) [
  | none ↦ find_site wanted sites
  | some name ↦ elim (name == wanted) [
    | false ↦ find_site wanted sites
    | true ↦ elim (site.id) [
      | none ↦ failed ("site \"" <> wanted <> "\" found but has no ID")
      | some id ↦ ok id
    ]
  ]
]

abbrev listed_sites : Reply (List Site) → List Site
listed_sites r = elim (r.value) [ none ↦ [] | some sites ↦ sites ]

-- The name resolved through the service.
unfoldable pub site_id_by_name : Env → String → ClusterExec String
unfolding find_site invoke
site_id_by_name env name = do
  r ← invoke env.cloud get_all_site
  elim (r.err) [
    | some e ↦ fail ("failed to list sites: " <> e)
    | none ↦ lift (find_site name (listed_sites r))
  ]

-- `SiteID`
unfoldable pub site_id : Env → ClusterExec String
unfolding site_id_by_name
site_id env = do
  ref ← gets (λ w. w.object.spec.site_ref)
  if not (is_empty ref.id)
      then pure ref.id
      else if is_empty ref.name
      then fail "site reference is empty"
      else site_id_by_name env ref.name

-- The controller's `recordEvent`: a Normal event, if a Recorder is set.
unfoldable pub record_event : Env → String → String → ClusterExec (Unit {0})
record_event env reason message = modify (λ w.
    if env.recorder
    then record w {
      events = w.events ++ (record { is_warning = false; reason = reason; message = message }) ∷ [];
    }
    else w)

-- `Inc()` on a metric.
unfoldable pub count_metric : Metric → ClusterExec (Unit {0})
count_metric m = modify (λ w. record w { metrics = w.metrics ++ m ∷ [] })
