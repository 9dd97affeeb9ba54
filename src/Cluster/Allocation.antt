-- ===== src/Cluster/Allocation.antt =====
-- `ensureIPBlockAndAllocation`, `extractChildIPBlockID` and `findExistingAllocation` of
-- internal/controller/ncxinfracluster_controller.go.
use cluster_api_provider_nvi.Common.{
  listed, ℕ, String, Bool, false, not, ◌||◌, List, [], ◌∷◌, Option, none, some, is_empty, ◌==◌,
  ◌<>◌, nat_eq, if◌then◌else◌,
}
use cluster_api_provider_nvi.Common.Exec.{pure, fail, lift, gets, ◌>>=◌, ◌>>◌}
use cluster_api_provider_nvi.Sdk.{
  IpBlockCreateRequest, AllocationCreateRequest, AllocationConstraint, Allocation,
}
use cluster_api_provider_nvi.Sdk.Wire.{
  Reply, invoke, is_found, get_ip_block, create_ip_block, create_allocation, get_allocation,
  get_all_allocation,
}
use cluster_api_provider_nvi.Kube.{Env}
use cluster_api_provider_nvi.Cluster.Scope.{
  ClusterExec, tenant_id, child_ip_block_id, set_child_ip_block_id, allocation_id,
  set_allocation_id, ip_block_id, set_ip_block_id,
}
use cluster_api_provider_nvi.Cluster.Respond.{created_id}

abbrev resource_type_ip_block : String
resource_type_ip_block = "IPBlock"

unfoldable pub ip_block_request : String → String → IpBlockCreateRequest
ip_block_request cluster site = record {
  name = cluster <> "-ipblock";
  prefix = "10.0.0.0";
  prefix_length = 16;
  protocol_version = "IPv4";
  routing_type = "DatacenterOnly";
  site_id = site;
}

unfoldable pub allocation_request : String → String → String → String → AllocationCreateRequest
allocation_request name tenant site parent = record {
  name = name;
  tenant_id = tenant;
  site_id = site;
  allocation_constraints =
      (record {
        resource_type = some resource_type_ip_block;
        resource_type_id = parent;
        constraint_type = "OnDemand";
        constraint_value = 24;
      })
      ∷ [];
}

-- `ac.ResourceType != nil && *ac.ResourceType == resourceTypeIPBlock`
abbrev is_ip_block : AllocationConstraint → Bool
is_ip_block c = elim (c.resource_type) [ none ↦ false | some t ↦ t == resource_type_ip_block ]

-- The ID that the loop of `extractChildIPBlockID` stops at.
unfoldable pub derived_id : List AllocationConstraint → Option String
derived_id [] = none
derived_id (c ∷ cs) =
    let rest = derived_id cs in
    if is_ip_block c then elim (c.derived_resource_id) [ none ↦ rest | some id ↦ some id ] else rest

unfoldable pub extract_child_ip_block_id : Allocation → ClusterExec (Unit {0})
unfolding derived_id set_child_ip_block_id
extract_child_ip_block_id a = elim (derived_id a.allocation_constraints) [
  | none ↦ pure tt
  | some id ↦ set_child_ip_block_id id
]

abbrev has_name : String → Allocation → Bool
has_name name a = elim (a.name) [ none ↦ false | some n ↦ n == name ]

unfoldable pub find_allocation : String → List Allocation → Option Allocation
find_allocation name [] = none
find_allocation name (a ∷ more) =
    let rest = find_allocation name more in if has_name name a then some a else rest

-- `findExistingAllocation`
unfoldable pub find_existing_allocation : Env → String → ClusterExec (Option Allocation)
unfolding find_allocation invoke
find_existing_allocation env name = do
  r ← invoke env.cloud get_all_allocation
  elim (r.err) [
    | some e ↦ fail ("failed to find existing allocation: " <> e)
    | none ↦ pure (find_allocation name (listed r.value))
  ]

-- An allocation with an ID is kept; without one the given step follows.
unfoldable pub keep_allocation : Option Allocation → ClusterExec (Unit {0}) → ClusterExec (Unit {0})
unfolding set_allocation_id extract_child_ip_block_id
keep_allocation none otherwise = otherwise
keep_allocation (some a) otherwise = elim (a.id) [
  | none ↦ otherwise
  | some id ↦ do set_allocation_id id; extract_child_ip_block_id a
]

abbrev fail_if : Option String → String → ClusterExec (Unit {0})
fail_if none text = pure tt
fail_if (some e) text = fail (text <> e)

abbrev has_status : ℕ → Option ℕ → Bool
has_status code none = false
has_status code (some c) = nat_eq c code

-- The answer to the create call, by its HTTP status first.
unfoldable pub receive_allocation : Env → String → Reply Allocation → ClusterExec (Unit {0})
unfolding keep_allocation find_existing_allocation
receive_allocation env name r =
    if has_status 201 r.http
    then keep_allocation r.value
        (fail_if r.err "allocation created but response parsing failed, will retry: ")
    else if has_status 409 r.http
    then (do
      found ← find_existing_allocation env name
      keep_allocation found (fail "allocation conflict but could not find existing allocation"))
    else fail_if r.err "failed to create allocation: "

-- The child IP block of the status, if the service still has it; if not, the status forgets it.
unfoldable pub verify_child_ip_block : Env → ClusterExec (Option String)
unfolding child_ip_block_id set_child_ip_block_id set_allocation_id invoke
verify_child_ip_block env = do
  child ← gets child_ip_block_id
  if is_empty child then pure none else (do
    r ← invoke env.cloud (get_ip_block child)
    if is_found r
        then pure (some child)
        else (do set_child_ip_block_id ""; set_allocation_id ""; pure none))

-- Step 1, the parent IP block.
unfoldable pub ensure_parent_ip_block : Env → String → ClusterExec String
unfolding ip_block_request ip_block_id set_ip_block_id invoke created_id
ensure_parent_ip_block env site = do
  parent ← gets ip_block_id
  if not (is_empty parent) then pure parent else (do
    name ← gets (λ w. w.object.meta.name)
    r ← invoke env.cloud (create_ip_block (ip_block_request name site))
    id ← lift (created_id "failed to create IP block" "IP block ID missing in response" r)
    set_ip_block_id id
    pure id)

-- Step 2, the allocation.
unfoldable pub ensure_allocation : Env → String → String → ClusterExec (Unit {0})
unfolding allocation_request allocation_id tenant_id receive_allocation invoke
ensure_allocation env site parent = do
  allocation ← gets allocation_id
  if not (is_empty allocation) then pure tt else (do
    cluster ← gets (λ w. w.object.meta.name)
    tenant ← gets tenant_id
    let name = cluster <> "-allocation"
    r ← invoke env.cloud (create_allocation (allocation_request name tenant site parent))
    receive_allocation env name r)

abbrev extract_if_some : Option Allocation → ClusterExec (Unit {0})
extract_if_some none = pure tt
extract_if_some (some a) = extract_child_ip_block_id a

-- The query for an allocation whose child is not known yet.
unfoldable pub query_child_ip_block : Env → ClusterExec (Unit {0})
unfolding allocation_id child_ip_block_id extract_child_ip_block_id invoke
query_child_ip_block env = do
  allocation ← gets allocation_id
  child ← gets child_ip_block_id
  if is_empty allocation || not (is_empty child) then pure tt else (do
    r ← invoke env.cloud (get_allocation allocation)
    elim (r.err) [
      | some e ↦ fail ("failed to get allocation " <> allocation <> ": " <> e)
      | none ↦ extract_if_some r.value
    ])

-- What follows where the child IP block is not there.
unfoldable pub build_child_ip_block : Env → String → ClusterExec String
unfolding ensure_parent_ip_block ensure_allocation query_child_ip_block child_ip_block_id
build_child_ip_block env site = do
  parent ← ensure_parent_ip_block env site
  ensure_allocation env site parent
  query_child_ip_block env
  child ← gets child_ip_block_id
  if is_empty child
      then fail "child IP block ID not found after allocation creation"
      else pure child

unfoldable pub ensure_ip_block_and_allocation : Env → String → ClusterExec String
unfolding verify_child_ip_block build_child_ip_block
ensure_ip_block_and_allocation env site = do
  present ← verify_child_ip_block env
  elim present [ some child ↦ pure child | none ↦ build_child_ip_block env site ]
