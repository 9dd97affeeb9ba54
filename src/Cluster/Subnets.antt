-- ===== src/Cluster/Subnets.antt =====
-- `reconcileSubnets`, `reconcileVPCPrefixes` and `reconcileVPCPeerings` of
-- internal/controller/ncxinfracluster_controller.go. The map that a loop holds is the status map.
use cluster_api_provider_nvi.Common.{
  String, Bool, true, false, none, some, is_empty, ◌<>◌, if◌then◌else◌,
}
use cluster_api_provider_nvi.Common.Dict.{lookup, erase}
use cluster_api_provider_nvi.Common.Exec.{
  Outcome, ok, failed, panic, pure, fail, lift, gets, modify, ◌>>=◌, ◌>>◌, for_each,
}
use cluster_api_provider_nvi.Api.Cluster.{SubnetSpec, VpcPrefixSpec, VpcPeeringSpec}
use cluster_api_provider_nvi.Sdk.Wire.{
  invoke, is_found, get_subnet, create_subnet, get_vpc_prefix, create_vpc_prefix, get_vpc_peering,
  create_vpc_peering,
}
use cluster_api_provider_nvi.Kube.{Env}
use cluster_api_provider_nvi.Cidr.{parse_cidr}
use cluster_api_provider_nvi.Cluster.Scope.{
  ClusterExec, with_network, vpc_id, subnet_ids, set_subnet_id, vpc_prefix_ids, set_vpc_prefix_id,
  vpc_peering_ids, set_vpc_peering_id, record_event,
}
use cluster_api_provider_nvi.Cluster.Respond.{created_id}
use cluster_api_provider_nvi.Cluster.Allocation.{ensure_ip_block_and_allocation}

-- `fmt.Errorf("text: %w", err)`
abbrev pub wrap : {A : Type 0} → String → Outcome String A → Outcome String A
wrap text (ok a) = ok a
wrap text (failed e) = failed (text <> ": " <> e)
wrap text panic = panic

abbrev pub wrap_exec : {A : Type 0} → String → ClusterExec A → ClusterExec A
wrap_exec text m w = let (r, w') = m w in (wrap text r, w')

-- Whether the recorded subnet is still there; a lost one is deleted from the map.
unfoldable pub verify_subnet : Env → String → ClusterExec Bool
unfolding subnet_ids invoke
verify_subnet env name = do
  ids ← gets subnet_ids
  elim (lookup name ids) [
    | none ↦ pure false
    | some existing ↦ do
      r ← invoke env.cloud (get_subnet existing)
      if is_found r then pure true else (do
        modify (with_network (λ n. record n { subnet_ids = erase name n.subnet_ids }))
        pure false)
  ]

unfoldable pub make_subnet : Env → String → String → SubnetSpec → ClusterExec (Unit {0})
unfolding set_subnet_id record_event invoke created_id
make_subnet env vpc child spec = do
  ones ← lift (wrap ("failed to parse CIDR for subnet " <> spec.name) (parse_cidr spec.cidr))
  r ← invoke env.cloud (
      create_subnet (record {
        name = spec.name;
        vpc_id = vpc;
        ipv4_block_id = some child;
        prefix_length = ones;
      }))
  id ← lift (
      created_id ("failed to create subnet " <> spec.name)
        ("subnet ID missing in response for " <> spec.name) r)
  set_subnet_id spec.name id
  record_event env "SubnetCreated"
      ("Successfully created subnet " <> spec.name <> " (" <> id <> ")")

-- The body of the loop.
unfoldable pub reconcile_subnet : Env → String → String → SubnetSpec → ClusterExec (Unit {0})
unfolding verify_subnet make_subnet
reconcile_subnet env vpc child spec = do
  present ← verify_subnet env spec.name
  if present then pure tt else make_subnet env vpc child spec

unfoldable pub reconcile_subnets : Env → String → ClusterExec (Unit {0})
unfolding reconcile_subnet vpc_id for_each
reconcile_subnets env site = do
  vpc ← gets vpc_id
  if is_empty vpc then fail "VPC ID is empty" else (do
    child ←
        wrap_exec "failed to ensure IP block and allocation"
          (ensure_ip_block_and_allocation env site)
    specs ← gets (λ w. w.object.spec.subnets)
    for_each (reconcile_subnet env vpc child) specs)

unfoldable pub verify_vpc_prefix : Env → String → ClusterExec Bool
unfolding vpc_prefix_ids invoke
verify_vpc_prefix env name = do
  ids ← gets vpc_prefix_ids
  elim (lookup name ids) [
    | none ↦ pure false
    | some existing ↦ do
      r ← invoke env.cloud (get_vpc_prefix existing)
      if is_found r then pure true else (do
        modify (with_network (λ n. record n { vpc_prefix_ids = erase name n.vpc_prefix_ids }))
        pure false)
  ]

unfoldable pub make_vpc_prefix : Env → String → String → VpcPrefixSpec → ClusterExec (Unit {0})
unfolding set_vpc_prefix_id record_event invoke created_id
make_vpc_prefix env vpc child spec = do
  ones ← lift (wrap ("failed to parse CIDR for VPC prefix " <> spec.name) (parse_cidr spec.cidr))
  r ← invoke env.cloud (
      create_vpc_prefix
        (record { name = spec.name; vpc_id = vpc; ip_block_id = some child; prefix_length = ones }))
  id ← lift (
      created_id ("failed to create VPC prefix " <> spec.name)
        ("VPC prefix ID missing in response for " <> spec.name) r)
  set_vpc_prefix_id spec.name id
  record_event env "VPCPrefixCreated"
      ("Successfully created VPC Prefix " <> spec.name <> " (" <> id <> ")")

unfoldable pub reconcile_vpc_prefix : Env → String → String → VpcPrefixSpec → ClusterExec (Unit {0})
unfolding verify_vpc_prefix make_vpc_prefix
reconcile_vpc_prefix env vpc child spec = do
  present ← verify_vpc_prefix env spec.name
  if present then pure tt else make_vpc_prefix env vpc child spec

unfoldable pub reconcile_vpc_prefixes : Env → String → ClusterExec (Unit {0})
unfolding reconcile_vpc_prefix vpc_id for_each
reconcile_vpc_prefixes env site = do
  vpc ← gets vpc_id
  if is_empty vpc then fail "VPC ID is empty" else (do
    child ←
        wrap_exec "failed to ensure IP block and allocation"
          (ensure_ip_block_and_allocation env site)
    specs ← gets (λ w. w.object.spec.vpc_prefixes)
    for_each (reconcile_vpc_prefix env vpc child) specs)

unfoldable pub verify_vpc_peering : Env → String → ClusterExec Bool
unfolding vpc_peering_ids invoke
verify_vpc_peering env peer = do
  ids ← gets vpc_peering_ids
  elim (lookup peer ids) [
    | none ↦ pure false
    | some existing ↦ do
      r ← invoke env.cloud (get_vpc_peering existing)
      if is_found r then pure true else (do
        modify (with_network (λ n. record n { vpc_peering_ids = erase peer n.vpc_peering_ids }))
        pure false)
  ]

unfoldable pub make_vpc_peering : Env → String → String → String → ClusterExec (Unit {0})
unfolding set_vpc_peering_id record_event invoke created_id
make_vpc_peering env site vpc peer = do
  r ←
      invoke env.cloud
        (create_vpc_peering (record { vpc1_id = vpc; vpc2_id = peer; site_id = site }))
  id ← lift (
      created_id ("failed to create VPC peering with " <> peer)
        ("VPC peering ID missing in response for peer " <> peer) r)
  set_vpc_peering_id peer id
  record_event env "VPCPeeringCreated"
      ("Successfully created VPC Peering " <> id <> " with peer " <> peer)

unfoldable pub reconcile_vpc_peering :
    Env → String → String → VpcPeeringSpec → ClusterExec (Unit {0})
unfolding verify_vpc_peering make_vpc_peering
reconcile_vpc_peering env site vpc spec = do
  present ← verify_vpc_peering env spec.peer_vpc_id
  if present then pure tt else make_vpc_peering env site vpc spec.peer_vpc_id

unfoldable pub reconcile_vpc_peerings : Env → String → ClusterExec (Unit {0})
unfolding reconcile_vpc_peering vpc_id for_each
reconcile_vpc_peerings env site = do
  vpc ← gets vpc_id
  if is_empty vpc then fail "VPC ID is empty" else (do
    specs ← gets (λ w. w.object.spec.vpc_peerings)
    for_each (reconcile_vpc_peering env site vpc) specs)
