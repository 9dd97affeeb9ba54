-- ===== src/Cluster/Delete.antt =====
-- `reconcileDelete` and `deleteResource` of internal/controller/ncxinfracluster_controller.go. A
-- field of the network status that holds IDs is named by a lens, so the three loops over a map and
-- the five blocks for a single ID are each written once and used in the order of the source.
pub mod Progress
pub mod Stages
pub mod Teardown
pub mod Reordered
pub mod Retry
use cluster_api_provider_nvi.Common.{
  ℕ, String, Bool, true, false, not, ◌||◌, List, [], ◌∷◌, Option, none, some, is_empty, ◌<>◌,
  nat_eq, itoa, if◌then◌else◌,
}
use cluster_api_provider_nvi.Common.Dict.{Dict, erase}
use cluster_api_provider_nvi.Common.Exec.{
  Exec, Outcome, ok, failed, panic, pure, fail, lift, gets, modify, ◌>>=◌, ◌>>◌,
}
use cluster_api_provider_nvi.Api.Meta.{ReconcileResult}
use cluster_api_provider_nvi.Api.Cluster.{NcxInfraClusterStatus, NetworkStatus}
use cluster_api_provider_nvi.Sdk.Wire.{
  Call, Reply, Answer, invoke, delete_vpc, delete_ip_block, delete_subnet, delete_vpc_prefix,
  delete_vpc_peering, delete_nsg, delete_allocation,
}
use cluster_api_provider_nvi.Kube.{Env}
use cluster_api_provider_nvi.Cluster.Scope.{ClusterExec, ClusterWorld, with_finalizers}

abbrev pub cluster_finalizer : String
cluster_finalizer = "ncxinfracluster.infrastructure.cluster.x-k8s.io"

-- The checks of `deleteResource` behind the call: 404 counts as deleted, with an error or without.
unfoldable pub deleted : {A : Type 0} → String → String → Reply A → Outcome String (Unit {0})
deleted kind id r = elim (r.err) [
  | some e ↦ elim (r.http) [
    | none ↦ failed ("failed to delete " <> kind <> " " <> id <> ": " <> e)
    | some code ↦
        if nat_eq code 404
        then ok tt
        else failed ("failed to delete " <> kind <> " " <> id <> ": " <> e)
  ]
  | none ↦ elim (r.http) [
    | none ↦ panic
    | some code ↦
        if nat_eq code 200 || nat_eq code 204 || nat_eq code 404
        then ok tt
        else failed ("failed to delete " <> kind <> " " <> id <> ", status " <> itoa code)
  ]
]

-- `deleteResource`, its method given as the call.
unfoldable pub delete_resource : Env → String → String → Call → ClusterExec (Unit {0})
unfolding deleted invoke
delete_resource env kind id c = do r ← invoke env.cloud c; lift (deleted kind id r)

-- One ID of the status: how it is read, written and deleted.
pub record IdField : Type 0 where
  pub kind : String
  pub get : NcxInfraClusterStatus → String
  pub put : String → NcxInfraClusterStatus → NcxInfraClusterStatus
  pub call : String → Call

-- A map of the status.
pub record MapField : Type 0 where
  pub kind : String
  pub get : NcxInfraClusterStatus → Dict
  pub put : Dict → NcxInfraClusterStatus → NcxInfraClusterStatus
  pub call : String → Call

abbrev pub with_status :
    (NcxInfraClusterStatus → NcxInfraClusterStatus) → ClusterWorld → ClusterWorld
with_status f w = let o = w.object in record w { object = record o { status = f (o.status) } }

-- `if id != "" { if err := deleteResource(id); err != nil { return err }; clear }`
unfoldable pub delete_id : Env → IdField → ClusterExec (Unit {0})
delete_id env f = do
  id ← gets (λ w. f.get w.object.status)
  if is_empty id
      then pure tt
      else (do delete_resource env f.kind id (f.call id); modify (with_status (f.put "")))

-- The loop over the entries that the map had at its start.
unfoldable pub delete_entries : Env → MapField → Dict → ClusterExec (Unit {0})
delete_entries env f [] = pure tt
delete_entries env f ((key, id) ∷ rest) =
    delete_resource env f.kind id (f.call id)
    >> modify (with_status (λ s. f.put (erase key (f.get s)) s))
    >> delete_entries env f rest

unfoldable pub delete_map : Env → MapField → ClusterExec (Unit {0})
unfolding delete_entries
delete_map env f = do entries ← gets (λ w. f.get w.object.status); delete_entries env f entries

abbrev network : (NetworkStatus → NetworkStatus) → NcxInfraClusterStatus → NcxInfraClusterStatus
network f s = record s { network_status = f (s.network_status) }

abbrev pub nsg_field : IdField
nsg_field = record {
  kind = "NSG";
  get = λ s. s.network_status.nsg_id;
  put = λ id. network (λ n. record n { nsg_id = id });
  call = delete_nsg;
}

abbrev pub peering_field : MapField
peering_field = record {
  kind = "VPC peering";
  get = λ s. s.network_status.vpc_peering_ids;
  put = λ m. network (λ n. record n { vpc_peering_ids = m });
  call = delete_vpc_peering;
}

abbrev pub prefix_field : MapField
prefix_field = record {
  kind = "VPC prefix";
  get = λ s. s.network_status.vpc_prefix_ids;
  put = λ m. network (λ n. record n { vpc_prefix_ids = m });
  call = delete_vpc_prefix;
}

abbrev pub subnet_field : MapField
subnet_field = record {
  kind = "subnet";
  get = λ s. s.network_status.subnet_ids;
  put = λ m. network (λ n. record n { subnet_ids = m });
  call = delete_subnet;
}

abbrev pub allocation_field : IdField
allocation_field = record {
  kind = "allocation";
  get = λ s. s.network_status.allocation_id;
  put = λ id. network (λ n. record n { allocation_id = id });
  call = delete_allocation;
}

abbrev pub child_field : IdField
child_field = record {
  kind = "child IP block";
  get = λ s. s.network_status.child_ip_block_id;
  put = λ id. network (λ n. record n { child_ip_block_id = id });
  call = delete_ip_block;
}

abbrev pub parent_field : IdField
parent_field = record {
  kind = "parent IP block";
  get = λ s. s.network_status.ip_block_id;
  put = λ id. network (λ n. record n { ip_block_id = id });
  call = delete_ip_block;
}

abbrev pub vpc_field : IdField
vpc_field = record {
  kind = "VPC";
  get = λ s. s.vpc_id;
  put = λ id s. record s { vpc_id = id };
  call = delete_vpc;
}

-- The resources in the order of `reconcileDelete`.
unfoldable pub delete_all : Env → ClusterExec (Unit {0})
delete_all env = do
  delete_id env nsg_field
  delete_map env peering_field
  delete_map env prefix_field
  delete_map env subnet_field
  delete_id env allocation_field
  delete_id env child_field
  delete_id env parent_field
  delete_id env vpc_field

unfoldable pub reconcile_delete : Env → ClusterExec ReconcileResult
unfolding delete_all
reconcile_delete env = do
  delete_all env
  modify (with_finalizers (λ fs. env.kube.remove_finalizer fs cluster_finalizer))
  pure (record { requeue = false; requeue_after = 0 })
