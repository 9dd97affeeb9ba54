-- ===== src/Sdk/Client/Requests.antt =====
-- What the requests of `ncxInfraClient` tell the service.
use cluster_api_provider_nvi.Common.{String, some, text_of, ◌≡◌, refl, arith, is_empty_iff, eq_refl}
use cluster_api_provider_nvi.Common.Dict.{lookup}
use cluster_api_provider_nvi.Sdk.Wire
use cluster_api_provider_nvi.Sdk.Client.{
  Context, Operation, ClientCall, single, batch, NcxInfraClient, operation_of, request_of,
  batch_create_instance, list_fault_events, create_vpc, create_subnet, create_ip_block, create_nsg,
  create_allocation, create_instance, create_vpc_prefix, create_vpc_peering, update_instance,
  get_vpc, get_subnet, get_ip_block, get_nsg, get_allocation, get_instance, get_site,
  get_instance_status_history, get_machine, get_vpc_prefix, get_vpc_peering, get_all_allocation,
  get_all_site, get_all_instance, get_current_tenant, delete_vpc, delete_subnet, delete_ip_block,
  delete_nsg, delete_allocation, delete_instance, delete_vpc_prefix, delete_vpc_peering,
}

module _ {Batch : Type 0} where
  -- What the service reads off a request.
  abbrev pub call_of : Operation Batch → ClientCall Batch
  call_of (create_vpc r) = single (Wire.create_vpc r)
  call_of (create_subnet r) = single (Wire.create_subnet r)
  call_of (create_ip_block r) = single (Wire.create_ip_block r)
  call_of (create_nsg r) = single (Wire.create_nsg r)
  call_of (create_allocation r) = single (Wire.create_allocation r)
  call_of (create_instance r) = single (Wire.create_instance r)
  call_of (create_vpc_prefix r) = single (Wire.create_vpc_prefix r)
  call_of (create_vpc_peering r) = single (Wire.create_vpc_peering r)
  call_of (update_instance id r) = single (Wire.update_instance id r)
  call_of (get_vpc id) = single (Wire.get_vpc id)
  call_of (get_subnet id) = single (Wire.get_subnet id)
  call_of (get_ip_block id) = single (Wire.get_ip_block id)
  call_of (get_nsg id) = single (Wire.get_nsg id)
  call_of (get_allocation id) = single (Wire.get_allocation id)
  call_of (get_instance id) = single (Wire.get_instance id)
  call_of (get_site id) = single (Wire.get_site id)
  call_of (get_instance_status_history id) = single (Wire.get_instance_status_history id)
  call_of (get_machine id) = single (Wire.get_machine id)
  call_of (get_vpc_prefix id) = single (Wire.get_vpc_prefix id)
  call_of (get_vpc_peering id) = single (Wire.get_vpc_peering id)
  call_of get_all_allocation = single Wire.get_all_allocation
  call_of get_all_site = single Wire.get_all_site
  call_of get_all_instance = single Wire.get_all_instance
  call_of get_current_tenant = single Wire.get_current_tenant
  call_of (delete_vpc id) = single (Wire.delete_vpc id)
  call_of (delete_subnet id) = single (Wire.delete_subnet id)
  call_of (delete_ip_block id) = single (Wire.delete_ip_block id)
  call_of (delete_nsg id) = single (Wire.delete_nsg id)
  call_of (delete_allocation id) = single (Wire.delete_allocation id)
  call_of (delete_instance id) = single (Wire.delete_instance id)
  call_of (delete_vpc_prefix id) = single (Wire.delete_vpc_prefix id)
  call_of (delete_vpc_peering id) = single (Wire.delete_vpc_peering id)
  call_of (batch_create_instance r) = batch r
  call_of (list_fault_events q) =
      single (Wire.list_fault_events (text_of q.machine_id) (text_of q.state) (text_of q.severity))

  call_of-operation_of : (c : ClientCall Batch) → call_of (operation_of c) ≡ c
  unfolding operation_of
  call_of-operation_of (single (Wire.create_vpc r)) = refl
  call_of-operation_of (single (Wire.create_subnet r)) = refl
  call_of-operation_of (single (Wire.create_ip_block r)) = refl
  call_of-operation_of (single (Wire.create_nsg r)) = refl
  call_of-operation_of (single (Wire.create_allocation r)) = refl
  call_of-operation_of (single (Wire.create_instance r)) = refl
  call_of-operation_of (single (Wire.create_vpc_prefix r)) = refl
  call_of-operation_of (single (Wire.create_vpc_peering r)) = refl
  call_of-operation_of (single (Wire.update_instance id r)) = refl
  call_of-operation_of (single (Wire.get_vpc id)) = refl
  call_of-operation_of (single (Wire.get_subnet id)) = refl
  call_of-operation_of (single (Wire.get_ip_block id)) = refl
  call_of-operation_of (single (Wire.get_nsg id)) = refl
  call_of-operation_of (single (Wire.get_allocation id)) = refl
  call_of-operation_of (single (Wire.get_instance id)) = refl
  call_of-operation_of (single (Wire.get_site id)) = refl
  call_of-operation_of (single (Wire.get_instance_status_history id)) = refl
  call_of-operation_of (single (Wire.get_machine id)) = refl
  call_of-operation_of (single (Wire.get_vpc_prefix id)) = refl
  call_of-operation_of (single (Wire.get_vpc_peering id)) = refl
  call_of-operation_of (single Wire.get_all_allocation) = refl
  call_of-operation_of (single Wire.get_all_site) = refl
  call_of-operation_of (single Wire.get_all_instance) = refl
  call_of-operation_of (single Wire.get_current_tenant) = refl
  call_of-operation_of (single (Wire.delete_vpc id)) = refl
  call_of-operation_of (single (Wire.delete_subnet id)) = refl
  call_of-operation_of (single (Wire.delete_ip_block id)) = refl
  call_of-operation_of (single (Wire.delete_nsg id)) = refl
  call_of-operation_of (single (Wire.delete_allocation id)) = refl
  call_of-operation_of (single (Wire.delete_instance id)) = refl
  call_of-operation_of (single (Wire.delete_vpc_prefix id)) = refl
  call_of-operation_of (single (Wire.delete_vpc_peering id)) = refl
  call_of-operation_of (single (Wire.list_fault_events m s v)) =
      ground (arith, is_empty_iff m, is_empty_iff s, is_empty_iff v)
  call_of-operation_of (batch r) = refl

  -- Whatever token the context held, a request carries the one of the client, and is for the given
  -- organisation; which method was called with which arguments can be read off it.
  pub request_of-faithful :
      (access_token : String) (c : NcxInfraClient) (ctx : Context) (org : String)
      (call : ClientCall Batch)
      → let r = request_of access_token c ctx org call in
        (lookup access_token r.context ≡ some c.token)
        × (r.org ≡ org)
        × (call_of r.operation ≡ call)
  unfolding request_of lookup
  request_of-faithful access_token c ctx org call =
      (ground (arith, eq_refl access_token), refl, call_of-operation_of call)
