-- ===== src/Sdk/Client/Service.antt =====
-- The service as a controller sees it through `ncxInfraClient`.
use cluster_api_provider_nvi.Common.{String, List, map}
use cluster_api_provider_nvi.Sdk.Wire
use cluster_api_provider_nvi.Sdk.Wire.{Call, Cloud, Reply}
use cluster_api_provider_nvi.Sdk.Client.{
  Context, Sdk, SdkRequest, Executed, NcxInfraClient, single, request_of,
}

module _ {Batch : Type 0} (sdk : Sdk Batch) (token_key : String) (c : NcxInfraClient)
    (ctx : Context) (org : String) where
  abbrev sent : Call → SdkRequest Batch
  sent call = request_of token_key c ctx org (single call)

  abbrev answered : (history : List Call) (call : Call) → Reply (Executed (sent call).operation)
  answered history call = sdk (map sent history) (sent call)

  -- `Execute` of the request that the method builds.
  unfoldable pub client_cloud : Cloud
  unfolding request_of
  client_cloud history (Wire.create_vpc r) = answered history (Wire.create_vpc r)
  client_cloud history (Wire.create_subnet r) = answered history (Wire.create_subnet r)
  client_cloud history (Wire.create_ip_block r) = answered history (Wire.create_ip_block r)
  client_cloud history (Wire.create_nsg r) = answered history (Wire.create_nsg r)
  client_cloud history (Wire.create_allocation r) = answered history (Wire.create_allocation r)
  client_cloud history (Wire.create_instance r) = answered history (Wire.create_instance r)
  client_cloud history (Wire.create_vpc_prefix r) = answered history (Wire.create_vpc_prefix r)
  client_cloud history (Wire.create_vpc_peering r) = answered history (Wire.create_vpc_peering r)
  client_cloud history (Wire.update_instance id r) = answered history (Wire.update_instance id r)
  client_cloud history (Wire.get_vpc id) = answered history (Wire.get_vpc id)
  client_cloud history (Wire.get_subnet id) = answered history (Wire.get_subnet id)
  client_cloud history (Wire.get_ip_block id) = answered history (Wire.get_ip_block id)
  client_cloud history (Wire.get_nsg id) = answered history (Wire.get_nsg id)
  client_cloud history (Wire.get_allocation id) = answered history (Wire.get_allocation id)
  client_cloud history (Wire.get_instance id) = answered history (Wire.get_instance id)
  client_cloud history (Wire.get_site id) = answered history (Wire.get_site id)
  client_cloud history (Wire.get_instance_status_history id) =
      answered history (Wire.get_instance_status_history id)
  client_cloud history (Wire.get_machine id) = answered history (Wire.get_machine id)
  client_cloud history (Wire.get_vpc_prefix id) = answered history (Wire.get_vpc_prefix id)
  client_cloud history (Wire.get_vpc_peering id) = answered history (Wire.get_vpc_peering id)
  client_cloud history Wire.get_all_allocation = answered history Wire.get_all_allocation
  client_cloud history Wire.get_all_site = answered history Wire.get_all_site
  client_cloud history Wire.get_all_instance = answered history Wire.get_all_instance
  client_cloud history Wire.get_current_tenant = answered history Wire.get_current_tenant
  client_cloud history (Wire.delete_vpc id) = answered history (Wire.delete_vpc id)
  client_cloud history (Wire.delete_subnet id) = answered history (Wire.delete_subnet id)
  client_cloud history (Wire.delete_ip_block id) = answered history (Wire.delete_ip_block id)
  client_cloud history (Wire.delete_nsg id) = answered history (Wire.delete_nsg id)
  client_cloud history (Wire.delete_allocation id) = answered history (Wire.delete_allocation id)
  client_cloud history (Wire.delete_instance id) = answered history (Wire.delete_instance id)
  client_cloud history (Wire.delete_vpc_prefix id) = answered history (Wire.delete_vpc_prefix id)
  client_cloud history (Wire.delete_vpc_peering id) = answered history (Wire.delete_vpc_peering id)
  client_cloud history (Wire.list_fault_events m s v) =
      answered history (Wire.list_fault_events m s v)
