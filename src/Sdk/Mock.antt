-- ===== src/Sdk/Mock.antt =====
-- `MockNcxInfraClient` of internal/controller/testutil/mock_client.go, the client that the tests of the
-- controllers inject. A function that is set may close over what was called before, which is given
-- to it here. `BatchCreateInstance`, which no controller calls, is left out.
use cluster_api_provider_nvi.Common.{ℕ, String, List, Option, none, some}
use cluster_api_provider_nvi.Sdk.Network.{
  VpcCreateRequest, IpBlockCreateRequest, AllocationCreateRequest, SubnetCreateRequest,
  VpcPrefixCreateRequest, VpcPeeringCreateRequest, NsgCreateRequest, Resource, Allocation,
}
use cluster_api_provider_nvi.Sdk.Instances.{
  InstanceCreateRequest, InstanceUpdateRequest, Instance, Site, Tenant, FaultEvent, PhysicalMachine,
  StatusDetail,
}
use cluster_api_provider_nvi.Sdk.Wire
use cluster_api_provider_nvi.Sdk.Wire.{Call, Cloud, Reply}

-- `func(...) (*T, *http.Response, error)` as a field, none for nil.
abbrev pub Mocked : Type 0 → Type 0
Mocked F = Option (List Call → F)

pub record MockNcxInfraClient : Type 0 where
  pub create_vpc_func : Mocked (VpcCreateRequest → Reply Resource)
  pub get_vpc_func : Mocked (String → Reply Resource)
  pub delete_vpc_func : Mocked (String → Reply Unit)
  pub create_subnet_func : Mocked (SubnetCreateRequest → Reply Resource)
  pub get_subnet_func : Mocked (String → Reply Resource)
  pub delete_subnet_func : Mocked (String → Reply Unit)
  pub create_instance_func : Mocked (InstanceCreateRequest → Reply Instance)
  pub get_instance_func : Mocked (String → Reply Instance)
  pub delete_instance_func : Mocked (String → Reply Unit)
  pub create_nsg_func : Mocked (NsgCreateRequest → Reply Resource)
  pub get_nsg_func : Mocked (String → Reply Resource)
  pub delete_nsg_func : Mocked (String → Reply Unit)
  pub create_allocation_func : Mocked (AllocationCreateRequest → Reply Allocation)
  pub get_allocation_func : Mocked (String → Reply Allocation)
  pub get_all_allocation_func : Mocked (Reply (List Allocation))
  pub delete_allocation_func : Mocked (String → Reply Unit)
  pub create_ip_block_func : Mocked (IpBlockCreateRequest → Reply Resource)
  pub get_ip_block_func : Mocked (String → Reply Resource)
  pub delete_ip_block_func : Mocked (String → Reply Unit)
  pub get_all_site_func : Mocked (Reply (List Site))
  pub get_all_instance_func : Mocked (Reply (List Instance))
  pub get_site_func : Mocked (String → Reply Site)
  pub get_current_tenant_func : Mocked (Reply Tenant)
  pub update_instance_func : Mocked (String → InstanceUpdateRequest → Reply Instance)
  pub get_instance_status_history_func : Mocked (String → Reply (List StatusDetail))
  pub get_machine_func : Mocked (String → Reply PhysicalMachine)
  pub list_fault_events_func : Mocked (String → String → String → Reply (List FaultEvent))
  pub create_vpc_peering_func : Mocked (VpcPeeringCreateRequest → Reply Resource)
  pub get_vpc_peering_func : Mocked (String → Reply Resource)
  pub delete_vpc_peering_func : Mocked (String → Reply Unit)
  pub create_vpc_prefix_func : Mocked (VpcPrefixCreateRequest → Reply Resource)
  pub get_vpc_prefix_func : Mocked (String → Reply Resource)
  pub delete_vpc_prefix_func : Mocked (String → Reply Unit)

-- `nil, nil, nil`
abbrev pub unset : {A : Type 0} → Reply A
unset = record { value = none; http = none; err = none }

-- `if f != nil { return f(ctx, org, ...) }; return nil, nil, nil`
abbrev pub call_mocked : {F A : Type 0} → Mocked F → List Call → (F → Reply A) → Reply A
call_mocked none history apply = unset
call_mocked (some f) history apply = apply (f history)

-- The methods of the mock.
unfoldable pub mock_cloud : MockNcxInfraClient → Cloud
mock_cloud m history (Wire.create_vpc req) = call_mocked m.create_vpc_func history (λ f. f req)
mock_cloud m history (Wire.get_vpc id) = call_mocked m.get_vpc_func history (λ f. f id)
mock_cloud m history (Wire.delete_vpc id) = call_mocked m.delete_vpc_func history (λ f. f id)
mock_cloud m history (Wire.create_subnet req) =
    call_mocked m.create_subnet_func history (λ f. f req)
mock_cloud m history (Wire.get_subnet id) = call_mocked m.get_subnet_func history (λ f. f id)
mock_cloud m history (Wire.delete_subnet id) = call_mocked m.delete_subnet_func history (λ f. f id)
mock_cloud m history (Wire.create_instance req) =
    call_mocked m.create_instance_func history (λ f. f req)
mock_cloud m history (Wire.get_instance id) = call_mocked m.get_instance_func history (λ f. f id)
mock_cloud m history (Wire.delete_instance id) =
    call_mocked m.delete_instance_func history (λ f. f id)
mock_cloud m history (Wire.create_nsg req) = call_mocked m.create_nsg_func history (λ f. f req)
mock_cloud m history (Wire.get_nsg id) = call_mocked m.get_nsg_func history (λ f. f id)
mock_cloud m history (Wire.delete_nsg id) = call_mocked m.delete_nsg_func history (λ f. f id)
mock_cloud m history (Wire.create_allocation req) =
    call_mocked m.create_allocation_func history (λ f. f req)
mock_cloud m history (Wire.get_allocation id) =
    call_mocked m.get_allocation_func history (λ f. f id)
mock_cloud m history Wire.get_all_allocation =
    call_mocked m.get_all_allocation_func history (λ f. f)
mock_cloud m history (Wire.delete_allocation id) =
    call_mocked m.delete_allocation_func history (λ f. f id)
mock_cloud m history (Wire.create_ip_block req) =
    call_mocked m.create_ip_block_func history (λ f. f req)
mock_cloud m history (Wire.get_ip_block id) = call_mocked m.get_ip_block_func history (λ f. f id)
mock_cloud m history (Wire.delete_ip_block id) =
    call_mocked m.delete_ip_block_func history (λ f. f id)
mock_cloud m history Wire.get_all_site = call_mocked m.get_all_site_func history (λ f. f)
mock_cloud m history Wire.get_all_instance = call_mocked m.get_all_instance_func history (λ f. f)
mock_cloud m history (Wire.get_site id) = call_mocked m.get_site_func history (λ f. f id)
mock_cloud m history Wire.get_current_tenant =
    call_mocked m.get_current_tenant_func history (λ f. f)
mock_cloud m history (Wire.update_instance id req) =
    call_mocked m.update_instance_func history (λ f. f id req)
mock_cloud m history (Wire.get_instance_status_history id) =
    call_mocked m.get_instance_status_history_func history (λ f. f id)
mock_cloud m history (Wire.get_machine id) = call_mocked m.get_machine_func history (λ f. f id)
mock_cloud m history (Wire.list_fault_events machine state severity) =
    call_mocked m.list_fault_events_func history (λ f. f machine state severity)
mock_cloud m history (Wire.create_vpc_peering req) =
    call_mocked m.create_vpc_peering_func history (λ f. f req)
mock_cloud m history (Wire.get_vpc_peering id) =
    call_mocked m.get_vpc_peering_func history (λ f. f id)
mock_cloud m history (Wire.delete_vpc_peering id) =
    call_mocked m.delete_vpc_peering_func history (λ f. f id)
mock_cloud m history (Wire.create_vpc_prefix req) =
    call_mocked m.create_vpc_prefix_func history (λ f. f req)
mock_cloud m history (Wire.get_vpc_prefix id) =
    call_mocked m.get_vpc_prefix_func history (λ f. f id)
mock_cloud m history (Wire.delete_vpc_prefix id) =
    call_mocked m.delete_vpc_prefix_func history (λ f. f id)

-- `MockHTTPResponse`
abbrev pub mock_http_response : ℕ → Option ℕ
mock_http_response status_code = some status_code

-- `Ptr`
abbrev pub ptr : {A : Type 0} → A → Option A
ptr v = some v

-- The mock whose functions are all nil.
abbrev pub empty_mock : MockNcxInfraClient
empty_mock = record {
  create_vpc_func = none;
  get_vpc_func = none;
  delete_vpc_func = none;
  create_subnet_func = none;
  get_subnet_func = none;
  delete_subnet_func = none;
  create_instance_func = none;
  get_instance_func = none;
  delete_instance_func = none;
  create_nsg_func = none;
  get_nsg_func = none;
  delete_nsg_func = none;
  create_allocation_func = none;
  get_allocation_func = none;
  get_all_allocation_func = none;
  delete_allocation_func = none;
  create_ip_block_func = none;
  get_ip_block_func = none;
  delete_ip_block_func = none;
  get_all_site_func = none;
  get_all_instance_func = none;
  get_site_func = none;
  get_current_tenant_func = none;
  update_instance_func = none;
  get_instance_status_history_func = none;
  get_machine_func = none;
  list_fault_events_func = none;
  create_vpc_peering_func = none;
  get_vpc_peering_func = none;
  delete_vpc_peering_func = none;
  create_vpc_prefix_func = none;
  get_vpc_prefix_func = none;
  delete_vpc_prefix_func = none;
}
