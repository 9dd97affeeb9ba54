-- ===== src/Sdk/Client.antt =====
-- The wrapper `ncxInfraClient` of pkg/scope/cluster.go: each method of the client interface puts the
-- access token into the context and sends one request of the SDK, whose builders an `Operation` stands
-- for. The SDK is a parameter, as is the type of a batch request, which no controller builds.
pub mod Requests
pub mod Service
use cluster_api_provider_nvi.Common.{
  String, not, List, ◌∷◌, Option, none, some, is_empty, if◌then◌else◌,
}
use cluster_api_provider_nvi.Common.Dict.{Dict}
use cluster_api_provider_nvi.Sdk.Network.{
  VpcCreateRequest, IpBlockCreateRequest, AllocationCreateRequest, SubnetCreateRequest,
  VpcPrefixCreateRequest, VpcPeeringCreateRequest, NsgCreateRequest, Resource, Allocation,
}
use cluster_api_provider_nvi.Sdk.Instances.{
  InstanceCreateRequest, InstanceUpdateRequest, Instance, Site, Tenant, FaultEvent, PhysicalMachine,
  StatusDetail,
}
use cluster_api_provider_nvi.Sdk.Wire
use cluster_api_provider_nvi.Sdk.Wire.{Call, Reply}

-- `context.WithValue` puts a value in front, and `ctx.Value` finds the first one of the key.
abbrev pub Context : Type 0
Context = Dict

-- The optional filters of the request builder of `ListFaultEvents`.
pub record FaultEventQuery : Type 0 where
  pub machine_id : Option String
  pub state : Option String
  pub severity : Option String

-- What is built before `Execute`: the method of the SDK with its path, body and filters.
pub data Operation (Batch : Type 0) : Type 0 where
  create_vpc : VpcCreateRequest → Operation Batch
  create_subnet : SubnetCreateRequest → Operation Batch
  create_ip_block : IpBlockCreateRequest → Operation Batch
  create_nsg : NsgCreateRequest → Operation Batch
  create_allocation : AllocationCreateRequest → Operation Batch
  create_instance : InstanceCreateRequest → Operation Batch
  batch_create_instance : Batch → Operation Batch
  create_vpc_prefix : VpcPrefixCreateRequest → Operation Batch
  create_vpc_peering : VpcPeeringCreateRequest → Operation Batch
  update_instance : String → InstanceUpdateRequest → Operation Batch
  get_vpc get_subnet get_ip_block get_nsg get_allocation : String → Operation Batch
  get_instance get_site get_instance_status_history get_machine : String → Operation Batch
  get_vpc_prefix get_vpc_peering : String → Operation Batch
  get_all_allocation get_all_site get_all_instance get_current_tenant : Operation Batch
  delete_vpc delete_subnet delete_ip_block delete_nsg delete_allocation : String → Operation Batch
  delete_instance delete_vpc_prefix delete_vpc_peering : String → Operation Batch
  list_fault_events : FaultEventQuery → Operation Batch

-- What `Execute` returns beside the response and the error.
abbrev pub Executed : {Batch : Type 0} → Operation Batch → Type 0
Executed (create_allocation r) = Allocation
Executed (create_instance r) = Instance
Executed (batch_create_instance r) = List Instance
Executed (update_instance id r) = Instance
Executed (get_allocation id) = Allocation
Executed (get_instance id) = Instance
Executed (get_site id) = Site
Executed (get_instance_status_history id) = List StatusDetail
Executed (get_machine id) = PhysicalMachine
Executed get_all_allocation = List Allocation
Executed get_all_site = List Site
Executed get_all_instance = List Instance
Executed get_current_tenant = Tenant
Executed (delete_vpc id) = Unit
Executed (delete_subnet id) = Unit
Executed (delete_ip_block id) = Unit
Executed (delete_nsg id) = Unit
Executed (delete_allocation id) = Unit
Executed (delete_instance id) = Unit
Executed (delete_vpc_prefix id) = Unit
Executed (delete_vpc_peering id) = Unit
Executed (list_fault_events q) = List FaultEvent
Executed _ = Resource

pub record SdkRequest (Batch : Type 0) : Type 0 where
  pub context : Context
  pub org : String
  pub operation : Operation Batch

-- The methods of the interface: those that a controller calls, and the batch.
pub data ClientCall (Batch : Type 0) : Type 0 where
  single : Call → ClientCall Batch
  batch : Batch → ClientCall Batch

pub record NcxInfraClient : Type 0 where
  pub token : String

-- `ListFaultEvents` up to `Execute`: a filter is set only if its text is not empty.
unfoldable pub fault_event_query : String → String → String → FaultEventQuery
fault_event_query machine state severity =
    let all : FaultEventQuery = record { machine_id = none; state = none; severity = none } in
    let on_machine : FaultEventQuery =
      if not (is_empty machine) then record all { machine_id = some machine } else all in
    let in_state : FaultEventQuery =
      if not (is_empty state) then record on_machine { state = some state } else on_machine in
    if not (is_empty severity) then record in_state { severity = some severity } else in_state

-- `authCtx`, the key of the SDK given.
unfoldable pub auth_ctx : String → NcxInfraClient → Context → Context
auth_ctx access_token c ctx = (access_token, c.token) ∷ ctx

module _ {Batch : Type 0} where
  -- The request that each method builds.
  unfoldable pub operation_of : ClientCall Batch → Operation Batch
  unfolding fault_event_query
  operation_of (single (Wire.create_vpc r)) = create_vpc r
  operation_of (single (Wire.create_subnet r)) = create_subnet r
  operation_of (single (Wire.create_ip_block r)) = create_ip_block r
  operation_of (single (Wire.create_nsg r)) = create_nsg r
  operation_of (single (Wire.create_allocation r)) = create_allocation r
  operation_of (single (Wire.create_instance r)) = create_instance r
  operation_of (single (Wire.create_vpc_prefix r)) = create_vpc_prefix r
  operation_of (single (Wire.create_vpc_peering r)) = create_vpc_peering r
  operation_of (single (Wire.update_instance id r)) = update_instance id r
  operation_of (single (Wire.get_vpc id)) = get_vpc id
  operation_of (single (Wire.get_subnet id)) = get_subnet id
  operation_of (single (Wire.get_ip_block id)) = get_ip_block id
  operation_of (single (Wire.get_nsg id)) = get_nsg id
  operation_of (single (Wire.get_allocation id)) = get_allocation id
  operation_of (single (Wire.get_instance id)) = get_instance id
  operation_of (single (Wire.get_site id)) = get_site id
  operation_of (single (Wire.get_instance_status_history id)) = get_instance_status_history id
  operation_of (single (Wire.get_machine id)) = get_machine id
  operation_of (single (Wire.get_vpc_prefix id)) = get_vpc_prefix id
  operation_of (single (Wire.get_vpc_peering id)) = get_vpc_peering id
  operation_of (single Wire.get_all_allocation) = get_all_allocation
  operation_of (single Wire.get_all_site) = get_all_site
  operation_of (single Wire.get_all_instance) = get_all_instance
  operation_of (single Wire.get_current_tenant) = get_current_tenant
  operation_of (single (Wire.delete_vpc id)) = delete_vpc id
  operation_of (single (Wire.delete_subnet id)) = delete_subnet id
  operation_of (single (Wire.delete_ip_block id)) = delete_ip_block id
  operation_of (single (Wire.delete_nsg id)) = delete_nsg id
  operation_of (single (Wire.delete_allocation id)) = delete_allocation id
  operation_of (single (Wire.delete_instance id)) = delete_instance id
  operation_of (single (Wire.delete_vpc_prefix id)) = delete_vpc_prefix id
  operation_of (single (Wire.delete_vpc_peering id)) = delete_vpc_peering id
  operation_of (single (Wire.list_fault_events machine state severity)) =
      list_fault_events (fault_event_query machine state severity)
  operation_of (batch r) = batch_create_instance r

  unfoldable pub request_of :
      String → NcxInfraClient → Context → String → ClientCall Batch → SdkRequest Batch
  unfolding auth_ctx operation_of
  request_of access_token c ctx org call = record {
    context = auth_ctx access_token c ctx;
    org = org;
    operation = operation_of call;
  }

-- The SDK: its answer to a request after the requests before it.
abbrev pub Sdk : Type 0 → Type 0
Sdk Batch = List (SdkRequest Batch) → (r : SdkRequest Batch) → Reply (Executed r.operation)
