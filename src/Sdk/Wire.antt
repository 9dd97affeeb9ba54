-- ===== src/Sdk/Wire.antt =====
-- Calls, replies, and the state that a reconcile carries beside its object: the calls made so far,
-- the recorded events and the changed metrics.
use cluster_api_provider_nvi.Common.{ℕ, String, Bool, List, ◌∷◌, [], ◌++◌, Option}
use cluster_api_provider_nvi.Common.{is_nil, not, ◌&&◌}
use cluster_api_provider_nvi.Common.Exec.{Exec, ok}
use cluster_api_provider_nvi.Sdk.Network.{
  VpcCreateRequest, IpBlockCreateRequest, AllocationCreateRequest, SubnetCreateRequest,
  VpcPrefixCreateRequest, VpcPeeringCreateRequest, NsgCreateRequest, Resource, Allocation,
}
use cluster_api_provider_nvi.Sdk.Instances.{
  InstanceCreateRequest, InstanceUpdateRequest, Instance, Site, Tenant, FaultEvent, PhysicalMachine,
  StatusDetail,
}

pub data Call : Type 0 where
  create_vpc : VpcCreateRequest → Call
  create_ip_block : IpBlockCreateRequest → Call
  create_allocation : AllocationCreateRequest → Call
  create_subnet : SubnetCreateRequest → Call
  create_vpc_prefix : VpcPrefixCreateRequest → Call
  create_vpc_peering : VpcPeeringCreateRequest → Call
  create_nsg : NsgCreateRequest → Call
  get_vpc get_ip_block get_subnet get_vpc_prefix get_vpc_peering get_nsg : String → Call
  get_allocation : String → Call
  get_all_allocation get_all_site get_all_instance get_current_tenant : Call
  get_site : String → Call
  delete_vpc delete_ip_block delete_subnet delete_vpc_prefix : String → Call
  delete_vpc_peering delete_nsg delete_allocation delete_instance : String → Call
  create_instance : InstanceCreateRequest → Call
  update_instance : String → InstanceUpdateRequest → Call
  get_instance get_instance_status_history get_machine : String → Call
  list_fault_events : String → String → String → Call

-- What the method returns beside the response and the error.
abbrev pub Answer : Call → Type 0
Answer (create_allocation r) = Allocation
Answer (get_allocation id) = Allocation
Answer get_all_allocation = List Allocation
Answer get_all_site = List Site
Answer get_all_instance = List Instance
Answer get_current_tenant = Tenant
Answer (get_site id) = Site
Answer (delete_vpc id) = Unit
Answer (delete_ip_block id) = Unit
Answer (delete_subnet id) = Unit
Answer (delete_vpc_prefix id) = Unit
Answer (delete_vpc_peering id) = Unit
Answer (delete_nsg id) = Unit
Answer (delete_allocation id) = Unit
Answer (delete_instance id) = Unit
Answer (create_instance r) = Instance
Answer (update_instance id r) = Instance
Answer (get_instance id) = Instance
Answer (get_instance_status_history id) = List StatusDetail
Answer (get_machine id) = PhysicalMachine
Answer (list_fault_events m s v) = List FaultEvent
Answer _ = Resource

-- A Go result `(*T, *http.Response, error)`: the value, the status code and the error's text, each
-- none for nil.
pub record Reply (A : Type 0) : Type 0 where
  pub value : Option A
  pub http : Option ℕ
  pub err : Option String

-- `err == nil && value != nil`
abbrev pub is_found : {A : Type 0} → Reply A → Bool
is_found r = is_nil r.err && not (is_nil r.value)

-- The service: its reply to a call after the calls made before it, oldest first.
abbrev pub Cloud : Type 0
Cloud = (history : List Call) → (c : Call) → Reply (Answer c)

pub record Event : Type 0 where
  pub is_warning : Bool
  pub reason : String
  pub message : String

-- The gauges and counters of internal/metrics/metrics.go that change.
pub data Metric : Type 0 where
  vpc_count_inc : String → Metric
  machines_managed_inc machines_managed_dec machines_unhealthy_inc : Metric
  api_error : String → ℕ → Metric

pub record World (O : Type 0) : Type 0 where
  pub object : O
  pub calls : List Call
  pub events : List Event
  pub metrics : List Metric

module _ {O E : Type 0} where
  unfoldable pub invoke : Cloud → (c : Call) → Exec (World O) E (Reply (Answer c))
  invoke cloud c w = (ok (cloud w.calls c), record w { calls = w.calls ++ c ∷ [] })
