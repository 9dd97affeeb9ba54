-- ===== src/Machine/Update.antt =====
-- `buildUpdateRequest`, `stringSlicesEqual` and `mapsEqual` of
-- internal/controller/ncxinframachine_controller.go.
pub mod Equal
pub mod Settles
use cluster_api_provider_nvi.Common.{
  is_nonempty, String, Bool, true, not, ◌&&◌, ◌||◌, List, [], ◌∷◌, map, none, some, length, nat_eq,
  ◌==◌, if◌then◌else◌,
}
use cluster_api_provider_nvi.Common.Dict.{Dict, lookup}
use cluster_api_provider_nvi.Api.Machine.{NcxInfraMachineSpec}
use cluster_api_provider_nvi.Sdk.{Instance, InstanceUpdateRequest}
use cluster_api_provider_nvi.Machine.Request.{dpu_request}

-- `b[k]`, the empty text for a missing key.
abbrev pub value_at : Dict → String → String
value_at m k = elim (lookup k m) [ none ↦ "" | some v ↦ v ]

-- The loop of `stringSlicesEqual` over the indices, on slices of one length.
unfoldable pub elements_equal : List String → List String → Bool
elements_equal [] ys = true
elements_equal (x ∷ xs) [] = true
elements_equal (x ∷ xs) (y ∷ ys) = x == y && elements_equal xs ys

unfoldable pub string_slices_equal : List String → List String → Bool
unfolding elements_equal
string_slices_equal a b = nat_eq (length a) (length b) && elements_equal a b

-- The loop of `mapsEqual` over the entries of the first map.
unfoldable pub entries_equal : Dict → Dict → Bool
entries_equal [] b = true
entries_equal ((k, v) ∷ a) b = value_at b k == v && entries_equal a b

unfoldable pub maps_equal : Dict → Dict → Bool
unfolding entries_equal
maps_equal a b = nat_eq (length a) (length b) && entries_equal a b

-- The three tests, in order.
unfoldable pub keys_changed : NcxInfraMachineSpec → Instance → Bool
unfolding string_slices_equal
keys_changed s i =
    is_nonempty s.ssh_key_groups && not (string_slices_equal i.ssh_key_group_ids s.ssh_key_groups)

unfoldable pub labels_changed : NcxInfraMachineSpec → Instance → Bool
unfolding maps_equal
labels_changed s i = is_nonempty s.labels && not (maps_equal i.labels s.labels)

unfoldable pub build_update_request : NcxInfraMachineSpec → Instance → InstanceUpdateRequest × Bool
unfolding keys_changed labels_changed dpu_request
build_update_request s i = (
  record {
    ssh_key_group_ids = if keys_changed s i then s.ssh_key_groups else [];
    labels = if labels_changed s i then s.labels else [];
    dpu_extension_service_deployments = map dpu_request s.dpu_extension_services;
  },
  keys_changed s i || labels_changed s i || is_nonempty s.dpu_extension_services,
)
