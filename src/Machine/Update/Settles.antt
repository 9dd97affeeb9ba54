-- ===== src/Machine/Update/Settles.antt =====
-- The updates of internal/controller/ncxinframachine_controller.go come to an end: an instance that shows
-- what was asked for is not updated again.
use cluster_api_provider_nvi.Common.{
  Bool, true, false, not, ◌&&◌, List, [], ◌∷◌, eq_refl, ◌≡◌, refl, ap, ◌∙◌, arith, if◌then◌else◌,
  is_nonempty,
}
use cluster_api_provider_nvi.Common.Dict.{Dict, lookup, NodupKeys}
use cluster_api_provider_nvi.Api.Machine.{NcxInfraMachineSpec}
use cluster_api_provider_nvi.Sdk.{Instance, InstanceUpdateRequest}
use cluster_api_provider_nvi.Machine.Update.{
  string_slices_equal, entries_equal, maps_equal, keys_changed, labels_changed,
  build_update_request,
}
use cluster_api_provider_nvi.Machine.Update.Equal.{string_slices_equal_iff, entries_equal-cons}

-- The instance after the request: a field that the request sets has its value, and the others are as
-- before.
pub record IsApplied (req : InstanceUpdateRequest) (i j : Instance) : Type 0 where
  pub keys :
      j.ssh_key_group_ids
      ≡ (if is_nonempty req.ssh_key_group_ids then req.ssh_key_group_ids else i.ssh_key_group_ids)
  pub labels : j.labels ≡ (if is_nonempty req.labels then req.labels else i.labels)

entries_equal_refl : (m : Dict) → NodupKeys m → entries_equal m m ≡ true
unfolding entries_equal lookup
entries_equal_refl [] h = refl
entries_equal_refl ((k, v) ∷ m) (f, h) =
    let rest = entries_equal_refl m h in
    let step = entries_equal-cons k v m m f in
    let key = eq_refl k in let value = eq_refl v in grind arith

maps_equal_refl : (m : Dict) → NodupKeys m → maps_equal m m ≡ true
unfolding maps_equal
maps_equal_refl m h = let rest = entries_equal_refl m h in ground arith

-- A list that is shown as it was asked for, or as it was where that was enough, is enough.
shown_settled :
    {A : Type 0} (same : List A → List A → Bool) (want have shown : List A) (enough : Bool)
    → same have want ≡ enough
    → same want want ≡ true
    → (let req = if is_nonempty want && not enough then want else [] in
        shown ≡ (if is_nonempty req then req else have))
    → (is_nonempty want && not (same shown want)) ≡ false
shown_settled same [] have shown enough e r h = refl
shown_settled same (x ∷ xs) have shown true e r h = ap (λ l. not (same l (x ∷ xs))) h ∙ ap not e
shown_settled same (x ∷ xs) have shown false e r h = ap (λ l. not (same l (x ∷ xs))) h ∙ ap not r

keys_settled :
    (s : NcxInfraMachineSpec) (i j : Instance)
    → IsApplied (build_update_request s i).0 i j
    → keys_changed s j ≡ false
unfolding build_update_request keys_changed
keys_settled s i j a =
    shown_settled string_slices_equal s.ssh_key_groups i.ssh_key_group_ids j.ssh_key_group_ids
      (string_slices_equal i.ssh_key_group_ids s.ssh_key_groups) refl
      ((string_slices_equal_iff s.ssh_key_groups s.ssh_key_groups).1 refl) a.keys

labels_settled :
    (s : NcxInfraMachineSpec) (i j : Instance)
    → NodupKeys s.labels
    → IsApplied (build_update_request s i).0 i j
    → labels_changed s j ≡ false
unfolding build_update_request labels_changed
labels_settled s i j h a =
    shown_settled maps_equal s.labels i.labels j.labels (maps_equal i.labels s.labels) refl
      (maps_equal_refl s.labels h) a.labels

unchanged_request :
    (s : NcxInfraMachineSpec) (j : Instance)
    → keys_changed s j ≡ false
    → labels_changed s j ≡ false
    → (build_update_request s j).1 ≡ is_nonempty s.dpu_extension_services
unfolding build_update_request
unchanged_request s j k l = rw (k, l) refl

-- Where keys of labels are unique: an instance that shows what the update asked for, and is otherwise as it
-- was, is updated again only if the spec lists DPU extension services, and then always.
pub build_update_request_settled :
    (s : NcxInfraMachineSpec) (i j : Instance)
    → NodupKeys s.labels
    → IsApplied (build_update_request s i).0 i j
    → (build_update_request s j).1 ≡ is_nonempty s.dpu_extension_services
build_update_request_settled s i j h a =
    unchanged_request s j (keys_settled s i j a) (labels_settled s i j h a)
