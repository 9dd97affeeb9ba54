-- ===== src/Machine/Update/Equal.antt =====
-- `stringSlicesEqual` and `mapsEqual` of internal/controller/ncxinframachine_controller.go.
use cluster_api_provider_nvi.Common.{
  String, true, ◌&&◌, List, [], ◌∷◌, none, some, ◌==◌, eq_iff, ◌≡◌, ◌↔◌, refl, arith, ap,
}
use cluster_api_provider_nvi.Common.Dict.{Dict, lookup}
use cluster_api_provider_nvi.Machine.Update.{
  elements_equal, string_slices_equal, value_at, entries_equal, maps_equal,
}

string_slices_equal-cons :
    (x y : String) (xs ys : List String)
    → string_slices_equal (x ∷ xs) (y ∷ ys) ≡ (x == y && string_slices_equal xs ys)
unfolding string_slices_equal elements_equal
string_slices_equal-cons x y xs ys = grind arith

-- Two slices count as equal exactly if they are.
pub string_slices_equal_iff : (a b : List String) → (string_slices_equal a b ≡ true) ↔ (a ≡ b)
unfolding string_slices_equal elements_equal
string_slices_equal_iff [] [] = (λ e. refl, λ e. refl)
string_slices_equal_iff [] (y ∷ ys) = (λ e. absurd (ground arith), λ e. absurd (ground arith))
string_slices_equal_iff (x ∷ xs) [] = (λ e. absurd (ground arith), λ e. absurd (ground arith))
string_slices_equal_iff (x ∷ xs) (y ∷ ys) =
    let step = string_slices_equal-cons x y xs ys in
    let rest = string_slices_equal_iff xs ys in
    let first = eq_iff x y in (λ h. grind arith, λ h. grind arith)

-- An entry under another key is not seen.
pub entries_equal-cons :
    (other v : String) (a b : Dict)
    → lookup other a ≡ none
    → entries_equal a ((other, v) ∷ b) ≡ entries_equal a b
unfolding entries_equal lookup
entries_equal-cons other v [] b absent = refl
entries_equal-cons other v ((k, x) ∷ a) b absent =
    let step : lookup other a ≡ none → entries_equal a ((other, v) ∷ b) ≡ entries_equal a b =
      entries_equal-cons other v a b in
    let p = eq_iff other k in let q = eq_iff k other in grind arith

-- A label with an empty value that is replaced by any other label is not noticed.
pub maps_equal-replaced :
    (k other v : String) (a b : Dict)
    → maps_equal a b ≡ true
    → lookup other a ≡ none
    → lookup k ((other, v) ∷ b) ≡ none
    → maps_equal ((k, "") ∷ a) ((other, v) ∷ b) ≡ true
unfolding maps_equal entries_equal
maps_equal-replaced k other v a b e absent missing =
    let step = entries_equal-cons other v a b absent in
    let empty : value_at ((other, v) ∷ b) k ≡ "" =
      ap (λ o. elim o [ none ↦ "" | some v ↦ v ]) missing in
    let same = (eq_iff (value_at ((other, v) ∷ b) k) "").1 empty in grind arith
