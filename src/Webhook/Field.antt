-- ===== src/Webhook/Field.antt =====
-- The errors that the validators of api/v1beta1 collect, as k8s.io/apimachinery's `field` package
-- names them, and when a collection is empty.
use cluster_api_provider_nvi.Common.{
  ℕ, suc, String, Bool, true, false, List, [], ◌∷◌, ◌++◌, ◌≡◌, refl, ◌↔◌, if◌then◌else◌, arith, All,
}

pub data PathElement : Type 0 where
  child : String → PathElement
  index : ℕ → PathElement

pub data FieldErrorType : Type 0 where
  required forbidden invalid not_supported : FieldErrorType

-- An error with its path, outermost element first, and its text.
pub record FieldError : Type 0 where
  pub error_type : FieldErrorType
  pub path : List PathElement
  pub detail : String

-- `if b { allErrs = append(allErrs, e) }`
abbrev pub report : Bool → FieldError → List FieldError
report b e = if b then e ∷ [] else []

pub report-eq-nil_iff : (b : Bool) (e : FieldError) → (report b e ≡ []) ↔ (b ≡ false)
report-eq-nil_iff true e = ground arith
report-eq-nil_iff false e = (λ _. refl, λ _. refl)

pub append-eq-nil_iff : (xs ys : List FieldError) → (xs ++ ys ≡ []) ↔ ((xs ≡ []) × (ys ≡ []))
append-eq-nil_iff [] ys = (λ e. (refl, e), λ h. h.1)
append-eq-nil_iff (x ∷ xs) ys = (λ e. absurd (cc), λ h. absurd (cc (h.0)))

-- The errors of several parts of a validator, in order.
unfoldable pub concat : List (List FieldError) → List FieldError
concat [] = []
concat (xs ∷ xss) = xs ++ concat xss

pub concat-eq-nil_iff : (xss : List (List FieldError)) → (concat xss ≡ []) ↔ All (λ xs. xs ≡ []) xss
unfolding concat
concat-eq-nil_iff [] = (λ _. tt, λ _. refl)
concat-eq-nil_iff (xs ∷ xss) =
    let (to, from) = append-eq-nil_iff xs (concat xss) in
    let (to_rest, from_rest) = concat-eq-nil_iff xss in
    ((λ e. ((to e).0, to_rest (to e).1)), (λ a. from (a.0, from_rest a.1)))

module _ {A : Type 0} where
  -- `for i, x := range xs`, from an index on.
  abbrev pub report_each : (ℕ → A → List FieldError) → ℕ → List A → List FieldError
  report_each f i [] = []
  report_each f i (x ∷ xs) = f i x ++ report_each f (suc i) xs

  pub report_each-eq-nil_iff :
      (f : ℕ → A → List FieldError) (P : A → Type 0)
      → ((i : ℕ) (x : A) → (f i x ≡ []) ↔ P x)
      → (i : ℕ) (xs : List A) → (report_each f i xs ≡ []) ↔ All P xs
  report_each-eq-nil_iff f P h i [] = (λ _. tt, λ _. refl)
  report_each-eq-nil_iff f P h i (x ∷ xs) =
      let (to, from) = append-eq-nil_iff (f i x) (report_each f (suc i) xs) in
      let (to_rest, from_rest) = report_each-eq-nil_iff f P h (suc i) xs in
      ((λ e. ((h i x).0 (to e).0, to_rest (to e).1)), (λ a. from ((h i x).1 a.0, from_rest a.1)))
