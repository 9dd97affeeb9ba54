-- ===== src/ApiError/Classes.antt =====
-- What ClassifyAPIError of pkg/scope/errors.go answers for each response.
use cluster_api_provider_nvi.Common.{ℕ, String, true, false, Option, none, some, ◌≡◌, ◌↔◌, ◌||◌}
use cluster_api_provider_nvi.Common.{◌≤◌, ◌<◌, nat_eq, arith, if◌then◌else◌}
use cluster_api_provider_nvi.Common.{refl}
use cluster_api_provider_nvi.ApiError.{
  ApiError, ApiErrorType, transient, terminal, not_found, status_of, classify_api_error,
  is_transient, is_terminal, is_not_found,
}

-- A call is a success exactly if there is no error and the status is one of 200 to 299.
pub classify_api_error-eq-none_iff :
    (http : Option ℕ) (err : Option String) (method : String)
    → (classify_api_error http err method ≡ none)
      ↔ ((err ≡ none) × ((code : ℕ) × (http ≡ some code) × (200 ≤ code) × (code < 300)))
unfolding classify_api_error
classify_api_error-eq-none_iff none err method =
    (λ e. elim (some_none e) [ ], λ h. elim (none_some h.1.1) [ ])
  where
    some_none : {e : ApiError} → some e ≡ none → ⊥
    some_none e = cc

    none_some : {c : ℕ} → none ≡ some c → ⊥
    none_some e = cc
classify_api_error-eq-none_iff (some code) none method =
    (λ e. (refl, (code, refl, ground arith, ground arith)), λ h. ground arith)
classify_api_error-eq-none_iff (some code) (some text) method = ground arith

-- The independent table of classes: 404 is "not found", 400 is "terminal", all else is retried.
abbrev pub class_of_status : ℕ → ApiErrorType
class_of_status code =
    if nat_eq code 404 then not_found else if nat_eq code 400 then terminal else transient

-- A failed call is classified by its status alone, keeps the SDK's error, and its three tests
-- exclude one another.
pub classify_api_error-class :
    (http : Option ℕ) (err : Option String) (method : String) (e : ApiError)
    → classify_api_error http err method ≡ some e
    → (e.error_type ≡ class_of_status (status_of http))
      × (e.err ≡ err)
      × (is_not_found e ≡ nat_eq (status_of http) 404)
      × (is_terminal e ≡ nat_eq (status_of http) 400)
      × (is_transient e
          ≡ (if nat_eq (status_of http) 404 || nat_eq (status_of http) 400 then false else true))
unfolding classify_api_error is_not_found is_terminal is_transient
classify_api_error-class none err method e h = ground arith
classify_api_error-class (some code) err method e h = ground arith
