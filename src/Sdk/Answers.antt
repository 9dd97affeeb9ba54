-- ===== src/Sdk/Answers.antt =====
-- What a reply tells by its status code, apart from the classes of pkg/scope/errors.go.
use cluster_api_provider_nvi.Common.{
  ℕ, String, Bool, false, ◌&&◌, Option, none, some, is_nil, nat_eq, leb, ltb, ◌<>◌,
}
use cluster_api_provider_nvi.ApiError.{ApiError, terminal}
use cluster_api_provider_nvi.Sdk.Wire.{Reply}

-- A status of 200 to 299, without an error.
abbrev pub succeeded : {A : Type 0} → Reply A → Bool
succeeded r = elim (r.http) [
  | none ↦ false
  | some code ↦ is_nil r.err && leb 200 code && ltb code 300
]

abbrev pub answered_with : {A : Type 0} → ℕ → Reply A → Bool
answered_with expected r = elim (r.http) [ none ↦ false | some code ↦ nat_eq code expected ]

-- The error of a call that the service refuses.
abbrev pub bad_request : String → Option String → ApiError
bad_request method err = record {
  error_type = terminal;
  status_code = 400;
  message = method <> ": bad request (HTTP 400)";
  err = err;
}
