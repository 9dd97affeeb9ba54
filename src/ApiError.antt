-- ===== src/ApiError.antt =====
-- pkg/scope/errors.go: the classes of API errors, and the backoff between two attempts.
-- A response is its status code, none for a nil response; an SDK error is its text.
pub mod Classes
pub mod Backoff
use cluster_api_provider_nvi.Common.{ℕ, String, Bool, true, false, Option, none, some, ◌&&◌, ◌||◌}
use cluster_api_provider_nvi.Common.{ltb, leb, nat_eq, if◌then◌else◌, itoa, is_nil, ◌<>◌}
use cluster_api_provider_nvi.Common.{◌*◌, ◌%◌, ◌^◌}
use cluster_api_provider_nvi.Common.Int.{ℤ, pos, negsuc, signed_64, above}

pub data ApiErrorType : Type 0 where
  transient terminal not_found : ApiErrorType

pub record ApiError : Type 0 where
  pub error_type : ApiErrorType
  pub status_code : ℕ
  pub message : String
  pub err : Option String

unfoldable pub is_transient : ApiError → Bool
is_transient e = elim (e.error_type) [ transient ↦ true | _ ↦ false ]

unfoldable pub is_terminal : ApiError → Bool
is_terminal e = elim (e.error_type) [ terminal ↦ true | _ ↦ false ]

unfoldable pub is_not_found : ApiError → Bool
is_not_found e = elim (e.error_type) [ not_found ↦ true | _ ↦ false ]

-- `httpResp.StatusCode`, and 0 where there is no response.
abbrev pub status_of : Option ℕ → ℕ
status_of none = 0
status_of (some code) = code

-- The success test at the head of `ClassifyAPIError`.
abbrev pub is_success : Option ℕ → Option String → Bool
is_success none err = false
is_success (some code) err = is_nil err && leb 200 code && ltb code 300

-- The `switch` of `ClassifyAPIError`.
unfoldable pub classify_failure : ℕ → Option String → String → ApiError
classify_failure code err method =
    if nat_eq code 429 || nat_eq code 503 || nat_eq code 504 || nat_eq code 502
    then record {
      error_type = transient;
      status_code = code;
      message = method <> ": transient error (HTTP " <> itoa code <> ")";
      err = err;
    }
    else if nat_eq code 409
    then record {
      error_type = transient;
      status_code = code;
      message = method <> ": conflict (HTTP 409), resource being modified";
      err = err;
    }
    else if nat_eq code 404
    then record {
      error_type = not_found;
      status_code = code;
      message = method <> ": resource not found (HTTP 404)";
      err = err;
    }
    else if nat_eq code 400
    then record {
      error_type = terminal;
      status_code = code;
      message = method <> ": bad request (HTTP 400)";
      err = err;
    }
    else if leb 400 code
    then record {
      error_type = transient;
      status_code = code;
      message = method <> ": server error (HTTP " <> itoa code <> ")";
      err = err;
    }
    else record {
      error_type = transient;
      status_code = 0;
      message = method <> ": connection error";
      err = err;
    }

unfoldable pub classify_api_error : Option ℕ → Option String → String → Option ApiError
unfolding classify_failure
classify_api_error http err method =
    if is_success http err then none else some (classify_failure (status_of http) err method)

-- `time.Second`
abbrev pub second : ℕ
second = 1_000_000_000

-- `1 << uint(attempt)` as an int64, whose argument is the bit pattern of `attempt`.
abbrev pub shift_one : ℕ → ℕ
shift_one attempt = if ltb attempt 64 then 2 ^ attempt % 2 ^ 64 else 0

-- `RequeueAfterForAttempt`, in nanoseconds.
unfoldable pub requeue_after_for_attempt : ℕ → ℤ
unfolding signed_64 above
requeue_after_for_attempt attempt =
    let max_backoff : ℕ = 60 * second in
    let backoff = signed_64 (shift_one attempt * second % 2 ^ 64) in
    if above backoff max_backoff then pos max_backoff else backoff
