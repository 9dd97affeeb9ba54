-- ===== src/Tests/Text.antt =====
-- Runs and instances for ApiError, ProviderId and Cidr.
use cluster_api_provider_nvi.Common.{
  ◌↔◌, ℕ, String, true, false, Option, none, some, ◌≡◌, refl, ◌<◌, ◌≤◌, ◌<>◌, ◌==◌, arith, ◌*◌,
  if◌then◌else◌, nat_eq, ◌||◌, itoa,
}
use cluster_api_provider_nvi.Common.Int.{pos}
use cluster_api_provider_nvi.Common.Exec.{ok}
use cluster_api_provider_nvi.Common.Text.{strip_prefix, split_slash}
use cluster_api_provider_nvi.ApiError.{
  ApiError, requeue_after_for_attempt, second, classify_api_error, transient, is_transient,
  is_terminal, is_not_found,
}
use cluster_api_provider_nvi.ApiError.Classes.{
  class_of_status, classify_api_error-class, classify_api_error-eq-none_iff,
}
use cluster_api_provider_nvi.ApiError.Backoff.{
  requeue_after_for_attempt-eq-capped, requeue_after_for_attempt-eq-zero,
}
use cluster_api_provider_nvi.ProviderId.{
  ProviderId, to_string, parse_provider_id, legacy_provider_prefix,
}
use cluster_api_provider_nvi.ProviderId.RoundTrip.{
  HasPlainNames, IsUuidCodec, parse_provider_id-to_string, parse_provider_id_legacy,
  parse_provider_id_canonical,
}
use cluster_api_provider_nvi.Cidr.{parse_cidr}

requeue_after_for_attempt-eq-capped_example : requeue_after_for_attempt 7 ≡ pos (60 * second)
requeue_after_for_attempt-eq-capped_example = requeue_after_for_attempt-eq-capped 7 (omega arith)

requeue_after_for_attempt-eq-zero_example : requeue_after_for_attempt 60 ≡ pos 0
requeue_after_for_attempt-eq-zero_example = requeue_after_for_attempt-eq-zero 60 (omega arith)

abbrev unavailable : ApiError
unavailable = record {
  error_type = transient;
  status_code = 503;
  message = "GetVpc: transient error (HTTP 503)";
  err = some "down";
}

classified : classify_api_error (some 503) (some "down") "GetVpc" ≡ some unavailable
unfolding classify_api_error itoa
classified = refl

classify_api_error-class_example :
    (unavailable.error_type ≡ class_of_status 503)
    × (unavailable.err ≡ some "down")
    × (is_not_found unavailable ≡ nat_eq 503 404)
    × (is_terminal unavailable ≡ nat_eq 503 400)
    × (is_transient unavailable ≡ (if nat_eq 503 404 || nat_eq 503 400 then false else true))
classify_api_error-class_example =
    classify_api_error-class (some 503) (some "down") "GetVpc" unavailable classified

classify_api_error-eq-none_iff_example : (classify_api_error (some 201) none "CreateVpc" ≡ none) ↔ (
    (◌≡◌ {A = Option String} none none)
    × ((code : ℕ) × (some 201 ≡ some code) × (200 ≤ code) × (code < 300)))
classify_api_error-eq-none_iff_example = classify_api_error-eq-none_iff (some 201) none "CreateVpc"

-- One UUID, "u1".
abbrev one_uuid : String → Option (Unit {0})
one_uuid s = if s == "u1" then some tt else none

abbrev one_uuid_text : Unit {0} → String
one_uuid_text _ = "u1"

one_uuid-IsUuidCodec : IsUuidCodec one_uuid one_uuid_text
one_uuid-IsUuidCodec = record { parse-string = λ u. refl; string-NoSlash = λ u. (refl, (refl, tt)) }

abbrev pid : ProviderId (Unit {0})
pid = record { org_name = "o"; tenant_name = "t"; site_name = "s"; instance_id = tt }

pid-HasPlainNames : HasPlainNames pid
pid-HasPlainNames = record { org = (refl, tt); tenant = (refl, tt); site = (refl, tt) }

parse_provider_id-to_string_example :
    parse_provider_id one_uuid (to_string one_uuid_text pid) ≡ ok pid
parse_provider_id-to_string_example =
    parse_provider_id-to_string one_uuid one_uuid_text one_uuid-IsUuidCodec pid pid-HasPlainNames

parse_provider_id_legacy_example :
    parse_provider_id one_uuid (legacy_provider_prefix <> ("o" <> ("/" <> ("s" <> ("/" <> "u1")))))
    ≡ ok (record { org_name = "o"; tenant_name = ""; site_name = "s"; instance_id = tt })
parse_provider_id_legacy_example =
    parse_provider_id_legacy one_uuid one_uuid_text one_uuid-IsUuidCodec "o" "s" tt (refl, tt)
      (refl, tt)

read_legacy : parse_provider_id one_uuid "ncx-infra://o/t/s/u1" ≡ ok pid
unfolding parse_provider_id strip_prefix split_slash
read_legacy = refl

parse_provider_id_canonical_example :
    parse_provider_id one_uuid (to_string one_uuid_text pid) ≡ ok pid
parse_provider_id_canonical_example =
    parse_provider_id_canonical one_uuid one_uuid_text one_uuid-IsUuidCodec "ncx-infra://o/t/s/u1"
      pid read_legacy

parsed_cidr : parse_cidr "10.0.1.0/24" ≡ ok 24
unfolding parse_cidr
parsed_cidr = refl
