-- ===== src/ProviderId.antt =====
-- pkg/providerid/providerid.go: provider IDs and their text form. The UUID type, `uuid.Parse` (none
-- on an error) and its `String` come from github.com/google/uuid and are parameters.
pub mod RoundTrip
use cluster_api_provider_nvi.Common.{String, ◌<>◌, Option, none, some, List, [], ◌∷◌}
use cluster_api_provider_nvi.Common.Exec.{Outcome, ok, failed}
use cluster_api_provider_nvi.Common.Text.{strip_prefix, split_slash}

abbrev pub provider_prefix : String
provider_prefix = "nico://"

abbrev pub legacy_provider_prefix : String
legacy_provider_prefix = "ncx-infra://"

pub record ProviderId (U : Type 0) : Type 0 where
  pub org_name : String
  pub tenant_name : String
  pub site_name : String
  pub instance_id : U

-- The three errors of `ParseProviderID`, each with the text that it quotes.
pub data ParseError : Type 0 where
  invalid_prefix invalid_instance_id invalid_format : String → ParseError

-- The `switch` on the prefix.
unfoldable pub trim_scheme : String → Option String
trim_scheme s = elim (strip_prefix provider_prefix s) [
  | some rest ↦ some rest
  | none ↦ strip_prefix legacy_provider_prefix s
]

module _ {U : Type 0} (uuid_string : U → String) where
  -- `String`
  unfoldable pub to_string : ProviderId U → String
  to_string p =
      provider_prefix
      <> (p.org_name
          <> ("/"
              <> (p.tenant_name <> ("/" <> (p.site_name <> ("/" <> uuid_string p.instance_id))))))

module _ {U : Type 0} (uuid_parse : String → Option U) where
  -- An instance ID that does not parse ends both formats with the same error.
  unfoldable pub with_instance_id :
      String → String → String → String → Outcome ParseError (ProviderId U)
  with_instance_id org tenant site id = elim (uuid_parse id) [
    | none ↦ failed (invalid_instance_id id)
    | some u ↦
        ok (record { org_name = org; tenant_name = tenant; site_name = site; instance_id = u })
  ]

  -- The `switch` on the number of segments.
  unfoldable pub parse_parts : String → List String → Outcome ParseError (ProviderId U)
  unfolding with_instance_id
  parse_parts whole (org ∷ site ∷ id ∷ []) = with_instance_id org "" site id
  parse_parts whole (org ∷ tenant ∷ site ∷ id ∷ []) = with_instance_id org tenant site id
  parse_parts whole _ = failed (invalid_format whole)

  unfoldable pub parse_provider_id : String → Outcome ParseError (ProviderId U)
  unfolding parse_parts trim_scheme
  parse_provider_id s = elim (trim_scheme s) [
    | none ↦ failed (invalid_prefix s)
    | some trimmed ↦ parse_parts s (split_slash trimmed)
  ]
