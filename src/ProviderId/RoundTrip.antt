-- ===== src/ProviderId/RoundTrip.antt =====
-- What pkg/providerid/providerid.go reads back of what it wrote.
use text.Mathlib.TextLemmas.{cons-append}
use cluster_api_provider_nvi.Common.{
  String, ◌<>◌, Option, none, some, List, [], ◌∷◌, ◌≡◌, ◌∙◌, ap, arith, All, Option-cases, inl, inr,
}
use cluster_api_provider_nvi.Common.Exec.{ok}
use cluster_api_provider_nvi.Common.Text.{
  strip_prefix, split_slash, NoSlash, strip_prefix-append, split_slash-append,
  split_slash_of_NoSlash, split_slash-NoSlash,
}
use cluster_api_provider_nvi.ProviderId.{
  ProviderId, provider_prefix, legacy_provider_prefix, to_string, with_instance_id, parse_parts,
  trim_scheme, parse_provider_id,
}

-- The segments that the text form keeps apart.
pub record HasPlainNames {U : Type 0} (p : ProviderId U) : Type 0 where
  pub org : NoSlash p.org_name
  pub tenant : NoSlash p.tenant_name
  pub site : NoSlash p.site_name

-- The documented behaviour of the UUID package: the text of a UUID parses back, and is made of
-- hexadecimal digits and dashes.
pub record IsUuidCodec {U : Type 0} (uuid_parse : String → Option U) (uuid_string : U → String)
    : Type 0 where
  pub parse-string : (u : U) → uuid_parse (uuid_string u) ≡ some u
  pub string-NoSlash : (u : U) → NoSlash (uuid_string u)

strip_prefix_other :
    (rest : String) → strip_prefix provider_prefix (legacy_provider_prefix <> rest) ≡ none
unfolding strip_prefix
strip_prefix_other rest = rw (cons-append, cons-append)

trim_scheme_legacy : (rest : String) → trim_scheme (legacy_provider_prefix <> rest) ≡ some rest
unfolding trim_scheme
trim_scheme_legacy rest =
    rw (strip_prefix_other rest, trim_scheme) (strip_prefix-append legacy_provider_prefix rest)

module _ {U : Type 0} (uuid_parse : String → Option U) where
  parse_trimmed :
      (s t : String)
      → trim_scheme s ≡ some t
      → parse_provider_id uuid_parse s ≡ parse_parts uuid_parse s (split_slash t)
  unfolding parse_provider_id
  parse_trimmed s t e = rw (e, parse_provider_id)

  with_instance_id_fields :
      (org tenant site id : String) (p : ProviderId U)
      → with_instance_id uuid_parse org tenant site id ≡ ok p
      → (p.org_name ≡ org) × (p.tenant_name ≡ tenant) × (p.site_name ≡ site)
  unfolding with_instance_id
  with_instance_id_fields org tenant site id p e = ground arith

  with_instance_id-HasPlainNames :
      (org tenant site id : String) (p : ProviderId U)
      → NoSlash org
      → NoSlash tenant
      → NoSlash site
      → with_instance_id uuid_parse org tenant site id ≡ ok p
      → HasPlainNames p
  with_instance_id-HasPlainNames org tenant site id p a b c e =
      let (x, y, z) = with_instance_id_fields org tenant site id p e in
      record { org = rw x a; tenant = rw y b; site = rw z c }

  parse_parts-HasPlainNames :
      (whole : String) (parts : List String) (p : ProviderId U)
      → All NoSlash parts
      → parse_parts uuid_parse whole parts ≡ ok p
      → HasPlainNames p
  unfolding parse_parts
  parse_parts-HasPlainNames whole (org ∷ site ∷ id ∷ []) p (a, (b, _)) e =
      with_instance_id-HasPlainNames org "" site id p a tt b e
  parse_parts-HasPlainNames whole (org ∷ tenant ∷ site ∷ id ∷ []) p (a, (b, (c, _))) e =
      with_instance_id-HasPlainNames org tenant site id p a b c e
  parse_parts-HasPlainNames whole _ p h e = absurd (cc)

  parse_provider_id-HasPlainNames :
      (s : String) (p : ProviderId U) → parse_provider_id uuid_parse s ≡ ok p → HasPlainNames p
  unfolding parse_provider_id
  parse_provider_id-HasPlainNames s p e = elim (Option-cases (trim_scheme s)) [
    | inl missing ↦ absurd (cc (missing, e))
    | inr (trimmed, found) ↦
        parse_parts-HasPlainNames s (split_slash trimmed) p (split_slash-NoSlash trimmed)
          (rw (found, parse_provider_id) at e)
  ]

module _ {U : Type 0} (uuid_parse : String → Option U) (uuid_string : U → String)
    (codec : IsUuidCodec uuid_parse uuid_string) where
  trim_scheme-to_string :
      (p : ProviderId U)
      → trim_scheme (to_string uuid_string p)
        ≡ some (
            p.org_name
            <> ("/"
                <> (p.tenant_name <> ("/" <> (p.site_name <> ("/" <> uuid_string p.instance_id))))))
  unfolding trim_scheme to_string
  trim_scheme-to_string p = rw (
    strip_prefix-append provider_prefix (
        p.org_name
        <> ("/"
            <> (p.tenant_name <> ("/" <> (p.site_name <> ("/" <> uuid_string p.instance_id)))))),
    trim_scheme,
  )

  split_slash_four :
      (p : ProviderId U)
      → HasPlainNames p
      → split_slash (
          p.org_name
          <> ("/"
              <> (p.tenant_name <> ("/" <> (p.site_name <> ("/" <> uuid_string p.instance_id))))))
        ≡ p.org_name ∷ p.tenant_name ∷ p.site_name ∷ uuid_string p.instance_id ∷ []
  split_slash_four p h = rw (
    split_slash-append _ _ h.org,
    split_slash-append _ _ h.tenant,
    split_slash-append _ _ h.site,
    split_slash_of_NoSlash _ (codec.string-NoSlash p.instance_id),
  )

  split_slash_three :
      (org site : String) (u : U)
      → NoSlash org
      → NoSlash site
      → split_slash (org <> ("/" <> (site <> ("/" <> uuid_string u))))
        ≡ org ∷ site ∷ uuid_string u ∷ []
  split_slash_three org site u a b = rw (
    split_slash-append _ _ a,
    split_slash-append _ _ b,
    split_slash_of_NoSlash _ (codec.string-NoSlash u),
  )

  with_instance_id_ok :
      (org tenant site : String) (u : U)
      → with_instance_id uuid_parse org tenant site (uuid_string u)
        ≡ ok (record { org_name = org; tenant_name = tenant; site_name = site; instance_id = u })
  unfolding with_instance_id
  with_instance_id_ok org tenant site u = rw (codec.parse-string u, with_instance_id)

  -- A provider ID whose organisation, tenant and site hold no slash is read back as it was written.
  pub parse_provider_id-to_string :
      (p : ProviderId U)
      → HasPlainNames p
      → parse_provider_id uuid_parse (to_string uuid_string p) ≡ ok p
  unfolding parse_provider_id parse_parts with_instance_id
  parse_provider_id-to_string p h =
      parse_trimmed uuid_parse _ _ (trim_scheme-to_string p)
      ∙ ap (parse_parts uuid_parse _) (split_slash_four p h)
      ∙ with_instance_id_ok p.org_name p.tenant_name p.site_name p.instance_id

  -- The old scheme without a tenant is read with an empty tenant.
  pub parse_provider_id_legacy :
      (org site : String) (u : U)
      → NoSlash org
      → NoSlash site
      → parse_provider_id uuid_parse
          (legacy_provider_prefix <> (org <> ("/" <> (site <> ("/" <> uuid_string u)))))
        ≡ ok (record { org_name = org; tenant_name = ""; site_name = site; instance_id = u })
  unfolding parse_provider_id parse_parts with_instance_id
  parse_provider_id_legacy org site u a b =
      parse_trimmed uuid_parse _ _
        (trim_scheme_legacy (org <> ("/" <> (site <> ("/" <> uuid_string u)))))
      ∙ ap (parse_parts uuid_parse _) (split_slash_three org site u a b)
      ∙ with_instance_id_ok org "" site u

  -- Every accepted text, of either scheme and with three or four segments, names an ID whose own
  -- text is read back as the same ID.
  pub parse_provider_id_canonical :
      (s : String) (p : ProviderId U)
      → parse_provider_id uuid_parse s ≡ ok p
      → parse_provider_id uuid_parse (to_string uuid_string p) ≡ ok p
  parse_provider_id_canonical s p e =
      parse_provider_id-to_string p (parse_provider_id-HasPlainNames uuid_parse s p e)
