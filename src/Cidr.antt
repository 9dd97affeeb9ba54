-- ===== src/Cidr.antt =====
-- `parseCIDR` of internal/controller/ncxinfracluster_controller.go, with the function that it
-- calls, `net.ParseCIDR` of Go's standard library: the texts that it takes, and the prefix length.
pub mod Bounds
use Prim.Native.Char.{code}
use cluster_api_provider_nvi.Common.{
  ℕ, zero, suc, ◌+◌, ◌-◌, ◌*◌, String, ◌<>◌, Bool, true, false, not, ◌&&◌, ◌||◌, List, [], ◌∷◌,
  Option, none, some, nat_eq, leb, ltb, if◌then◌else◌,
}
use cluster_api_provider_nvi.Common.Exec.{Outcome, ok, failed}

-- The bytes of an ASCII text; any other character is no part of an address either way.
abbrev codes : String → List ℕ
codes String.[] = []
codes (String.◌∷◌ first rest) = code first ∷ codes rest

abbrev is_digit : ℕ → Bool
is_digit c = leb b'0' c && leb c b'9'

abbrev is_hex : ℕ → Bool
is_hex c = is_digit c || (leb b'a' c && leb c b'f') || (leb b'A' c && leb c b'F')

-- `parseIPv4Fields`: the value and the digits of the current field, and the fields before it.
unfoldable pub ipv4_fields : ℕ → ℕ → ℕ → List ℕ → Bool
ipv4_fields val digits fields [] = nat_eq fields 3 && ltb 0 digits
ipv4_fields val digits fields (c ∷ s) =
    let next = val * 10 + (c - b'0') in
    let more = ipv4_fields next (digits + 1) fields s in
    let closed = ipv4_fields 0 0 (fields + 1) s in
    if is_digit c
    then (if nat_eq digits 1 && nat_eq val 0 then false else if ltb 255 next then false else more)
    else if nat_eq c b'.'
    then (if nat_eq digits 0 || nat_eq fields 3 then false else closed)
    else false

unfoldable pub is_ipv4 : List ℕ → Bool
unfolding ipv4_fields
is_ipv4 s = ipv4_fields 0 0 0 s

-- A run of hexadecimal digits: how many, and what follows.
unfoldable pub hex_run : List ℕ → ℕ × List ℕ
hex_run [] = (0, [])
hex_run (c ∷ s) = let (n, rest) = hex_run s in if is_hex c then (suc n, rest) else (0, c ∷ s)

-- The loop of `parseIPv6` with the groups that still fit, of two bytes each: whether the rest is
-- accepted, given whether the ellipsis stood before.
unfoldable pub ipv6_groups : ℕ → Bool → List ℕ → Bool
unfolding hex_run is_ipv4
ipv6_groups zero ellipsis [] = not ellipsis
ipv6_groups zero ellipsis (c ∷ s) = false
ipv6_groups (suc f) ellipsis s =
    let (n, rest) = hex_run s in
    if nat_eq n 0 || ltb 4 n then false else elim rest [
      | [] ↦ if nat_eq f 0 then not ellipsis else ellipsis
      | c ∷ t ↦ elim (nat_eq c b'.') [
        | true ↦ is_ipv4 s && (if nat_eq f 1 then not ellipsis else ellipsis && ltb 1 f)
        | false ↦ elim (nat_eq c b':') [
          | false ↦ false
          | true ↦ elim t [
            | [] ↦ false
            | d ∷ u ↦ elim (nat_eq d b':') [
              | false ↦ ipv6_groups f ellipsis (d ∷ u)
              | true ↦ elim ellipsis [
                | true ↦ false
                | false ↦ elim u [ [] ↦ ltb 0 f | e ∷ v ↦ ipv6_groups f true (e ∷ v) ]
              ]
            ]
          ]
        ]
      ]
    ]

-- `parseIPv6`; a zone, behind `%`, is refused by `ParseCIDR`.
unfoldable pub is_ipv6 : List ℕ → Bool
unfolding ipv6_groups
is_ipv6 (c ∷ d ∷ s) = elim (nat_eq c b':' && nat_eq d b':') [
  | true ↦ elim s [ [] ↦ true | e ∷ t ↦ ipv6_groups 8 true (e ∷ t) ]
  | false ↦ ipv6_groups 8 false (c ∷ d ∷ s)
]
is_ipv6 s = ipv6_groups 8 false s

-- `netip.ParseAddr`, as the number of address bits: the first of `.`, `:`, `%` decides.
unfoldable pub address_bits : List ℕ → List ℕ → Option ℕ
unfolding is_ipv4 is_ipv6
address_bits whole [] = none
address_bits whole (c ∷ s) =
    let rest = address_bits whole s in
    if nat_eq c b'.'
    then (if is_ipv4 whole then some 32 else none)
    else if nat_eq c b':'
    then (if is_ipv6 whole then some 128 else none)
    else if nat_eq c b'%'
    then none
    else rest

-- `dtoi` on the whole mask: digits only, at least one, below 0xFFFFFF.
unfoldable pub dtoi : ℕ → List ℕ → Option ℕ
dtoi n [] = some n
dtoi n (c ∷ s) =
    let next = n * 10 + (c - b'0') in
    let rest = dtoi next s in
    if is_digit c then (if leb 0xFFFFFF next then none else rest) else none

-- The text before the first `/` and the text behind it.
unfoldable pub cut_slash : List ℕ → Option (List ℕ × List ℕ)
cut_slash [] = none
cut_slash (c ∷ s) = elim (nat_eq c b'/') [
  | true ↦ some ([], s)
  | false ↦ elim (cut_slash s) [ none ↦ none | some (a, m) ↦ some (c ∷ a, m) ]
]

abbrev within : ℕ → Option ℕ → Option ℕ
within bits none = none
within bits (some n) = if ltb bits n then none else some n

abbrev mask_length : List ℕ → List ℕ → Option ℕ
mask_length address [] = none
mask_length address (c ∷ mask) = elim (address_bits address address) [
  | none ↦ none
  | some bits ↦ within bits (dtoi 0 (c ∷ mask))
]

-- `net.ParseCIDR`, as the size of the mask.
unfoldable pub net_parse_cidr : String → Option ℕ
unfolding address_bits dtoi cut_slash
net_parse_cidr s = elim (cut_slash (codes s)) [
  | none ↦ none
  | some (address, mask) ↦ mask_length address mask
]

-- `parseCIDR`
unfoldable pub parse_cidr : String → Outcome String ℕ
unfolding net_parse_cidr
parse_cidr s = elim (net_parse_cidr s) [
  | none ↦ failed ("invalid CIDR " <> s)
  | some ones ↦ ok ones
]
