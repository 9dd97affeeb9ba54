-- ===== src/Cidr/Bounds.antt =====
-- The prefix lengths that `parseCIDR` of internal/controller/ncxinfracluster_controller.go yields.
use cluster_api_provider_nvi.Common.{
  ℕ, String, List, [], ◌∷◌, Option, none, some, ◌≡◌, ◌≤◌, arith, refl, Option-cases, inl, inr, ◌⊎◌,
}
use cluster_api_provider_nvi.Common.Exec.{ok}
use cluster_api_provider_nvi.Cidr.{
  codes, cut_slash, address_bits, within, mask_length, net_parse_cidr, parse_cidr,
}

address_bits_cases :
    (whole s : List ℕ) (bits : ℕ) → address_bits whole s ≡ some bits → (bits ≡ 32) ⊎ (bits ≡ 128)
unfolding address_bits
address_bits_cases whole [] bits e = absurd (cc)
address_bits_cases whole (c ∷ s) bits e = ground (arith, address_bits_cases whole s bits)

within-le : (bits : ℕ) (o : Option ℕ) (n : ℕ) → within bits o ≡ some n → n ≤ bits
within-le bits none n e = absurd (cc)
within-le bits (some m) n e = ground arith

mask_length-le : (address mask : List ℕ) (n : ℕ) → mask_length address mask ≡ some n → n ≤ 128
mask_length-le address [] n e = absurd (cc)
mask_length-le address (c ∷ mask) n e = elim (Option-cases (address_bits address address)) [
  | inl unknown ↦ absurd (cc (unknown, e))
  | inr (bits, known) ↦ omega (
    arith,
    address_bits_cases address address bits known,
    within-le bits _ n (rw (known, mask_length) at e),
  )
]

cut-le :
    (o : Option (List ℕ × List ℕ)) (n : ℕ)
    → (elim o [ none ↦ none | some (address, mask) ↦ mask_length address mask ]) ≡ some n
    → n ≤ 128
cut-le none n e = absurd (cc)
cut-le (some (address, mask)) n e = mask_length-le address mask n e

net_parse_cidr-le : (s : String) (n : ℕ) → net_parse_cidr s ≡ some n → n ≤ 128
unfolding net_parse_cidr
net_parse_cidr-le s n e = cut-le (cut_slash (codes s)) n e

-- An accepted CIDR has a prefix length of at most 128, so the conversion to int32 keeps it.
parse_cidr-le : (s : String) (n : ℕ) → parse_cidr s ≡ ok n → n ≤ 128
unfolding parse_cidr
parse_cidr-le s n e = ground (arith, net_parse_cidr-le s n)

accepted :
    (parse_cidr "10.0.1.0/24" ≡ ok 24)
    × (parse_cidr "fd00::1.2.3.4/64" ≡ ok 64)
    × (parse_cidr "::/0" ≡ ok 0)
unfolding parse_cidr
accepted = (refl, refl, refl)

refused :
    (net_parse_cidr "10.0.1/24" ≡ none)
    × (net_parse_cidr "10.0.01.0/24" ≡ none)
    × (net_parse_cidr "10.0.1.0/33" ≡ none)
    × (net_parse_cidr "1::2::3/64" ≡ none)
    × (net_parse_cidr "fe80::1%eth0/64" ≡ none)
    × (net_parse_cidr "10.0.1.0" ≡ none)
unfolding net_parse_cidr
refused = (refl, refl, refl, refl, refl, refl)
