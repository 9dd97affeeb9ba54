-- ===== src/Common/Text.antt =====
-- What the code uses of Go's package `strings`: prefixes, splitting at a byte, lower case.
use Prim.Native.Char.{Char, code}
use Prim.Native.String
use Prim.Native.String.{String}
use mathlib.Core.Bool.{false}
use mathlib.Core.Option.{Option, none, some}
use mathlib.Core.Path.{◌≡◌, refl}
use mathlib.Core.List.{List, [], ◌∷◌}
use native.Mathlib.Omega.{arith}
use text.Mathlib.TextLemmas.{nil-append, cons-append}
use cluster_api_provider_nvi.Common.Tests.{nat_eq, if◌then◌else◌, All, Bool-cases}
use mathlib.Core.Logic.{inl, inr}

-- `strings.HasPrefix` and `strings.TrimPrefix` in one: the rest behind the prefix.
unfoldable pub strip_prefix : String → String → Option String
strip_prefix String.[] s = some s
strip_prefix (String.◌∷◌ c p) String.[] = none
strip_prefix (String.◌∷◌ c p) (String.◌∷◌ d s) =
    if nat_eq (code c) (code d) then strip_prefix p s else none

pub strip_prefix-append : (p s : String) → strip_prefix p (String.◌++◌ p s) ≡ some s
unfolding strip_prefix
strip_prefix-append String.[] s = rw nil-append
strip_prefix-append (String.◌∷◌ c p) s = rw cons-append (ground (arith, strip_prefix-append p s))

-- A character put in front of the first part.
abbrev grow_first : Char → List String → List String
grow_first c [] = String.◌∷◌ c String.[] ∷ []
grow_first c (part ∷ parts) = String.◌∷◌ c part ∷ parts

-- `strings.Split(s, "/")`
unfoldable pub split_slash : String → List String
split_slash String.[] = "" ∷ []
split_slash (String.◌∷◌ c s) =
    let parts = split_slash s in if nat_eq (code c) b'/' then "" ∷ parts else grow_first c parts

abbrev pub NoSlash : String → Type 0
NoSlash String.[] = Unit
NoSlash (String.◌∷◌ c s) = (nat_eq (code c) b'/' ≡ false) × NoSlash s

pub split_slash-append :
    (a s : String) → NoSlash a → split_slash (String.◌++◌ a (String.◌++◌ "/" s)) ≡ a ∷ split_slash s
unfolding split_slash
split_slash-append String.[] s h = rw (nil-append, cons-append, nil-append)
split_slash-append (String.◌∷◌ c a) s (p, h) = rw (cons-append, split_slash-append a s h) (rw p)

pub split_slash_of_NoSlash : (a : String) → NoSlash a → split_slash a ≡ a ∷ []
unfolding split_slash
split_slash_of_NoSlash String.[] h = refl
split_slash_of_NoSlash (String.◌∷◌ c a) (p, h) = rw (p, split_slash_of_NoSlash a h)

grow_first-NoSlash :
    (c : Char) (parts : List String)
    → nat_eq (code c) b'/' ≡ false
    → All NoSlash parts
    → All NoSlash (grow_first c parts)
grow_first-NoSlash c [] p h = ((p, tt), tt)
grow_first-NoSlash c (part ∷ parts) p (g, h) = ((p, g), h)

-- The parts hold no slash.
pub split_slash-NoSlash : (s : String) → All NoSlash (split_slash s)
unfolding split_slash
split_slash-NoSlash String.[] = (tt, tt)
split_slash-NoSlash (String.◌∷◌ c s) = elim (Bool-cases (nat_eq (code c) b'/')) [
  | inl slash ↦ rw slash (tt, split_slash-NoSlash s)
  | inr other ↦ rw other (grow_first-NoSlash c (split_slash s) other (split_slash-NoSlash s))
]

lower_from : String → String → Char → Char
lower_from String.[] small c = c
lower_from (String.◌∷◌ l large) String.[] c = c
lower_from (String.◌∷◌ l large) (String.◌∷◌ s small) c =
    let rest = lower_from large small c in if nat_eq (code c) (code l) then s else rest

abbrev lower_char : Char → Char
lower_char c = lower_from "ABCDEFGHIJKLMNOPQRSTUVWXYZ" "abcdefghijklmnopqrstuvwxyz" c

-- `strings.ToLower` on ASCII letters; other characters are kept.
unfoldable pub to_lower : String → String
unfolding lower_from
to_lower String.[] = String.[]
to_lower (String.◌∷◌ c s) = String.◌∷◌ (lower_char c) (to_lower s)
