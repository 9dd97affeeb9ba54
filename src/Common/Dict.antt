-- ===== src/Common/Dict.antt =====
-- Go's `map[string]string` as an association list. The order of the list stands for the order in
-- which `range` visits the map, which Go leaves open; `nil` is the empty map.
use mathlib.Core.Path.{◌≡◌, refl}
use mathlib.Core.Option.{Option, none, some}
use mathlib.Core.List.{List, [], ◌∷◌}
use Prim.Native.String.{String}
use native.Mathlib.Omega.{arith}
use text.Mathlib.Text.{◌==◌}
use text.Mathlib.TextEquality.{eq_iff}
use text.Mathlib.TextPositions.{eq_refl}
use cluster_api_provider_nvi.Common.Tests.{if◌then◌else◌}

abbrev pub Dict : Type 0
Dict = List (String × String)

-- `v, ok := m[k]`
unfoldable pub lookup : String → Dict → Option String
lookup wanted [] = none
lookup wanted ((key, value) ∷ rest) = if key == wanted then some value else lookup wanted rest

-- `m[k] = v`
unfoldable pub insert : String → String → Dict → Dict
insert wanted new [] = (wanted, new) ∷ []
insert wanted new ((key, old) ∷ rest) =
    if key == wanted then (wanted, new) ∷ rest else (key, old) ∷ insert wanted new rest

-- `delete(m, k)`
unfoldable pub erase : String → Dict → Dict
erase wanted [] = []
erase wanted ((key, value) ∷ entries) =
    let rest = erase wanted entries in if key == wanted then rest else (key, value) ∷ rest

pub lookup-insert :
    (set asked new : String) (entries : Dict)
    → lookup asked (insert set new entries)
      ≡ (if set == asked then some new else lookup asked entries)
unfolding lookup insert
lookup-insert set asked new [] = refl
lookup-insert set asked new ((key, old) ∷ rest) =
    let step = lookup-insert set asked new rest in
    ground (arith, step, eq_iff key asked, eq_iff key set, eq_iff set asked)

pub lookup-erase :
    (gone asked : String) (entries : Dict)
    → lookup asked (erase gone entries) ≡ (if gone == asked then none else lookup asked entries)
unfolding lookup erase
lookup-erase gone asked [] = ground arith
lookup-erase gone asked ((key, old) ∷ rest) =
    let step = lookup-erase gone asked rest in
    ground (arith, step, eq_iff key asked, eq_iff key gone, eq_iff gone asked)

-- Each key stands once, as in a map.
abbrev pub NodupKeys : Dict → Type 0
NodupKeys [] = Unit
NodupKeys ((j, w) ∷ m) = (lookup j m ≡ none) × NodupKeys m

pub erase_absent : (k : String) (m : Dict) → lookup k m ≡ none → erase k m ≡ m
unfolding lookup erase
erase_absent k [] h = refl
erase_absent k ((i, w) ∷ m) h = ground (arith, erase_absent k m)

-- To delete the key that a `range` visits first leaves the rest.
pub erase_first : (k v : String) (m : Dict) → lookup k m ≡ none → erase k ((k, v) ∷ m) ≡ m
unfolding erase
erase_first k v m h = ground (arith, eq_refl k, erase_absent k m h)

pub insert-NodupKeys : (k v : String) (m : Dict) → NodupKeys m → NodupKeys (insert k v m)
unfolding insert lookup
insert-NodupKeys k v [] h = (refl, tt)
insert-NodupKeys k v ((i, w) ∷ m) (f, h) =
    ground (arith, eq_iff i k, eq_iff k i, lookup-insert k i v m, insert-NodupKeys k v m h)

pub erase-NodupKeys : (k : String) (m : Dict) → NodupKeys m → NodupKeys (erase k m)
unfolding erase
erase-NodupKeys k [] h = tt
erase-NodupKeys k ((i, w) ∷ m) (f, h) = ground (arith, lookup-erase k i m, erase-NodupKeys k m h)
