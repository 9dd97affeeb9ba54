-- ===== src/Common/Exec.antt =====
-- A reconcile as a function on a state: what it wrote before an error stays written, since the
-- code mutates the object through pointers. A nil dereference is an outcome of its own.
use mathlib.Core.List.{List, [], ◌∷◌}

pub data Outcome {ℓ κ} (E : Type ℓ) (A : Type κ) : Type (ℓ ⊔ κ) where
  ok : A → Outcome E A
  failed : E → Outcome E A
  panic : Outcome E A

abbrev pub Exec : Type 0 → Type 0 → Type 0 → Type 0
Exec S E A = S → Outcome E A × S

module _ {S E A : Type 0} where
  abbrev pub pure : A → Exec S E A
  pure a w = (ok a, w)

  abbrev pub fail : E → Exec S E A
  fail e w = (failed e, w)

  -- A pure step that may fail or panic.
  abbrev pub lift : Outcome E A → Exec S E A
  lift r w = (r, w)

  abbrev pub gets : (S → A) → Exec S E A
  gets f w = (ok (f w), w)

module _ {S E : Type 0} where
  abbrev pub modify : (S → S) → Exec S E (Unit {0})
  modify f w = (ok tt, f w)

module _ {S E A B : Type 0} where
  abbrev pub continue : Outcome E A → (A → Exec S E B) → Exec S E B
  continue (ok a) f w = f a w
  continue (failed e) f w = (failed e, w)
  continue panic f w = (panic, w)

  infixl 10 ◌>>=◌
  abbrev pub ◌>>=◌ : Exec S E A → (A → Exec S E B) → Exec S E B
  ◌>>=◌ m f w = let (out, after) = m w in continue out f after

module _ {S E B : Type 0} where
  infixr 10 ◌>>◌
  abbrev pub ◌>>◌ : Exec S E (Unit {0}) → Exec S E B → Exec S E B
  m >> n = m >>= λ _. n

module _ {S E A : Type 0} where
  abbrev pub finish : (E → S → S) → Outcome E A × S → Outcome E A × S
  finish h (ok a, w) = (ok a, w)
  finish h (failed e, w) = (failed e, h e w)
  finish h (panic, w) = (panic, w)

  -- `if err := m(); err != nil { h(err); return err }`
  unfoldable pub on_failure : (E → S → S) → Exec S E A → Exec S E A
  on_failure h m w = finish h (m w)

module _ {S E A : Type 0} where
  -- `for _, x := range xs { if err := body(x); err != nil { return err } }`
  unfoldable pub for_each : (A → Exec S E (Unit {0})) → List A → Exec S E (Unit {0})
  for_each body [] = pure tt
  for_each body (x ∷ xs) = body x >> for_each body xs
