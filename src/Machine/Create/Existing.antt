-- ===== src/Machine/Create/Existing.antt =====
-- `findExistingInstance` of internal/controller/ncxinframachine_controller.go: one call that changes
-- nothing, and the first listed instance of the machine's name.
use cluster_api_provider_nvi.Common.{
  String, true, false, List, [], ◌∷◌, Option, none, some, ◌≡◌, inl, inr, refl, sym, ◌∙◌, ap, arith,
  ◌==◌, eq_iff, Bool-cases, listed, All, ◌++◌, ◌≢◌,
}
use cluster_api_provider_nvi.Common.Exec.{ok, pure, fail}
use cluster_api_provider_nvi.Sdk.{Instance}
use cluster_api_provider_nvi.Sdk.Wire.{invoke, get_all_instance}
use cluster_api_provider_nvi.Machine.Scope.{MachineWorld, MachineExec, MachineEnv, other}
use cluster_api_provider_nvi.Machine.Create.{has_name, find_existing_instance, find_instance}
use cluster_api_provider_nvi.Machine.Frame.{
  Frame, is_decisive, Frame-refl, Frame-trans, Moves-invoke,
}

has_name-true :
    (name : String) (i : Instance) (o : Option String)
    → i.name ≡ o
    → has_name name i ≡ true
    → o ≡ some name
has_name-true name i none e h = absurd (ground arith)
has_name-true name i (some n) e h =
    ap some ((eq_iff n name).0 (ap (λ o. elim o [ none ↦ false | some n ↦ n == name ]) (sym e) ∙ h))

-- The first of the list that has the name.
pub record IsFirst (name : String) (l : List Instance) (i : Instance) : Type 0 where
  pub before : List Instance
  pub after : List Instance
  pub split : l ≡ before ++ i ∷ after
  pub others : All (λ j. j.name ≢ some name) before
  pub named : i.name ≡ some name

unnamed : (name : String) (i : Instance) → has_name name i ≡ false → i.name ≢ some name
unnamed name i h same =
    let test : has_name name i ≡ (name == name) =
      ap (λ (o : Option String). elim o [ none ↦ false | some n ↦ n == name ]) same in
    ground (arith, h, test, eq_iff name name)

has_name-false : (name : String) (i : Instance) → i.name ≢ some name → has_name name i ≡ false
has_name-false name i h = elim (Bool-cases (has_name name i)) [
  | inl e ↦ absurd (h (has_name-true name i i.name refl e))
  | inr e ↦ e
]

has_name-named : (name : String) (i : Instance) → i.name ≡ some name → has_name name i ≡ true
has_name-named name i h = elim (Bool-cases (has_name name i)) [
  | inl e ↦ e
  | inr e ↦ absurd (unnamed name i e h)
]

find_instance-IsFirst :
    (name : String) (l : List Instance) (i : Instance)
    → find_instance name l ≡ some i
    → IsFirst name l i
unfolding find_instance
find_instance-IsFirst name [] i e = absurd (ground arith)
find_instance-IsFirst name (j ∷ l) i e = elim (Bool-cases (has_name name j)) [
  | inl h ↦
      let same : j ≡ i = ground arith in
      record {
        before = [];
        after = l;
        split = ap (λ i. i ∷ l) same;
        others = tt;
        named = ap (λ i. i.name) (sym same) ∙ has_name-true name j j.name refl h;
      }
  | inr h ↦
      let rest = find_instance-IsFirst name l i (ground arith) in
      record {
        before = j ∷ rest.before;
        after = rest.after;
        split = ap (λ l. j ∷ l) rest.split;
        others = (unnamed name j h, rest.others);
        named = rest.named;
      }
]

find_instance-first :
    (name : String) (before after : List Instance) (i : Instance)
    → All (λ j. j.name ≢ some name) before
    → i.name ≡ some name
    → find_instance name (before ++ i ∷ after) ≡ some i
unfolding find_instance
find_instance-first name [] after i others named = rw (has_name-named name i named) refl
find_instance-first name (j ∷ before) after i (differs, others) named =
    rw (has_name-false name j differs) (find_instance-first name before after i others named)

module _ {U : Type 0} (e : MachineEnv U) where
  listed-Frame :
      (err : Option String) (found : Option Instance) (u : MachineWorld)
      → Frame false u
          ((elim err as (λ o. MachineExec (Option Instance)) [
            | some x ↦ fail (other x)
            | none ↦ pure found
          ])
            u).1
  listed-Frame none found u = Frame-refl u
  listed-Frame (some x) found u = Frame-refl u

  pub find_existing_instance-Frame :
      (w : MachineWorld) → Frame false w (find_existing_instance e w).1
  unfolding find_existing_instance is_decisive invoke
  find_existing_instance-Frame w =
      let r = e.env.cloud w.calls get_all_instance in
      Frame-trans ((Moves-invoke e.env.cloud get_all_instance refl).at w)
        (listed-Frame r.err (find_instance w.object.owner.name (listed r.value)) _)

  pub find_existing_instance-IsFirst :
      (w : MachineWorld) (i : Instance)
      → (find_existing_instance e w).0 ≡ ok (some i)
      → ((e.env.cloud w.calls get_all_instance).err ≡ none)
        × IsFirst w.object.owner.name (listed (e.env.cloud w.calls get_all_instance).value) i
  unfolding find_existing_instance invoke
  find_existing_instance-IsFirst w i h = (
    ground arith,
    find_instance-IsFirst w.object.owner.name (listed (e.env.cloud w.calls get_all_instance).value)
        i (ground arith),
  )

  pub IsFirst-find_existing_instance :
      (w : MachineWorld) (i : Instance)
      → (e.env.cloud w.calls get_all_instance).err ≡ none
      → IsFirst w.object.owner.name (listed (e.env.cloud w.calls get_all_instance).value) i
      → (find_existing_instance e w).0 ≡ ok (some i)
  unfolding find_existing_instance invoke
  IsFirst-find_existing_instance w i fine h =
      let found =
        ap (find_instance w.object.owner.name) h.split
        ∙ find_instance-first w.object.owner.name h.before h.after i h.others h.named in
      ground (arith, fine, found)
