-- ===== src/Machine/Total.antt =====
-- Steps of internal/controller/ncxinframachine_controller.go that always return: one rule for each way in
-- which the code puts steps together.
pub mod Faults
pub mod Instance
use cluster_api_provider_nvi.Common.{
  String, Bool, true, false, List, [], ◌∷◌, ◌≡◌, ◌≢◌, refl, sym, ap, ◌∙◌, arith, if◌then◌else◌,
}
use cluster_api_provider_nvi.Common.Exec.{
  Outcome, ok, failed, panic, continue, pure, gets, modify, ◌>>=◌, for_each,
}
use cluster_api_provider_nvi.Sdk.Wire.{Call, Cloud, invoke}
use cluster_api_provider_nvi.Machine.Scope.{MachineWorld, MachineExec, MachineError}
use cluster_api_provider_nvi.Machine.Faults.{settle, attempt}
use cluster_api_provider_nvi.Machine.Frame.{Moves, Frame}

abbrev pub IsOk : {A : Type 0} → Outcome MachineError A → Type 0
IsOk (ok a) = Unit {0}
IsOk (failed x) = ⊥
IsOk panic = ⊥

-- The step returns without an error.
pub record Total {A : Type 0} (m : MachineExec A) : Type 0 where
  pub at : (w : MachineWorld) → IsOk (m w).0

-- It dereferences no nil.
pub record Safe {A : Type 0} (m : MachineExec A) : Type 0 where
  pub at : (w : MachineWorld) → (m w).0 ≢ panic

-- It returns this.
pub record Gives {A : Type 0} (r : Outcome MachineError A) (m : MachineExec A) : Type 0 where
  pub at : (w : MachineWorld) → (m w).0 ≡ r

-- The status is ready behind it.
pub record Readies {A : Type 0} (m : MachineExec A) : Type 0 where
  pub at : (w : MachineWorld) → (m w).1.object.machine.status.ready ≡ true

module _ {A : Type 0} where
  pub Total-pure : (a : A) → Total (pure a)
  Total-pure a = record { at = λ w. tt }

  pub Total-gets : (f : MachineWorld → A) → Total (gets f)
  Total-gets f = record { at = λ w. tt }

  pub Total-if : (b : Bool) {m n : MachineExec A} → Total m → Total n → Total (if b then m else n)
  Total-if true k l = k
  Total-if false k l = l

  pub Gives-pure : (a : A) → Gives (ok a) (pure a)
  Gives-pure a = record { at = λ w. refl }

pub Total-modify : (f : MachineWorld → MachineWorld) → Total (modify f)
Total-modify f = record { at = λ w. tt }

pub Total-invoke : (cloud : Cloud) (c : Call) → Total (invoke cloud c)
unfolding invoke
Total-invoke cloud c = record { at = λ w. tt }

Frame-ready :
    {w v : MachineWorld}
    → Frame false w v
    → w.object.machine.status.ready ≡ true
    → v.object.machine.status.ready ≡ true
Frame-ready f h = let p = f.readiness in ground arith

module _ {A B : Type 0} where
  continue-IsOk :
      (f : A → MachineExec B)
      → ((a : A) → Total (f a))
      → (r : Outcome MachineError A) (w : MachineWorld) → IsOk r
      → IsOk (continue r f w).0
  continue-IsOk f k (ok a) w h = (k a).at w
  continue-IsOk f k (failed x) w h = elim h [ ]
  continue-IsOk f k panic w h = elim h [ ]

  pub Total-bind :
      {m : MachineExec A} {f : A → MachineExec B}
      → Total m
      → ((a : A) → Total (f a))
      → Total (m >>= f)
  Total-bind {m} {f} k l = record { at = λ w. continue-IsOk f l (m w).0 (m w).1 (k.at w) }

  continue-Gives :
      (f : A → MachineExec B) (s : Outcome MachineError B)
      → ((a : A) → Gives s (f a))
      → (r : Outcome MachineError A) (w : MachineWorld) → IsOk r
      → (continue r f w).0 ≡ s
  continue-Gives f s k (ok a) w h = (k a).at w
  continue-Gives f s k (failed x) w h = elim h [ ]
  continue-Gives f s k panic w h = elim h [ ]

  pub Gives-bind :
      {m : MachineExec A} {f : A → MachineExec B} {s : Outcome MachineError B}
      → Total m
      → ((a : A) → Gives s (f a))
      → Gives s (m >>= f)
  Gives-bind {m} {f} {s} k l = record { at = λ w. continue-Gives f s l (m w).0 (m w).1 (k.at w) }

  continue-Readies :
      (f : A → MachineExec B)
      → ((a : A) → Readies (f a))
      → (r : Outcome MachineError A) (w : MachineWorld) → IsOk r
      → (continue r f w).1.object.machine.status.ready ≡ true
  continue-Readies f k (ok a) w h = (k a).at w
  continue-Readies f k (failed x) w h = elim h [ ]
  continue-Readies f k panic w h = elim h [ ]

  -- The later step makes it ready, or the first one does.
  pub Readies-later :
      {m : MachineExec A} {f : A → MachineExec B}
      → Total m
      → ((a : A) → Readies (f a))
      → Readies (m >>= f)
  Readies-later {m} {f} k l = record { at = λ w. continue-Readies f l (m w).0 (m w).1 (k.at w) }

  continue-ready :
      (f : A → MachineExec B)
      → ((a : A) → Moves false (f a))
      → (r : Outcome MachineError A) (w : MachineWorld) → w.object.machine.status.ready ≡ true
      → (continue r f w).1.object.machine.status.ready ≡ true
  continue-ready f k (ok a) w h = Frame-ready ((k a).at w) h
  continue-ready f k (failed x) w h = h
  continue-ready f k panic w h = h

  pub Readies-first :
      {m : MachineExec A} {f : A → MachineExec B}
      → Readies m
      → ((a : A) → Moves false (f a))
      → Readies (m >>= f)
  Readies-first {m} {f} k l = record { at = λ w. continue-ready f l (m w).0 (m w).1 (k.at w) }

  settle-IsOk :
      (f : A → MachineExec B) (n : MachineExec B)
      → ((a : A) → Total (f a))
      → Total n
      → (r : Outcome MachineError A) (w : MachineWorld) → r ≢ panic
      → IsOk (settle r f n w).0
  settle-IsOk f n k l (ok a) w h = (k a).at w
  settle-IsOk f n k l (failed x) w h = l.at w
  settle-IsOk f n k l panic w h = absurd (h refl)

  -- An error of the first step is answered, so that only a nil dereference is in the way.
  pub Total-attempt :
      {m : MachineExec A} {f : A → MachineExec B} {n : MachineExec B}
      → Safe m
      → ((a : A) → Total (f a))
      → Total n
      → Total (attempt m f n)
  Total-attempt {m} {f} {n} j k l = record {
    at = λ w. settle-IsOk f n k l (m w).0 (m w).1 (j.at w);
  }

module _ {A : Type 0} where
  pub Total-for_each :
      {body : A → MachineExec (Unit {0})}
      → ((a : A) → Total (body a))
      → (xs : List A) → Total (for_each body xs)
  unfolding for_each
  Total-for_each k [] = Total-pure tt
  Total-for_each k (x ∷ xs) = Total-bind (k x) (λ _. Total-for_each k xs)
