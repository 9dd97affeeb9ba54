-- ===== src/Machine/Frame.antt =====
-- What the steps of internal/controller/ncxinframachine_controller.go on an instance that exists leave
-- alone: one rule for each way in which the code puts steps together.
pub mod Steps
pub mod Faults
pub mod Instance
use cluster_api_provider_nvi.Common.{
  String, Bool, true, false, ◌||◌, List, [], ◌∷◌, ◌++◌, append-nil, append_assoc, Option, none,
  some, ◌≡◌, ◌⊎◌, inl, inr, refl, sym, ap, ◌∙◌, arith, All, if◌then◌else◌,
}
use cluster_api_provider_nvi.Common.Exec.{
  Outcome, ok, failed, panic, continue, pure, fail, lift, gets, modify, ◌>>=◌, for_each,
}
use cluster_api_provider_nvi.Api.Machine.{
  NcxInfraMachine, NcxInfraMachineSpec, NcxInfraMachineStatus,
}
use cluster_api_provider_nvi.Sdk.Wire.{Call, Cloud, World, create_instance, delete_instance, invoke}
use cluster_api_provider_nvi.Machine.Scope.{
  MachineWorld, MachineExec, MachineError, MachineScope, with_machine, with_status,
}
use cluster_api_provider_nvi.Machine.Faults.{settle, attempt}

unfoldable pub is_creation : Call → Bool
is_creation (create_instance r) = true
is_creation _ = false

unfoldable pub is_deletion : Call → Bool
is_deletion (delete_instance id) = true
is_deletion _ = false

-- Whether a call makes or deletes an instance.
unfoldable pub is_decisive : Call → Bool
unfolding is_creation is_deletion
is_decisive c = is_creation c || is_deletion c

abbrev pub Minor : List Call → Type 0
Minor = All (λ c. is_decisive c ≡ false)

pub Minor-append : (xs ys : List Call) → Minor xs → Minor ys → Minor (xs ++ ys)
Minor-append [] ys a b = b
Minor-append (x ∷ xs) ys (p, a) b = (p, Minor-append xs ys a b)

-- From one world to a later one of the same run, where `ready` tells whether the status may have become
-- ready.
pub record Frame (ready : Bool) (w v : MachineWorld) : Type 0 where
  pub spec : v.object.machine.spec ≡ w.object.machine.spec
  pub name : v.object.owner.name ≡ w.object.owner.name
  pub vpc : v.object.cluster.status.vpc_id ≡ w.object.cluster.status.vpc_id
  pub finalizers : v.object.machine.meta.finalizers ≡ w.object.machine.meta.finalizers
  pub instance : v.object.machine.status.instance_id ≡ w.object.machine.status.instance_id
  pub provider : v.object.machine.status.provider_id ≡ w.object.machine.status.provider_id
  pub readiness :
      (v.object.machine.status.ready ≡ w.object.machine.status.ready)
      ⊎ ((ready ≡ true) × (v.object.machine.status.ready ≡ true))
  pub made : List Call
  pub calls : v.calls ≡ w.calls ++ made
  pub minor : Minor made

pub Frame-trans : {b : Bool} {w v u : MachineWorld} → Frame b w v → Frame b v u → Frame b w u
Frame-trans {b} {w} {v} {u} f g = record {
  spec = g.spec ∙ f.spec;
  name = g.name ∙ f.name;
  vpc = g.vpc ∙ f.vpc;
  finalizers = g.finalizers ∙ f.finalizers;
  instance = g.instance ∙ f.instance;
  provider = g.provider ∙ f.provider;
  readiness = let p = f.readiness in let q = g.readiness in ground arith;
  made = f.made ++ g.made;
  calls = g.calls ∙ ap (λ c. c ++ g.made) f.calls ∙ append_assoc w.calls f.made g.made;
  minor = Minor-append f.made g.made f.minor g.minor;
}

-- Each outcome of the step keeps the frame.
pub record Moves {A : Type 0} (b : Bool) (m : MachineExec A) : Type 0 where
  pub at : (w : MachineWorld) → Frame b w (m w).1

-- A change of the state that makes no call.
pub record Tame (b : Bool) (f : MachineWorld → MachineWorld) : Type 0 where
  pub spec : (w : MachineWorld) → (f w).object.machine.spec ≡ w.object.machine.spec
  pub name : (w : MachineWorld) → (f w).object.owner.name ≡ w.object.owner.name
  pub vpc : (w : MachineWorld) → (f w).object.cluster.status.vpc_id ≡ w.object.cluster.status.vpc_id
  pub finalizers :
      (w : MachineWorld) → (f w).object.machine.meta.finalizers ≡ w.object.machine.meta.finalizers
  pub instance :
      (w : MachineWorld)
      → (f w).object.machine.status.instance_id ≡ w.object.machine.status.instance_id
  pub provider :
      (w : MachineWorld)
      → (f w).object.machine.status.provider_id ≡ w.object.machine.status.provider_id
  pub readiness :
      (w : MachineWorld)
      → ((f w).object.machine.status.ready ≡ w.object.machine.status.ready)
        ⊎ ((b ≡ true) × ((f w).object.machine.status.ready ≡ true))
  pub calls : (w : MachineWorld) → (f w).calls ≡ w.calls

module _ {b : Bool} where
  pub Tame-Frame :
      {f : MachineWorld → MachineWorld} → Tame b f → (w : MachineWorld) → Frame b w (f w)
  Tame-Frame t w = record {
    spec = t.spec w;
    name = t.name w;
    vpc = t.vpc w;
    finalizers = t.finalizers w;
    instance = t.instance w;
    provider = t.provider w;
    readiness = t.readiness w;
    made = [];
    calls = t.calls w ∙ sym (append-nil w.calls);
    minor = tt;
  }

  Tame-id : Tame b (λ w. w)
  Tame-id = record {
    spec = λ w. refl;
    name = λ w. refl;
    vpc = λ w. refl;
    finalizers = λ w. refl;
    instance = λ w. refl;
    provider = λ w. refl;
    readiness = λ w. inl refl;
    calls = λ w. refl;
  }

  pub Frame-refl : (w : MachineWorld) → Frame b w w
  Frame-refl = Tame-Frame Tame-id

  pub Moves-modify : (f : MachineWorld → MachineWorld) → Tame b f → Moves b (modify f)
  Moves-modify f t = record { at = Tame-Frame t }

  pub Moves-invoke : (cloud : Cloud) (c : Call) → is_decisive c ≡ false → Moves b (invoke cloud c)
  unfolding invoke
  Moves-invoke cloud c h = record {
    at = λ w. record {
      spec = refl;
      name = refl;
      vpc = refl;
      finalizers = refl;
      instance = refl;
      provider = refl;
      readiness = inl refl;
      made = c ∷ [];
      calls = refl;
      minor = (h, tt);
    };
  }

module _ {b : Bool} {A : Type 0} where
  pub Moves-pure : (a : A) → Moves b (pure a)
  Moves-pure a = record { at = Frame-refl }

  pub Moves-fail : (x : MachineError) → Moves b (fail {A = A} x)
  Moves-fail x = record { at = Frame-refl }

  pub Moves-gets : (f : MachineWorld → A) → Moves b (gets f)
  Moves-gets f = record { at = Frame-refl }

  pub Moves-if :
      (c : Bool) {m n : MachineExec A} → Moves b m → Moves b n → Moves b (if c then m else n)
  Moves-if true k l = k
  Moves-if false k l = l

module _ {b : Bool} {A B : Type 0} where
  continue-Frame :
      (f : A → MachineExec B)
      → ((a : A) → Moves b (f a))
      → (r : Outcome MachineError A) (w : MachineWorld) → Frame b w (continue r f w).1
  continue-Frame f k (ok a) w = (k a).at w
  continue-Frame f k (failed x) w = Frame-refl w
  continue-Frame f k panic w = Frame-refl w

  pub Moves-bind :
      {m : MachineExec A} {f : A → MachineExec B}
      → Moves b m
      → ((a : A) → Moves b (f a))
      → Moves b (m >>= f)
  Moves-bind {m} {f} k l = record {
    at = λ w. let (r, v) = m w in Frame-trans (k.at w) (continue-Frame f l r v);
  }

  settle-Frame :
      (f : A → MachineExec B) (n : MachineExec B)
      → ((a : A) → Moves b (f a))
      → Moves b n
      → (r : Outcome MachineError A) (w : MachineWorld) → Frame b w (settle r f n w).1
  settle-Frame f n k l (ok a) w = (k a).at w
  settle-Frame f n k l (failed x) w = l.at w
  settle-Frame f n k l panic w = Frame-refl w

  pub Moves-attempt :
      {m : MachineExec A} {f : A → MachineExec B} {n : MachineExec B}
      → Moves b m
      → ((a : A) → Moves b (f a))
      → Moves b n
      → Moves b (attempt m f n)
  Moves-attempt {m} {f} {n} j k l = record {
    at = λ w. let (r, v) = m w in Frame-trans (j.at w) (settle-Frame f n k l r v);
  }

module _ {b : Bool} {A : Type 0} where
  pub Moves-for_each :
      {body : A → MachineExec (Unit {0})}
      → ((a : A) → Moves b (body a))
      → (xs : List A) → Moves b (for_each body xs)
  unfolding for_each
  Moves-for_each k [] = Moves-pure tt
  Moves-for_each k (x ∷ xs) = Moves-bind (k x) (λ _. Moves-for_each k xs)
