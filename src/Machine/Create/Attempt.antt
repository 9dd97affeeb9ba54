-- ===== src/Machine/Create/Attempt.antt =====
-- What `createInstance` of internal/controller/ncxinframachine_controller.go leaves behind, and what is
-- put around it.
use cluster_api_provider_nvi.Common.{String, Bool, false, [], ◌∷◌, ◌++◌, Option, none, some, ◌≡◌}
use cluster_api_provider_nvi.Common.Exec.{
  Outcome, ok, failed, panic, continue, ◌>>=◌, finish, on_failure,
}
use cluster_api_provider_nvi.ApiError.{classify_api_error}
use cluster_api_provider_nvi.Sdk.{Instance, InstanceCreateRequest}
use cluster_api_provider_nvi.Sdk.Wire.{Cloud, Reply, create_instance}
use cluster_api_provider_nvi.Machine.Scope.{MachineWorld, MachineExec, MachineError, raise}
use cluster_api_provider_nvi.Machine.Faults.{attempt, settle}
use cluster_api_provider_nvi.Machine.Frame.{Frame, Moves, Frame-refl, Frame-trans}

-- The ID of a reply that has one and no API error.
abbrev pub created_id : Reply Instance → Option String
created_id r = elim (classify_api_error r.http r.err "CreateInstance") [
  | some x ↦ none
  | none ↦ elim (r.value) [ none ↦ none | some i ↦ i.id ]
]

abbrev pub id_or : String → Option String → String
id_or old none = old
id_or old (some id) = id

-- One call makes an instance for this machine, and its ID is recorded.
pub record Creation (cloud : Cloud) (w v : MachineWorld) : Type 0 where
  pub request : InstanceCreateRequest
  pub name : request.name ≡ w.object.owner.name
  pub vpc : request.vpc_id ≡ w.object.cluster.status.vpc_id
  pub calls : v.calls ≡ w.calls ++ create_instance request ∷ []
  pub instance :
      v.object.machine.status.instance_id
      ≡ id_or w.object.machine.status.instance_id
          (created_id (cloud w.calls (create_instance request)))
  pub finalizers : v.object.machine.meta.finalizers ≡ w.object.machine.meta.finalizers
  pub ready : v.object.machine.status.ready ≡ w.object.machine.status.ready

pub data Attempt (cloud : Cloud) (w v : MachineWorld) : Type 0 where
  unmade : Frame false w v → Attempt cloud w v
  made : (u : MachineWorld) → Frame false w u → Creation cloud u v → Attempt cloud w v

pub Attempt-after :
    {cloud : Cloud} {w u v : MachineWorld} → Frame false w u → Attempt cloud u v → Attempt cloud w v
Attempt-after f (unmade g) = unmade (Frame-trans f g)
Attempt-after f (made u g c) = made u (Frame-trans f g) c

pub record Tries {A : Type 0} (cloud : Cloud) (m : MachineExec A) : Type 0 where
  pub at : (w : MachineWorld) → Attempt cloud w (m w).1

module _ {A : Type 0} {cloud : Cloud} where
  pub Tries-Moves : {m : MachineExec A} → Moves false m → Tries cloud m
  Tries-Moves k = record { at = λ w. unmade (k.at w) }

module _ {A B : Type 0} {cloud : Cloud} where
  continue-Attempt :
      (f : A → MachineExec B)
      → ((a : A) → Tries cloud (f a))
      → (r : Outcome MachineError A) (w : MachineWorld) → Attempt cloud w (continue r f w).1
  continue-Attempt f k (ok a) w = (k a).at w
  continue-Attempt f k (failed x) w = unmade (Frame-refl w)
  continue-Attempt f k panic w = unmade (Frame-refl w)

  pub Tries-bind :
      {m : MachineExec A} {f : A → MachineExec B}
      → Moves false m
      → ((a : A) → Tries cloud (f a))
      → Tries cloud (m >>= f)
  Tries-bind {m} {f} k l = record {
    at = λ w. let (r, v) = m w in Attempt-after (k.at w) (continue-Attempt f l r v);
  }

  settle-Attempt :
      (f : A → MachineExec B) (n : MachineExec B)
      → ((a : A) → Tries cloud (f a))
      → Tries cloud n
      → (r : Outcome MachineError A) (w : MachineWorld) → Attempt cloud w (settle r f n w).1
  settle-Attempt f n k l (ok a) w = (k a).at w
  settle-Attempt f n k l (failed x) w = l.at w
  settle-Attempt f n k l panic w = unmade (Frame-refl w)

  pub Tries-attempt :
      {m : MachineExec A} {f : A → MachineExec B} {n : MachineExec B}
      → Moves false m
      → ((a : A) → Tries cloud (f a))
      → Tries cloud n
      → Tries cloud (attempt m f n)
  Tries-attempt {m} {f} {n} j k l = record {
    at = λ w. let (r, v) = m w in Attempt-after (j.at w) (settle-Attempt f n k l r v);
  }

-- Steps around others.
module _ {A : Type 0} {b : Bool} where
  pub Moves-raise : (r : Outcome String A) → Moves b (raise r)
  Moves-raise (ok a) = record { at = Frame-refl }
  Moves-raise (failed e) = record { at = Frame-refl }
  Moves-raise panic = record { at = Frame-refl }

  finish-Frame :
      (h : MachineError → MachineWorld → MachineWorld)
      → ((x : MachineError) (w : MachineWorld) → Frame b w (h x w))
      → (r : Outcome MachineError A) (w : MachineWorld) → Frame b w (finish h (r, w)).1
  finish-Frame h k (ok a) w = Frame-refl w
  finish-Frame h k (failed x) w = k x w
  finish-Frame h k panic w = Frame-refl w

  pub Moves-on_failure :
      (h : MachineError → MachineWorld → MachineWorld) (m : MachineExec A)
      → ((x : MachineError) (w : MachineWorld) → Frame b w (h x w))
      → Moves b m
      → Moves b (on_failure h m)
  unfolding on_failure
  Moves-on_failure h m k l = record {
    at = λ w. let (r, v) = m w in Frame-trans (l.at w) (finish-Frame h k r v);
  }
