-- ===== src/Machine/Normal/Course.antt =====
-- What `reconcileNormal` of internal/controller/ncxinframachine_controller.go leaves behind.
use cluster_api_provider_nvi.Common.{
  String, Bool, true, false, Option, none, some, ◌≡◌, ◌≢◌, refl, sym, is_empty, is_empty_iff, ◌∙◌,
  ap, arith, if◌then◌else◌, listed,
}
use cluster_api_provider_nvi.Common.Exec.{
  Outcome, ok, failed, panic, pure, gets, modify, ◌>>=◌, ◌>>◌,
}
use cluster_api_provider_nvi.Api.Meta.{ReconcileResult}
use cluster_api_provider_nvi.Sdk.{Instance}
use cluster_api_provider_nvi.Sdk.Wire.{Cloud, get_all_instance}
use cluster_api_provider_nvi.Kube.{Env}
use cluster_api_provider_nvi.Machine.Scope.{
  MachineWorld, MachineExec, MachineError, MachineEnv, with_status, with_finalizers, instance_id,
  set_instance_id,
}
use cluster_api_provider_nvi.Machine.Faults.{settle}
use cluster_api_provider_nvi.Machine.Create.{find_existing_instance}
use cluster_api_provider_nvi.Machine.Create.Existing.{
  IsFirst, find_existing_instance-Frame, find_existing_instance-IsFirst,
  IsFirst-find_existing_instance,
}
use cluster_api_provider_nvi.Machine.Create.Attempt.{Attempt, unmade, Attempt-after}
use cluster_api_provider_nvi.Machine.Instance.{reconcile_instance}
use cluster_api_provider_nvi.Machine.Normal.{
  machine_finalizer, reuse_instance, check_and_create, provision_instance, reconcile_normal,
}
use cluster_api_provider_nvi.Machine.Normal.Creates.{Tries-check_and_create}
use cluster_api_provider_nvi.Machine.Frame.{Frame, Moves, Moves-bind}
use cluster_api_provider_nvi.Machine.Frame.Steps.{Moves-set_machine_id, Moves-set_instance_state}
use cluster_api_provider_nvi.Machine.Frame.Instance.{Moves-for_some, reconcile_instance-Frame}

abbrev pub with_id : String → MachineWorld → MachineWorld
with_id id = with_status (λ s. record s { instance_id = id })

-- The first listed instance of the machine's name, in a list that came without an error.
abbrev pub IsListed : Cloud → MachineWorld → Instance → Type 0
IsListed cloud w i =
    ((cloud w.calls get_all_instance).err ≡ none)
    × IsFirst w.object.owner.name (listed (cloud w.calls get_all_instance).value) i

-- How a run that finds its finalizer and no recorded instance ends: the first instance that the service
-- lists under the machine's name is followed from then on, or there is none with an ID and an attempt to
-- make one.
pub data Provision (cloud : Cloud) (w v : MachineWorld) : Type 0 where
  reusing :
      (u : MachineWorld) (i : Instance) (id : String)
      → Frame false w u
      → IsListed cloud w i
      → i.id ≡ some id
      → Frame true (with_id id u) v
      → Provision cloud w v
  attempting :
      ((i : Instance) → IsListed cloud w i → i.id ≡ none) → Attempt cloud w v → Provision cloud w v

pub data Course (env : Env) (w v : MachineWorld) : Type 0 where
  guarding :
      env.kube.contains_finalizer w.object.machine.meta.finalizers machine_finalizer ≡ false
      → v ≡ with_finalizers (λ fs. env.kube.add_finalizer fs machine_finalizer) w
      → Course env w v
  following :
      env.kube.contains_finalizer w.object.machine.meta.finalizers machine_finalizer ≡ true
      → w.object.machine.status.instance_id ≢ ""
      → Frame true w v
      → Course env w v
  provisioning :
      env.kube.contains_finalizer w.object.machine.meta.finalizers machine_finalizer ≡ true
      → w.object.machine.status.instance_id ≡ ""
      → Provision env.cloud w v
      → Course env w v

Frame-weaken : {b : Bool} {w v : MachineWorld} → Frame b w v → Frame true w v
Frame-weaken {b} {w} {v} f = record {
  spec = f.spec;
  name = f.name;
  vpc = f.vpc;
  finalizers = f.finalizers;
  instance = f.instance;
  provider = f.provider;
  readiness = let p = f.readiness in ground arith;
  made = f.made;
  calls = f.calls;
  minor = f.minor;
}

false-true : false ≡ true → ⊥
false-true h = ground arith

Moves-reconcile_instance : (env : Env) → Moves true (reconcile_instance env)
Moves-reconcile_instance env = record { at = λ w. Frame-weaken (reconcile_instance-Frame env w) }

reuse_instance-Frame :
    (env : Env) (id : String) (i : Instance) (w : MachineWorld)
    → Frame true (with_id id w) (reuse_instance env id i w).1
unfolding reuse_instance set_instance_id
reuse_instance-Frame env id i w =
    (Moves-bind (Moves-for_some i.machine_id Moves-set_machine_id) (λ _.
        Moves-bind (Moves-for_some i.status Moves-set_instance_state)
          (λ _. Moves-reconcile_instance env))).at
      (with_id id w)

module _ {U : Type 0} (e : MachineEnv U) where
  try-Provision :
      (w u : MachineWorld)
      → Frame false w u
      → ((i : Instance) → IsListed e.env.cloud w i → i.id ≡ none)
      → Provision e.env.cloud w (check_and_create e u).1
  try-Provision w u f absent = attempting absent (Attempt-after f ((Tries-check_and_create e).at u))

  by_id-Provision :
      (w u : MachineWorld) (i : Instance) (o : Option String)
      → Frame false w u
      → i.id ≡ o
      → IsListed e.env.cloud w i
      → ((j : Instance) → IsListed e.env.cloud w j → i ≡ j)
      → Provision e.env.cloud w
          ((elim o as (λ o. MachineExec ReconcileResult) [
            | none ↦ check_and_create e
            | some id ↦ reuse_instance (e.env) id i
          ])
            u).1
  by_id-Provision w u i none f h there only =
      try-Provision w u f (λ j k. ap (λ i. i.id) (sym (only j k)) ∙ h)
  by_id-Provision w u i (some id) f h there only =
      reusing u i id f there h (reuse_instance-Frame (e.env) id i u)

  -- What follows the search for an instance of the name.
  settled-Provision :
      (w u : MachineWorld) (r : Outcome MachineError (Option Instance))
      → Frame false w u
      → ((i : Instance) → r ≡ ok (some i) → IsListed e.env.cloud w i)
      → ((i : Instance) → IsListed e.env.cloud w i → r ≡ ok (some i))
      → Provision e.env.cloud w
          (settle r
            (λ existing. elim existing [
              | none ↦ check_and_create e
              | some i ↦ elim (i.id) [
                | none ↦ check_and_create e
                | some id ↦ reuse_instance (e.env) id i
              ]
            ])
            (check_and_create e)
            u).1
  settled-Provision w u (ok none) f there only =
      try-Provision w u f (λ i h. absurd (ground (arith, only i h)))
  settled-Provision w u (ok (some i)) f there only =
      by_id-Provision w u i i.id f refl (there i refl) (λ j h. ground (arith, only j h))
  settled-Provision w u (failed x) f there only =
      try-Provision w u f (λ i h. absurd (ground (arith, only i h)))
  settled-Provision w u panic f there only =
      attempting (λ i h. absurd (ground (arith, only i h))) (unmade f)

  provision_instance-Provision :
      (w : MachineWorld) → Provision e.env.cloud w (provision_instance e w).1
  unfolding provision_instance
  provision_instance-Provision w =
      settled-Provision w (find_existing_instance e w).1 (find_existing_instance e w).0
        (find_existing_instance-Frame e w) (find_existing_instance-IsFirst e w)
        (λ i (fine, first). IsFirst-find_existing_instance e w i fine first)

  recorded-Course :
      (w : MachineWorld) (empty : Bool)
      → e.env.kube.contains_finalizer w.object.machine.meta.finalizers machine_finalizer ≡ true
      → is_empty w.object.machine.status.instance_id ≡ empty
      → Course (e.env) w ((if empty then provision_instance e else reconcile_instance (e.env)) w).1
  recorded-Course w true g h =
      provisioning g ((is_empty_iff w.object.machine.status.instance_id).0 h)
        (provision_instance-Provision w)
  recorded-Course w false g h =
      following g (λ same. elim (false-true (sym h ∙ ap is_empty same)) [ ])
        ((Moves-reconcile_instance (e.env)).at w)

  guarded-Course :
      (w : MachineWorld) (guarded : Bool)
      → e.env.kube.contains_finalizer w.object.machine.meta.finalizers machine_finalizer ≡ guarded
      → Course
          (e.env)
          w
          ((if guarded
              then (do
                id ← gets instance_id
                if is_empty id then provision_instance e else reconcile_instance (e.env))
              else (do
                modify (with_finalizers (λ fs. e.env.kube.add_finalizer fs machine_finalizer))
                pure (record { requeue = true; requeue_after = 0 })))
            w).1
  unfolding instance_id
  guarded-Course w true h = recorded-Course w (is_empty w.object.machine.status.instance_id) h refl
  guarded-Course w false h = guarding h refl

  pub reconcile_normal-Course : (w : MachineWorld) → Course (e.env) w (reconcile_normal e w).1
  unfolding reconcile_normal
  reconcile_normal-Course w =
      guarded-Course w
        (e.env.kube.contains_finalizer w.object.machine.meta.finalizers machine_finalizer) refl
