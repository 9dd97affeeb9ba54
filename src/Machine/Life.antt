-- ===== src/Machine/Life.antt =====
-- The life of a NcxInfraMachine over any number of runs of
-- internal/controller/ncxinframachine_controller.go, with edits by others in between.
pub mod Deleted
use cluster_api_provider_nvi.Common.{
  String, Bool, true, false, List, [], ◌∷◌, ◌++◌, ◌≡◌, ◌≢◌, refl, sym, ap, ◌∙◌, arith, All,
  is_empty, if◌then◌else◌,
}
use cluster_api_provider_nvi.Api.Cluster.{NcxInfraCluster}
use cluster_api_provider_nvi.Api.Machine.{NcxInfraMachine, NcxInfraMachineStatus}
use cluster_api_provider_nvi.Sdk.Wire.{Call, Cloud, delete_instance}
use cluster_api_provider_nvi.Kube.{Env}
use cluster_api_provider_nvi.Machine.Scope.{OwnerMachine, MachineWorld, MachineEnv}
use cluster_api_provider_nvi.Machine.Create.Attempt.{Attempt, unmade, made}
use cluster_api_provider_nvi.Machine.Normal.{reconcile_normal}
use cluster_api_provider_nvi.Machine.Normal.Course.{
  Provision, reusing, attempting, Course, guarding, following, provisioning,
  reconcile_normal-Course,
}
use cluster_api_provider_nvi.Machine.Delete.{reconcile_delete}
use cluster_api_provider_nvi.Machine.Delete.Released.{reconcile_delete-Deletion}
use cluster_api_provider_nvi.Machine.Entry.{fresh_world}
use cluster_api_provider_nvi.Machine.Frame.{Frame, Minor, is_creation, is_decisive}
use mathlib.Core.Path.{subst}

module _ (U : Type 0) where
  -- One step, with the calls that it makes: a run on the stored machine, whatever the owner, the cluster
  -- and the service are by then, or an edit that leaves the status to the controller.
  pub data Step : NcxInfraMachine → List Call → NcxInfraMachine → Type 0 where
    provisions :
        (e : MachineEnv U) (m : NcxInfraMachine) (o : OwnerMachine) (c : NcxInfraCluster)
        → Step m
            (reconcile_normal e (fresh_world m o c)).1.calls
            (reconcile_normal e (fresh_world m o c)).1.object.machine
    deletes :
        (env : Env) (m : NcxInfraMachine) (o : OwnerMachine) (c : NcxInfraCluster)
        → Step m
            (reconcile_delete env (fresh_world m o c)).1.calls
            (reconcile_delete env (fresh_world m o c)).1.object.machine
    edits : (m n : NcxInfraMachine) → n.status ≡ m.status → Step m [] n

  pub data Life : NcxInfraMachine → List Call → NcxInfraMachine → Type 0 where
    begins : (m : NcxInfraMachine) → Life m [] m
    lives_on :
        {l m n : NcxInfraMachine} {before after : List Call}
        → Life l before m
        → Step m after n
        → Life l (before ++ after) n

abbrev pub MakesNone : List Call → Type 0
MakesNone = All (λ c. is_creation c ≡ false)

MakesNone-append : (xs ys : List Call) → MakesNone xs → MakesNone ys → MakesNone (xs ++ ys)
MakesNone-append [] ys a b = b
MakesNone-append (x ∷ xs) ys (p, a) b = (p, MakesNone-append xs ys a b)

Minor-MakesNone : (l : List Call) → Minor l → MakesNone l
unfolding is_decisive
Minor-MakesNone [] h = tt
Minor-MakesNone (c ∷ l) (p, h) = (ground arith, Minor-MakesNone l h)

-- What a step keeps of the status.
record Stays (before : NcxInfraMachineStatus) (after : NcxInfraMachineStatus) : Type 0 where
  instance : before.instance_id ≢ "" → after.instance_id ≡ before.instance_id
  ready : before.ready ≡ true → after.ready ≡ true

Frame-Stays :
    {b : Bool} {w v : MachineWorld}
    → Frame b w v
    → Stays w.object.machine.status v.object.machine.status
Frame-Stays f = record {
  instance = λ _. f.instance;
  ready = λ h. let p = f.readiness in ground arith;
}

Stays-trans : {a b c : NcxInfraMachineStatus} → Stays a b → Stays b c → Stays a c
Stays-trans {a} f g = record {
  instance = λ h. let same = f.instance h in g.instance (λ e. h (sym same ∙ e)) ∙ same;
  ready = λ h. g.ready (f.ready h);
}

Stays-same : {a b : NcxInfraMachineStatus} → b ≡ a → Stays a b
Stays-same e = record {
  instance = λ h. ap (λ s. s.instance_id) e;
  ready = λ h. ap (λ s. s.ready) e ∙ h;
}

-- Where no instance is recorded, only the readiness is asked for.
Stays-unrecorded :
    {a b : NcxInfraMachineStatus}
    → a.instance_id ≡ ""
    → (a.ready ≡ true → b.ready ≡ true)
    → Stays a b
Stays-unrecorded e r = record { instance = λ h. absurd (h e); ready = r }

Attempt-ready :
    {cloud : Cloud} {w v : MachineWorld}
    → Attempt cloud w v
    → w.object.machine.status.ready ≡ true
    → v.object.machine.status.ready ≡ true
Attempt-ready (unmade f) h = (Frame-Stays f).ready h
Attempt-ready (made u f c) h = c.ready ∙ (Frame-Stays f).ready h

Provision-ready :
    {cloud : Cloud} {w v : MachineWorld}
    → Provision cloud w v
    → w.object.machine.status.ready ≡ true
    → v.object.machine.status.ready ≡ true
Provision-ready (reusing u i id f listed known g) h =
    (Frame-Stays g).ready ((Frame-Stays f).ready h)
Provision-ready (attempting none_listed a) h = Attempt-ready a h

Course-Stays :
    {env : Env} {w v : MachineWorld}
    → Course env w v
    → Stays w.object.machine.status v.object.machine.status
Course-Stays (guarding h e) = Stays-same (ap (λ v. v.object.machine.status) e)
Course-Stays (following g h f) = Frame-Stays f
Course-Stays (provisioning g h p) = Stays-unrecorded h (Provision-ready p)

Course-MakesNone :
    {env : Env} {w v : MachineWorld}
    → Course env w v
    → w.calls ≡ []
    → w.object.machine.status.instance_id ≢ ""
    → MakesNone v.calls
Course-MakesNone (guarding h e) start k = subst MakesNone (sym (ap (λ v. v.calls) e ∙ start)) tt
Course-MakesNone (following g h f) start k =
    subst MakesNone (sym (f.calls ∙ ap (λ c. c ++ f.made) start)) (Minor-MakesNone f.made f.minor)
Course-MakesNone (provisioning g h p) start k = absurd (k h)

delete-MakesNone : (id : String) → MakesNone (if is_empty id then [] else delete_instance id ∷ [])
unfolding is_creation
delete-MakesNone id = ground arith

module _ {U : Type 0} where
  Step-Stays : {m n : NcxInfraMachine} {l : List Call} → Step U m l n → Stays m.status n.status
  Step-Stays (provisions e m o c) = Course-Stays (reconcile_normal-Course e (fresh_world m o c))
  Step-Stays (deletes env m o c) =
      Stays-same (reconcile_delete-Deletion env (fresh_world m o c)).status
  Step-Stays (edits m n e) = Stays-same e

  Step-MakesNone :
      {m n : NcxInfraMachine} {l : List Call}
      → Step U m l n
      → m.status.instance_id ≢ ""
      → MakesNone l
  Step-MakesNone (provisions e m o c) h =
      Course-MakesNone (reconcile_normal-Course e (fresh_world m o c)) refl h
  Step-MakesNone (deletes env m o c) h =
      subst MakesNone (sym (reconcile_delete-Deletion env (fresh_world m o c)).calls)
        (delete-MakesNone m.status.instance_id)
  Step-MakesNone (edits m n e) h = tt

  Life-Stays : {m n : NcxInfraMachine} {l : List Call} → Life U m l n → Stays m.status n.status
  Life-Stays (begins m) = Stays-same refl
  Life-Stays (lives_on life s) = Stays-trans (Life-Stays life) (Step-Stays s)

  Life-MakesNone :
      {m n : NcxInfraMachine} {l : List Call}
      → Life U m l n
      → m.status.instance_id ≢ ""
      → MakesNone l
  Life-MakesNone (begins m) h = tt
  Life-MakesNone (lives_on {before} {after} life s) h =
      MakesNone-append before after (Life-MakesNone life h)
        (Step-MakesNone s (λ e. h (sym ((Life-Stays life).instance h) ∙ e)))

  -- Once an instance is recorded, no later run, whatever the service answers and whatever others edit but
  -- the status, makes another one or changes its ID; and a machine that is ready stays ready.
  pub Life-settled :
      {m n : NcxInfraMachine} {calls : List Call}
      → Life U m calls n
      → (m.status.instance_id ≢ ""
          → (n.status.instance_id ≡ m.status.instance_id) × MakesNone calls)
        × (m.status.ready ≡ true → n.status.ready ≡ true)
  Life-settled life =
      ((λ h. ((Life-Stays life).instance h, Life-MakesNone life h)), (Life-Stays life).ready)
