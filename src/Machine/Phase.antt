-- ===== src/Machine/Phase.antt =====
-- The machine controller of internal/controller/ncxinframachine_controller.go as a small machine: what
-- a user of the NcxInfraMachine may count on. A view forgets all but the finalizer, the instance and the
-- readiness.
use cluster_api_provider_nvi.Common.{
  String, Bool, true, false, ◌≡◌, ◌⊎◌, inl, inr, sym, ap, ◌∙◌, arith,
}
use cluster_api_provider_nvi.Api.Machine.{NcxInfraMachine}
use cluster_api_provider_nvi.Sdk.Wire.{Cloud}
use cluster_api_provider_nvi.Kube.{Kube, Env, IsLawful}
use cluster_api_provider_nvi.Machine.Scope.{MachineWorld, MachineEnv}
use cluster_api_provider_nvi.Machine.Create.Attempt.{unmade, made}
use cluster_api_provider_nvi.Machine.Normal.{machine_finalizer, reconcile_normal}
use cluster_api_provider_nvi.Machine.Normal.Course.{
  Provision, reusing, attempting, Course, guarding, following, provisioning,
  reconcile_normal-Course,
}
use cluster_api_provider_nvi.Machine.Frame.{Frame}
use mathlib.Core.Path.{subst}

pub record View : Type 0 where
  pub guarded : Bool
  pub instance : String
  pub ready : Bool

abbrev pub view : Kube → NcxInfraMachine → View
view k m = record {
  guarded = k.contains_finalizer m.meta.finalizers machine_finalizer;
  instance = m.status.instance_id;
  ready = m.status.ready;
}

-- The moves: the finalizer is added, an instance is bound where none is, the machine gets ready. Under
-- the finalizer only, and there is no way back.
pub data Moved : View → View → Type 0 where
  guards :
      (i : String) (r : Bool)
      → Moved
          (record { guarded = false; instance = i; ready = r })
          (record { guarded = true; instance = i; ready = r })
  binds :
      (i : String) (r : Bool)
      → Moved
          (record { guarded = true; instance = ""; ready = r })
          (record { guarded = true; instance = i; ready = r })
  readies :
      (i : String) (r : Bool)
      → Moved
          (record { guarded = true; instance = i; ready = r })
          (record { guarded = true; instance = i; ready = true })

pub data Reaches : View → View → Type 0 where
  stays : (a : View) → Reaches a a
  moves : {a b c : View} → Reaches a b → Moved b c → Reaches a c

abbrev ReachesFrom : Bool → String → Bool → Bool → String → Bool → Type 0
ReachesFrom g i r g' i' r' =
    Reaches (record { guarded = g; instance = i; ready = r })
      (record { guarded = g'; instance = i'; ready = r' })

-- Under the finalizer, from a world to one with the instance that it had or a first one, and as ready or
-- more.
ReachesFrom-guarded :
    (i i' : String) (r r' : Bool)
    → (i ≡ "") ⊎ (i' ≡ i)
    → (r' ≡ r) ⊎ (r' ≡ true)
    → ReachesFrom true i r true i' r'
ReachesFrom-guarded i i' r r' (inl e) (inl f) =
    subst (λ x. ReachesFrom true x r true i' r') (sym e)
      (subst (λ x. ReachesFrom true "" r true i' x) (sym f) (moves (stays _) (binds i' r)))
ReachesFrom-guarded i i' r r' (inl e) (inr f) =
    subst (λ x. ReachesFrom true x r true i' r') (sym e)
      (subst (λ x. ReachesFrom true "" r true i' x) (sym f)
        (moves (moves (stays _) (binds i' r)) (readies i' r)))
ReachesFrom-guarded i i' r r' (inr e) (inl f) =
    subst (λ x. ReachesFrom true i r true x r') (sym e)
      (subst (λ x. ReachesFrom true i r true i x) (sym f) (stays _))
ReachesFrom-guarded i i' r r' (inr e) (inr f) =
    subst (λ x. ReachesFrom true i r true x r') (sym e)
      (subst (λ x. ReachesFrom true i r true i x) (sym f) (moves (stays _) (readies i r)))

module _ (k : Kube) where
  -- What the moves need to know of two worlds with the same finalizers.
  record Proceeds (w v : MachineWorld) : Type 0 where
    finalizers : v.object.machine.meta.finalizers ≡ w.object.machine.meta.finalizers
    instance :
        (w.object.machine.status.instance_id ≡ "")
        ⊎ (v.object.machine.status.instance_id ≡ w.object.machine.status.instance_id)
    ready :
        (v.object.machine.status.ready ≡ w.object.machine.status.ready)
        ⊎ (v.object.machine.status.ready ≡ true)

  Proceeds-Reaches :
      (w v : MachineWorld)
      → k.contains_finalizer w.object.machine.meta.finalizers machine_finalizer ≡ true
      → Proceeds w v
      → Reaches (view k w.object.machine) (view k v.object.machine)
  Proceeds-Reaches w v g p =
      let s = w.object.machine.status in
      let t = v.object.machine.status in
      let g' = ap (λ f. k.contains_finalizer f machine_finalizer) p.finalizers ∙ g in
      subst
        (λ x.
          ReachesFrom x s.instance_id s.ready
            (k.contains_finalizer v.object.machine.meta.finalizers machine_finalizer) t.instance_id
            t.ready)
        (sym g)
        (subst (λ x. ReachesFrom true s.instance_id s.ready x t.instance_id t.ready) (sym g')
          (ReachesFrom-guarded s.instance_id t.instance_id s.ready t.ready p.instance p.ready))

  Frame-Proceeds : {b : Bool} {w v : MachineWorld} → Frame b w v → Proceeds w v
  Frame-Proceeds f = record {
    finalizers = f.finalizers;
    instance = inr f.instance;
    ready = elim (f.readiness) [ inl e ↦ inl e | inr (b, e) ↦ inr e ];
  }

  Provision-Proceeds :
      {cloud : Cloud} {w v : MachineWorld}
      → w.object.machine.status.instance_id ≡ ""
      → Provision cloud w v
      → Proceeds w v
  Provision-Proceeds h (reusing u i id f listed known g) = record {
    finalizers = g.finalizers ∙ f.finalizers;
    instance = inl h;
    ready = let p = f.readiness in let q = g.readiness in ground arith;
  }
  Provision-Proceeds h (attempting none_listed (unmade f)) = Frame-Proceeds f
  Provision-Proceeds h (attempting none_listed (made u f c)) = record {
    finalizers = c.finalizers ∙ f.finalizers;
    instance = inl h;
    ready = let p = f.readiness in let q = c.ready in ground arith;
  }

guards-Reaches :
    (g g' : Bool) (i : String) (r : Bool) → g ≡ false → g' ≡ true → ReachesFrom g i r g' i r
guards-Reaches g g' i r e e' =
    subst (λ x. ReachesFrom x i r g' i r) (sym e)
      (subst (λ x. ReachesFrom false i r x i r) (sym e') (moves (stays _) (guards i r)))

Course-Reaches :
    (env : Env) (w v : MachineWorld)
    → IsLawful env.kube
    → Course env w v
    → Reaches (view env.kube w.object.machine) (view env.kube v.object.machine)
Course-Reaches env w v lawful (guarding h e) =
    let s = w.object.machine.status in
    subst (λ v. Reaches (view env.kube w.object.machine) (view env.kube v.object.machine)) (sym e)
      (guards-Reaches
        (env.kube.contains_finalizer w.object.machine.meta.finalizers machine_finalizer)
        (env.kube.contains_finalizer
          (env.kube.add_finalizer w.object.machine.meta.finalizers machine_finalizer)
          machine_finalizer)
        s.instance_id s.ready h
        (lawful.contains-add w.object.machine.meta.finalizers machine_finalizer))
Course-Reaches env w v lawful (following g h f) =
    Proceeds-Reaches env.kube w v g (Frame-Proceeds env.kube f)
Course-Reaches env w v lawful (provisioning g h p) =
    Proceeds-Reaches env.kube w v g (Provision-Proceeds env.kube h p)

-- A normal run is a sequence of the moves: seen from outside, it adds the finalizer, binds an instance
-- where none was bound, or gets ready, and the last two under the finalizer only.
pub reconcile_normal-Reaches :
    {U : Type 0} (e : MachineEnv U) (w : MachineWorld)
    → IsLawful e.env.kube
    → Reaches
        (view e.env.kube w.object.machine)
        (view e.env.kube (reconcile_normal e w).1.object.machine)
reconcile_normal-Reaches e w lawful =
    Course-Reaches (e.env) w (reconcile_normal e w).1 lawful (reconcile_normal-Course e w)
