-- ===== src/Cluster/Keeps.antt =====
-- Rules for what a step of the cluster controller leaves alone in its object, and for what holds
-- when it ends: one rule for each way in which internal/controller/ncxinfracluster_controller.go
-- puts steps together.
use cluster_api_provider_nvi.Common.{
  String, Bool, true, false, List, [], ◌∷◌, ◌≡◌, refl, sym, ap, ◌∙◌, if◌then◌else◌,
}
use cluster_api_provider_nvi.Common.Exec.{
  Outcome, ok, failed, panic, continue, pure, fail, lift, gets, modify, ◌>>=◌, finish, on_failure,
  for_each,
}
use cluster_api_provider_nvi.Api.Cluster.{NcxInfraCluster}
use cluster_api_provider_nvi.Sdk.Wire.{Call, Cloud, invoke}
use cluster_api_provider_nvi.Cluster.Scope.{ClusterWorld, ClusterExec}

-- Whatever the outcome, `read` reads the same of the object before and after.
pub record Keeps {X A : Type 0} (read : NcxInfraCluster → X) (m : ClusterExec A) : Type 0 where
  pub at : (w : ClusterWorld) → read (m w).1.object ≡ read w.object

module _ {X A : Type 0} (read : NcxInfraCluster → X) where
  finish-Keeps :
      (h : String → ClusterWorld → ClusterWorld)
      → ((e : String) (w : ClusterWorld) → read (h e w).object ≡ read w.object)
      → (r : Outcome String A) (w : ClusterWorld) → read (finish h (r, w)).1.object ≡ read w.object
  finish-Keeps h k (ok a) w = refl
  finish-Keeps h k (failed e) w = k e w
  finish-Keeps h k panic w = refl

module _ {X A : Type 0} {read : NcxInfraCluster → X} where
  pub Keeps-pure : (a : A) → Keeps read (pure {E = String} a)
  Keeps-pure a = record { at = λ w. refl }

  pub Keeps-fail : (e : String) → Keeps read (fail {A = A} e)
  Keeps-fail e = record { at = λ w. refl }

  pub Keeps-lift : (r : Outcome String A) → Keeps read (lift r)
  Keeps-lift r = record { at = λ w. refl }

  pub Keeps-gets : (f : ClusterWorld → A) → Keeps read (gets {E = String} f)
  Keeps-gets f = record { at = λ w. refl }

  pub Keeps-if :
      (b : Bool) {m n : ClusterExec A}
      → Keeps read m
      → Keeps read n
      → Keeps read (if b then m else n)
  Keeps-if true k l = k
  Keeps-if false k l = l

  pub Keeps-on_failure :
      (h : String → ClusterWorld → ClusterWorld) (m : ClusterExec A)
      → ((e : String) (w : ClusterWorld) → read (h e w).object ≡ read w.object)
      → Keeps read m
      → Keeps read (on_failure h m)
  unfolding on_failure
  Keeps-on_failure h m k l = record {
    at = λ w. let (r, w') = m w in finish-Keeps read h k r w' ∙ l.at w;
  }

module _ {X : Type 0} {read : NcxInfraCluster → X} where
  pub Keeps-modify :
      (f : ClusterWorld → ClusterWorld)
      → ((w : ClusterWorld) → read (f w).object ≡ read w.object)
      → Keeps read (modify {E = String} f)
  Keeps-modify f h = record { at = h }

  pub Keeps-invoke : (cloud : Cloud) (c : Call) → Keeps read (invoke {E = String} cloud c)
  unfolding invoke
  Keeps-invoke cloud c = record { at = λ w. refl }

module _ {X A B : Type 0} {read : NcxInfraCluster → X} where
  continue-Keeps :
      (f : A → ClusterExec B)
      → ((a : A) → Keeps read (f a))
      → (r : Outcome String A) (w : ClusterWorld) → read (continue r f w).1.object ≡ read w.object
  continue-Keeps f k (ok a) w = (k a).at w
  continue-Keeps f k (failed e) w = refl
  continue-Keeps f k panic w = refl

  pub Keeps-bind :
      {m : ClusterExec A} {f : A → ClusterExec B}
      → Keeps read m
      → ((a : A) → Keeps read (f a))
      → Keeps read (m >>= f)
  Keeps-bind {m} {f} k l = record {
    at = λ w. let (r, w') = m w in continue-Keeps f l r w' ∙ k.at w;
  }

module _ {X A : Type 0} {read : NcxInfraCluster → X} where
  pub Keeps-for_each :
      {body : A → ClusterExec (Unit {0})}
      → ((a : A) → Keeps read (body a))
      → (xs : List A) → Keeps read (for_each body xs)
  unfolding for_each
  Keeps-for_each k [] = Keeps-pure tt
  Keeps-for_each k (x ∷ xs) = Keeps-bind (k x) (λ _. Keeps-for_each k xs)

-- What is read of something left alone is left alone.
module _ {X Y A : Type 0} {read : NcxInfraCluster → X} {m : ClusterExec A} where
  pub Keeps-of : (f : X → Y) → Keeps read m → Keeps (λ o. f (read o)) m
  Keeps-of f k = record { at = λ w. ap f (k.at w) }

module _ {X A : Type 0} {read : NcxInfraCluster → X} {m : ClusterExec A} where
  pub Keeps-after :
      {r : Outcome String A × ClusterWorld}
      → Keeps read m
      → (w : ClusterWorld) → m w ≡ r
      → read (r.1).object ≡ read w.object
  Keeps-after k w e = sym (ap (λ p. read (p.1).object) e) ∙ k.at w
