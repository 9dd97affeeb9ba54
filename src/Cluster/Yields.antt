-- ===== src/Cluster/Yields.antt =====
-- What holds when a step of the cluster controller returns without an error: rules for the way in
-- which internal/controller/ncxinfracluster_controller.go puts steps together.
use cluster_api_provider_nvi.Common.{
  String, Bool, true, false, List, [], ◌∷◌, ◌≡◌, refl, sym, ap, ◌∙◌, arith, All, if◌then◌else◌,
}
use cluster_api_provider_nvi.Common.Exec.{
  Outcome, ok, failed, panic, fail, gets, continue, ◌>>=◌, finish, on_failure, for_each,
}
use cluster_api_provider_nvi.Api.Cluster.{NcxInfraCluster}
use cluster_api_provider_nvi.Cluster.Scope.{ClusterWorld, ClusterExec}
use cluster_api_provider_nvi.Cluster.Keeps.{Keeps, Keeps-for_each}
use cluster_api_provider_nvi.Cluster.Subnets.{wrap, wrap_exec}
use mathlib.Core.Path.{subst}

-- Nothing is asked of the world.
abbrev pub Anywhere : ClusterWorld → Type 0
Anywhere w = Unit {0}

-- From a world with `P`, if `m` returns `a` then `Q a` holds behind it.
pub record Yields {A : Type 0} (P : ClusterWorld → Type 0) (m : ClusterExec A)
    (Q : A → ClusterWorld → Type 0) : Type 0 where
  pub at : (w : ClusterWorld) (a : A) (w' : ClusterWorld) → P w → m w ≡ (ok a, w') → Q a w'

module _ {A B : Type 0} where
  continue-Yields :
      (f : A → ClusterExec B) (Q : A → ClusterWorld → Type 0) (R : B → ClusterWorld → Type 0)
      → ((a : A) → Yields (Q a) (f a) R)
      → (r : Outcome String A) (w : ClusterWorld) → ((a : A) → r ≡ ok a → Q a w)
      → (b : B) (w' : ClusterWorld) → continue r f w ≡ (ok b, w')
      → R b w'
  continue-Yields f Q R k (ok a) w q b w' e = (k a).at w b w' (q a refl) e
  continue-Yields f Q R k (failed x) w q b w' e = absurd (ground arith)
  continue-Yields f Q R k panic w q b w' e = absurd (ground arith)

  pub Yields-bind :
      {P : ClusterWorld → Type 0} {Q : A → ClusterWorld → Type 0} {R : B → ClusterWorld → Type 0}
      (m : ClusterExec A) (f : A → ClusterExec B)
      → Yields P m Q
      → ((a : A) → Yields (Q a) (f a) R)
      → Yields P (m >>= f) R
  Yields-bind {P} {Q} {R} m f k l = record {
    at = λ w b w' p e.
        continue-Yields f Q R l (m w).0 (m w).1
          (λ a same. k.at w a (m w).1 p (ap (λ r. (r, (m w).1)) same)) b w' e;
  }

module _ {A : Type 0} where
  pub Yields-any : {P : ClusterWorld → Type 0} (m : ClusterExec A) → Yields P m (λ _ _. Unit {0})
  Yields-any m = record { at = λ w a w' p e. tt }

  pub Yields-weaken :
      {P P' : ClusterWorld → Type 0} {Q Q' : A → ClusterWorld → Type 0} {m : ClusterExec A}
      → ((w : ClusterWorld) → P w → P' w)
      → ((a : A) (w : ClusterWorld) → Q' a w → Q a w)
      → Yields P' m Q'
      → Yields P m Q
  Yields-weaken f g k = record { at = λ w a w' p e. g a w' (k.at w a w' (f w p) e) }

  -- What a step leaves alone may be carried over it.
  pub Yields-frame :
      {X : Type 0} {read : NcxInfraCluster → X} {m : ClusterExec A} (R : X → Type 0)
      {P : ClusterWorld → Type 0} {Q : A → ClusterWorld → Type 0}
      → Keeps read m
      → Yields P m Q
      → Yields (λ w. R (read w.object) × P w) m (λ a w. R (read w.object) × Q a w)
  Yields-frame {read} R k y = record {
    at = λ w a w' p e.
        (subst R (sym (k.at w) ∙ ap (λ r. read (r.1).object) e) p.0, y.at w a w' p.1 e);
  }

  finish-ok :
      (h : String → ClusterWorld → ClusterWorld) (r : Outcome String A × ClusterWorld) (a : A)
      (w : ClusterWorld)
      → finish h r ≡ (ok a, w)
      → r ≡ (ok a, w)
  finish-ok h (ok b, v) a w e = e
  finish-ok h (failed x, v) a w e = absurd (ground arith)
  finish-ok h (panic, v) a w e = absurd (ground arith)

  pub Yields-on_failure :
      (h : String → ClusterWorld → ClusterWorld) (m : ClusterExec A) {P : ClusterWorld → Type 0}
      {Q : A → ClusterWorld → Type 0}
      → Yields P m Q
      → Yields P (on_failure h m) Q
  unfolding on_failure
  Yields-on_failure h m y = record { at = λ w a w' p e. y.at w a w' p (finish-ok h (m w) a w' e) }

  wrap-ok :
      (text : String) (r : Outcome String A) (w : ClusterWorld) (a : A) (w' : ClusterWorld)
      → ◌≡◌ {A = Outcome String A × ClusterWorld} (wrap text r, w) (ok a, w')
      → ◌≡◌ {A = Outcome String A × ClusterWorld} (r, w) (ok a, w')
  wrap-ok text (ok b) w a w' e = e
  wrap-ok text (failed x) w a w' e = absurd (ground arith)
  wrap-ok text panic w a w' e = absurd (ground arith)

  pub Yields-wrap_exec :
      (text : String) (m : ClusterExec A) {P : ClusterWorld → Type 0}
      {Q : A → ClusterWorld → Type 0}
      → Yields P m Q
      → Yields P (wrap_exec text m) Q
  Yields-wrap_exec text m y = record {
    at = λ w a w' p e. y.at w a w' p (wrap-ok text (m w).0 (m w).1 a w' e);
  }

  module _ (body : A → ClusterExec (Unit {0})) (G : A → ClusterWorld → Type 0)
      (own : (x : A) → Yields Anywhere (body x) (λ _ w. G x w))
      (others : (x y : A) → Yields (G y) (body x) (λ _ w. G y w)) where
    for_each-Keeps : (y : A) (xs : List A) → Yields (G y) (for_each body xs) (λ _ w. G y w)
    unfolding for_each
    for_each-Keeps y [] = record { at = λ w a w' p e. subst (G y) (ap (λ r. r.1) e) p }
    for_each-Keeps y (x ∷ xs) =
        Yields-bind (body x) (λ _. for_each body xs) (others x y) (λ _. for_each-Keeps y xs)

    for_each-cons :
        (x : A) (xs : List A)
        → Yields Anywhere (for_each body xs) (λ _ w. All (λ y. G y w) xs)
        → Yields (G x) (for_each body xs) (λ _ w. G x w × All (λ y. G y w) xs)
    for_each-cons x xs rest = record {
      at = λ w a w' p e. ((for_each-Keeps x xs).at w a w' p e, rest.at w a w' tt e);
    }

    -- A loop whose body achieves its goal for the element and spoils it for no other.
    pub for_each-All :
        (xs : List A) → Yields Anywhere (for_each body xs) (λ _ w. All (λ y. G y w) xs)
    unfolding for_each
    for_each-All [] = record { at = λ w a w' p e. tt }
    for_each-All (x ∷ xs) =
        Yields-bind (body x) (λ _. for_each body xs) (own x)
          (λ _. for_each-cons x xs (for_each-All xs))

    -- The loop over a list that the object holds and that the body leaves alone.
    pub for_each-All_held :
        (held : NcxInfraCluster → List A)
        → ((x : A) → Keeps held (body x))
        → Yields Anywhere
            (gets (λ w. held w.object) >>= for_each body)
            (λ _ w. All (λ y. G y w) (held w.object))
    for_each-All_held held keeps = record {
      at = λ w a w' p e.
          subst (All (λ y. G y w'))
            (sym ((Keeps-for_each keeps (held w.object)).at w) ∙ ap (λ r. held (r.1).object) e)
            ((for_each-All (held w.object)).at w a w' tt e);
    }

module _ {A : Type 0} where
  -- A guard that was passed did not hold.
  pub Yields-guard :
      (b : Bool) (text : String) (m : ClusterExec A) {P : ClusterWorld → Type 0}
      {Q : A → ClusterWorld → Type 0}
      → Yields P m Q
      → Yields P (if b then fail text else m) (λ a w. (b ≡ false) × Q a w)
  Yields-guard true text m k = record { at = λ w a w' p e. absurd (ground arith) }
  Yields-guard false text m k = record { at = λ w a w' p e. (refl, k.at w a w' p e) }

  -- What was true of the world is true behind a step that keeps what it reads.
  pub Yields-kept :
      {X : Type 0} {read : NcxInfraCluster → X} {m : ClusterExec A} (R : X → Type 0)
      → Keeps read m
      → Yields (λ w. R (read w.object)) m (λ _ w. R (read w.object))
  Yields-kept {read} R k = record {
    at = λ w a w' p e. subst R (sym (k.at w) ∙ ap (λ r. read (r.1).object) e) p;
  }
