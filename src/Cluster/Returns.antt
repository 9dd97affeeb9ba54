-- ===== src/Cluster/Returns.antt =====
-- Steps of internal/controller/ncxinfracluster_controller.go that return without an error: rules for each
-- way of putting them together.
pub mod Willing
pub mod Source
pub mod Steps
pub mod Based
pub mod Stages
pub mod Admitted
use cluster_api_provider_nvi.Common.{
  String, Bool, true, false, List, [], ◌∷◌, ◌≡◌, refl, sym, ap, arith, All, if◌then◌else◌,
}
use cluster_api_provider_nvi.Common.Exec.{
  Outcome, ok, failed, panic, continue, pure, gets, modify, ◌>>=◌, finish, for_each,
}
use cluster_api_provider_nvi.Api.Meta.{Condition}
use cluster_api_provider_nvi.Kube.{Env}
use cluster_api_provider_nvi.Cluster.Scope.{ClusterWorld, ClusterExec}
use cluster_api_provider_nvi.Cluster.Subnets.{wrap, wrap_exec}
use cluster_api_provider_nvi.Cluster.Keeps.{Keeps}
use cluster_api_provider_nvi.Api.Cluster.{NcxInfraCluster}
use mathlib.Core.Path.{subst}
use cluster_api_provider_nvi.Cluster.Normal.{guarded, mark}

-- From a world with `P` the step returns some `a`, and `Q a` holds behind it.
pub record Returns {A : Type 0} (P : ClusterWorld → Type 0) (m : ClusterExec A)
    (Q : A → ClusterWorld → Type 0) : Type 0 where
  pub at : (w : ClusterWorld) → P w → (a : A) × ((m w).0 ≡ ok a) × Q a (m w).1

module _ {A B : Type 0} where
  continue-Returns :
      {Q : A → ClusterWorld → Type 0} {R : B → ClusterWorld → Type 0} (f : A → ClusterExec B)
      (r : Outcome String A) (w : ClusterWorld) (a : A)
      → r ≡ ok a
      → Q a w
      → ((x : A) → Returns (Q x) (f x) R)
      → (b : B) × ((continue r f w).0 ≡ ok b) × R b (continue r f w).1
  continue-Returns f r w a e q k = rw e ((k a).at w q)

  pub Returns-bind :
      {P : ClusterWorld → Type 0} {Q : A → ClusterWorld → Type 0} {R : B → ClusterWorld → Type 0}
      (m : ClusterExec A) (f : A → ClusterExec B)
      → Returns P m Q
      → ((x : A) → Returns (Q x) (f x) R)
      → Returns P (m >>= f) R
  Returns-bind m f h k = record {
    at = λ w p. let (a, e, q) = h.at w p in continue-Returns f (m w).0 (m w).1 a e q k;
  }

module _ {A : Type 0} where
  pub Returns-weaken :
      {P P' : ClusterWorld → Type 0} {Q Q' : A → ClusterWorld → Type 0} {m : ClusterExec A}
      → ((w : ClusterWorld) → P w → P' w)
      → ((a : A) (w : ClusterWorld) → Q' a w → Q a w)
      → Returns P' m Q'
      → Returns P m Q
  Returns-weaken f g h = record { at = λ w p. let (a, e, q) = h.at w (f w p) in (a, e, g a _ q) }

  finish-Returns :
      (Q : A → ClusterWorld → Type 0) (g : String → ClusterWorld → ClusterWorld)
      (r : Outcome String A) (w : ClusterWorld) (a : A)
      → r ≡ ok a
      → Q a w
      → (b : A) × ((finish g (r, w)).0 ≡ ok b) × Q b (finish g (r, w)).1
  finish-Returns Q g r w a e q = rw e (a, refl, q)

  pub Returns-guarded :
      {P : ClusterWorld → Type 0} {Q : A → ClusterWorld → Type 0} (env : Env) (kind reason : String)
      (m : ClusterExec A)
      → Returns P m Q
      → Returns P (guarded env kind reason m) Q
  unfolding guarded
  Returns-guarded {Q} env kind reason m h = record {
    at = λ w p. let (a, e, q) = h.at w p in finish-Returns Q _ (m w).0 (m w).1 a e q;
  }

  pub Returns-wrap_exec :
      {P : ClusterWorld → Type 0} {Q : A → ClusterWorld → Type 0} (text : String)
      (m : ClusterExec A)
      → Returns P m Q
      → Returns P (wrap_exec text m) Q
  Returns-wrap_exec text m h = record {
    at = λ w p. let (a, e, q) = h.at w p in (a, ap (wrap text) e, q);
  }

  -- A step that returns wherever `R` holds of what it leaves alone.
  pub Returns-kept :
      {X : Type 0} {read : NcxInfraCluster → X} {m : ClusterExec A} (R : X → Type 0)
      → Keeps read m
      → ((w : ClusterWorld) → R (read w.object) → (a : A) × ((m w).0 ≡ ok a))
      → Returns (λ w. R (read w.object)) m (λ _ w. R (read w.object))
  Returns-kept {read} R k h = record {
    at = λ w p. let (a, e) = h w p in (a, e, subst R (sym (k.at w)) p);
  }

  pub Returns-pure : {P : ClusterWorld → Type 0} (a : A) → Returns P (pure a) (λ _. P)
  Returns-pure a = record { at = λ w p. (a, refl, p) }

  pub Returns-gets :
      {P : ClusterWorld → Type 0} (f : ClusterWorld → A)
      → Returns P (gets f) (λ a w. (f w ≡ a) × P w)
  Returns-gets f = record { at = λ w p. (f w, refl, (refl, p)) }

  -- A loop whose body returns for each element, with an invariant.
  pub Returns-for_each :
      {P : ClusterWorld → Type 0} (body : A → ClusterExec (Unit {0})) (G : A → Type 0)
      → ((x : A) → G x → Returns P (body x) (λ _. P))
      → (xs : List A) → All G xs
      → Returns P (for_each body xs) (λ _. P)
  unfolding for_each
  Returns-for_each body G h [] g = record { at = λ w p. (tt, refl, p) }
  Returns-for_each body G h (x ∷ xs) (g, gs) =
      Returns-bind (body x) _ (h x g) (λ _. Returns-for_each body G h xs gs)
