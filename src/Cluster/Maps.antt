-- ===== src/Cluster/Maps.antt =====
-- The maps of the status stay maps: rules for each way in which
-- internal/controller/ncxinfracluster_controller.go puts steps together.
pub mod Frames
pub mod Provisioning
pub mod Deletion
use cluster_api_provider_nvi.Common.{
  String, Bool, true, false, List, [], ◌∷◌, ◌≡◌, refl, sym, ap, arith, if◌then◌else◌,
}
use cluster_api_provider_nvi.Common.Dict.{Dict, NodupKeys}
use cluster_api_provider_nvi.Common.Exec.{
  Outcome, ok, failed, panic, continue, pure, fail, gets, ◌>>=◌, on_failure, finish, for_each,
}
use cluster_api_provider_nvi.Api.Meta.{Condition}
use cluster_api_provider_nvi.Api.Cluster.{NcxInfraCluster}
use cluster_api_provider_nvi.Kube.{Env}
use cluster_api_provider_nvi.Cluster.Scope.{ClusterWorld, ClusterExec, with_condition}
use cluster_api_provider_nvi.Cluster.Subnets.{wrap_exec}
use cluster_api_provider_nvi.Cluster.Delete.Teardown.{HasMaps}
use cluster_api_provider_nvi.Cluster.Keeps.{Keeps}
use cluster_api_provider_nvi.Cluster.Normal.{guarded, mark, failure}
use mathlib.Core.Path.{subst}

abbrev pub HoldsMaps : ClusterWorld → Type 0
HoldsMaps w = HasMaps w.object.status

-- Whatever the outcome, no map has a key twice behind the step.
pub record KeepsMaps {A : Type 0} (m : ClusterExec A) : Type 0 where
  pub at : (w : ClusterWorld) → HoldsMaps w → HoldsMaps (m w).1

abbrev pub maps_of : NcxInfraCluster → Dict × (Dict × Dict)
maps_of o = let n = o.status.network_status in (n.vpc_peering_ids, (n.vpc_prefix_ids, n.subnet_ids))

with_condition-maps :
    (env : Env) (c : Condition) (w : ClusterWorld)
    → HoldsMaps w
    → HoldsMaps (with_condition env.kube c w)
with_condition-maps env c w h = record {
  peerings = h.peerings;
  prefixes = h.prefixes;
  subnets = h.subnets;
}

pub KeepsMaps-mark : (env : Env) (c : Condition) → KeepsMaps (mark env c)
unfolding mark
KeepsMaps-mark env c = record { at = with_condition-maps env c }

module _ {A : Type 0} where
  -- A step that leaves the maps alone.
  pub KeepsMaps-of : {m : ClusterExec A} → Keeps maps_of m → KeepsMaps m
  KeepsMaps-of {m} k = record {
    at = λ w h.
        let same = sym (k.at w) in
        record {
          peerings = subst (λ r. NodupKeys r.0) same h.peerings;
          prefixes = subst (λ r. NodupKeys r.1.0) same h.prefixes;
          subnets = subst (λ r. NodupKeys r.1.1) same h.subnets;
        };
  }

  pub KeepsMaps-pure : (a : A) → KeepsMaps (pure a)
  KeepsMaps-pure a = record { at = λ w h. h }

  pub KeepsMaps-fail : (e : String) → KeepsMaps (fail {A = A} e)
  KeepsMaps-fail e = record { at = λ w h. h }

  pub KeepsMaps-gets : (f : ClusterWorld → A) → KeepsMaps (gets f)
  KeepsMaps-gets f = record { at = λ w h. h }

  pub KeepsMaps-if :
      (b : Bool) {m n : ClusterExec A} → KeepsMaps m → KeepsMaps n → KeepsMaps (if b then m else n)
  KeepsMaps-if true h k = h
  KeepsMaps-if false h k = k

  pub KeepsMaps-wrap_exec :
      (text : String) {m : ClusterExec A} → KeepsMaps m → KeepsMaps (wrap_exec text m)
  KeepsMaps-wrap_exec text h = record { at = λ w g. h.at w g }

  finish-maps :
      (g : String → ClusterWorld → ClusterWorld)
      → ((e : String) (w : ClusterWorld) → HoldsMaps w → HoldsMaps (g e w))
      → (r : Outcome String A) (w : ClusterWorld) → HoldsMaps w
      → HoldsMaps (finish g (r, w)).1
  finish-maps g k (ok a) w h = h
  finish-maps g k (failed e) w h = k e w h
  finish-maps g k panic w h = h

  pub KeepsMaps-guarded :
      (env : Env) (kind reason : String) (m : ClusterExec A)
      → KeepsMaps m
      → KeepsMaps (guarded env kind reason m)
  unfolding guarded
  KeepsMaps-guarded env kind reason m h = record {
    at = λ w g.
        finish-maps (λ e. with_condition env.kube (failure kind reason e))
          (λ e v k. with_condition-maps env (failure kind reason e) v k) (m w).0 (m w).1 (h.at w g);
  }

module _ {A B : Type 0} where
  continue-maps :
      (f : A → ClusterExec B)
      → ((a : A) → KeepsMaps (f a))
      → (r : Outcome String A) (w : ClusterWorld) → HoldsMaps w
      → HoldsMaps (continue r f w).1
  continue-maps f k (ok a) w h = (k a).at w h
  continue-maps f k (failed e) w h = h
  continue-maps f k panic w h = h

  pub KeepsMaps-bind :
      {m : ClusterExec A} {f : A → ClusterExec B}
      → KeepsMaps m
      → ((a : A) → KeepsMaps (f a))
      → KeepsMaps (m >>= f)
  KeepsMaps-bind {m} {f} h k = record { at = λ w g. continue-maps f k (m w).0 (m w).1 (h.at w g) }

module _ {A : Type 0} where
  pub KeepsMaps-for_each :
      {body : A → ClusterExec (Unit {0})}
      → ((a : A) → KeepsMaps (body a))
      → (xs : List A) → KeepsMaps (for_each body xs)
  unfolding for_each
  KeepsMaps-for_each k [] = record { at = λ w h. h }
  KeepsMaps-for_each k (x ∷ xs) = KeepsMaps-bind (k x) (λ _. KeepsMaps-for_each k xs)
