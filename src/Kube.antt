-- ===== src/Kube.antt =====
-- What the controllers take from controller-runtime and the Cluster API utilities: finalizers
-- (controllerutil) and conditions (util/conditions). They are parameters with their documented laws.
use cluster_api_provider_nvi.Common.{String, Bool, true, false, List, Option, some, ◌≡◌, ◌≢◌}
use cluster_api_provider_nvi.Api.Meta.{Condition}
use cluster_api_provider_nvi.Sdk.Wire.{Cloud}

pub record Kube : Type 0 where
  pub contains_finalizer : List String → String → Bool
  pub add_finalizer : List String → String → List String
  pub remove_finalizer : List String → String → List String
  pub set_condition : Condition → List Condition → List Condition
  -- The condition of a type, `conditions.Get`.
  pub get_condition : String → List Condition → Option Condition

pub record IsLawful (k : Kube) : Type 0 where
  pub contains-add :
      (fs : List String) (f : String) → k.contains_finalizer (k.add_finalizer fs f) f ≡ true
  pub contains-remove :
      (fs : List String) (f : String) → k.contains_finalizer (k.remove_finalizer fs f) f ≡ false
  pub get-set :
      (c : Condition) (cs : List Condition) → k.get_condition c.kind (k.set_condition c cs) ≡ some c
  pub get-set_other :
      (c : Condition) (cs : List Condition) (kind : String)
      → kind ≢ c.kind
      → k.get_condition kind (k.set_condition c cs) ≡ k.get_condition kind cs

-- What a reconciler is built with: the service, the utilities, and whether a Recorder is set.
pub record Env : Type 0 where
  pub cloud : Cloud
  pub kube : Kube
  pub recorder : Bool

-- The answer of the Kubernetes API to `Get`.
pub data Fetched {ℓ} (A : Type ℓ) : Type ℓ where
  found : A → Fetched A
  not_found : Fetched A
  broken : String → Fetched A
