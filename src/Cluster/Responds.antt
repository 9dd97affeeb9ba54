-- ===== src/Cluster/Responds.antt =====
-- What it takes for internal/controller/ncxinfracluster_controller.go to dereference no nil response:
-- one rule for each way in which it puts steps together.
pub mod Provisioning
pub mod Deletion
pub mod Entry
use cluster_api_provider_nvi.Common.{
  String, Bool, true, false, not, ◌&&◌, ◌||◌, List, [], ◌∷◌, Option, none, some, ◌≡◌, ◌≢◌, refl,
  arith, is_empty, is_nil, nat_eq, if◌then◌else◌,
}
use cluster_api_provider_nvi.Common.Exec.{
  Outcome, ok, failed, panic, continue, pure, fail, modify, gets, lift, ◌>>=◌, ◌>>◌, finish,
  on_failure, for_each,
}
use cluster_api_provider_nvi.Sdk.{Resource, Site}
use cluster_api_provider_nvi.Api.Meta.{Condition}
use cluster_api_provider_nvi.Sdk.Wire.{
  Call, Cloud, create_vpc, create_ip_block, create_subnet, create_vpc_prefix, create_vpc_peering,
  create_nsg, delete_vpc, delete_ip_block, delete_subnet, delete_vpc_prefix, delete_vpc_peering,
  delete_nsg, delete_allocation,
}
use cluster_api_provider_nvi.Api.Cluster.{SubnetSpec, VpcPrefixSpec, VpcPeeringSpec, NsgSpec}
use cluster_api_provider_nvi.Cidr.{parse_cidr}
use cluster_api_provider_nvi.Kube.{Env}
use cluster_api_provider_nvi.Cluster.Scope.{
  ClusterWorld, ClusterExec, site_id, find_site, vpc_id, with_finalizers,
}
use cluster_api_provider_nvi.Cluster.Vpc.{reconcile_vpc}
use cluster_api_provider_nvi.Cluster.Nsg.{reconcile_nsg}
use cluster_api_provider_nvi.Cluster.Allocation.{
  verify_child_ip_block, ensure_parent_ip_block, ensure_allocation, query_child_ip_block,
  build_child_ip_block, ensure_ip_block_and_allocation,
}
use cluster_api_provider_nvi.Cluster.Subnets.{
  wrap, wrap_exec, reconcile_subnet, reconcile_vpc_prefix, reconcile_vpc_peering, reconcile_subnets,
  reconcile_vpc_prefixes, reconcile_vpc_peerings,
}
use cluster_api_provider_nvi.Cluster.Delete.{cluster_finalizer}
use cluster_api_provider_nvi.Cluster.Normal.{
  guarded, mark, prefixes_step, nsg_step, peerings_step, provision_peerings, provision_nsg,
  provision_prefixes, provision_subnets, provision_vpc, provision_allocation, provision,
  announce_ready, reconcile_normal,
}

-- A reply without an error has a response, as the methods of the SDK document.
abbrev pub HasResponses : Cloud → Type 0
HasResponses cloud =
    (history : List Call) (c : Call) → (cloud history c).err ≡ none → (cloud history c).http ≢ none

-- The calls whose response is read without a test for nil: the creations but that of an allocation, and
-- the deletions.
abbrev pub reads_response : Call → Bool
reads_response (create_vpc r) = true
reads_response (create_ip_block r) = true
reads_response (create_subnet r) = true
reads_response (create_vpc_prefix r) = true
reads_response (create_vpc_peering r) = true
reads_response (create_nsg r) = true
reads_response (delete_vpc id) = true
reads_response (delete_ip_block id) = true
reads_response (delete_subnet id) = true
reads_response (delete_vpc_prefix id) = true
reads_response (delete_vpc_peering id) = true
reads_response (delete_nsg id) = true
reads_response (delete_allocation id) = true
reads_response _ = false

-- These calls are answered with a response where there is no error.
abbrev pub HasReadResponses : Cloud → Type 0
HasReadResponses cloud =
    (history : List Call) (c : Call)
    → reads_response c ≡ true
    → (cloud history c).err ≡ none
    → (cloud history c).http ≢ none

-- The step never dereferences nil.
pub record IsSafe {A : Type 0} (m : ClusterExec A) : Type 0 where
  pub at : (w : ClusterWorld) → (m w).0 ≢ panic

module _ {A B : Type 0} where
  continue-IsSafe :
      (r : Outcome String A) (f : A → ClusterExec B) (w : ClusterWorld)
      → r ≢ panic
      → ((a : A) → IsSafe (f a))
      → (continue r f w).0 ≢ panic
  continue-IsSafe (ok a) f w h k = (k a).at w
  continue-IsSafe (failed e) f w h k = ground arith
  continue-IsSafe panic f w h k = absurd (h refl)

  pub IsSafe-bind :
      {m : ClusterExec A} {f : A → ClusterExec B}
      → IsSafe m
      → ((a : A) → IsSafe (f a))
      → IsSafe (m >>= f)
  IsSafe-bind {m} {f} k l = record { at = λ w. continue-IsSafe (m w).0 f (m w).1 (k.at w) l }

module _ {A : Type 0} where
  pub IsSafe-pure : (a : A) → IsSafe (pure a)
  IsSafe-pure a = record { at = λ w. ground arith }

  pub IsSafe-gets : (f : ClusterWorld → A) → IsSafe (gets f)
  IsSafe-gets f = record { at = λ w. ground arith }

  pub IsSafe-if :
      (b : Bool) {m n : ClusterExec A} → IsSafe m → IsSafe n → IsSafe (if b then m else n)
  IsSafe-if true k l = k
  IsSafe-if false k l = l

  pub IsSafe-fail : (e : String) → IsSafe (fail {A = A} e)
  IsSafe-fail e = record { at = λ w. ground arith }

  finish-IsSafe :
      (g : String → ClusterWorld → ClusterWorld) (r : Outcome String A) (w : ClusterWorld)
      → r ≢ panic
      → (finish g (r, w)).0 ≢ panic
  finish-IsSafe g (ok a) w h = ground arith
  finish-IsSafe g (failed e) w h = ground arith
  finish-IsSafe g panic w h = absurd (h refl)

  pub IsSafe-guarded :
      (env : Env) (kind reason : String) {m : ClusterExec A}
      → IsSafe m
      → IsSafe (guarded env kind reason m)
  unfolding guarded
  IsSafe-guarded env kind reason {m} k = record {
    at = λ w. finish-IsSafe _ (m w).0 (m w).1 (k.at w);
  }

  pub IsSafe-wrap : (text : String) (r : Outcome String A) → r ≢ panic → wrap text r ≢ panic
  IsSafe-wrap text (ok a) h = ground arith
  IsSafe-wrap text (failed e) h = ground arith
  IsSafe-wrap text panic h = absurd (h refl)

  pub IsSafe-wrap_exec : (text : String) {m : ClusterExec A} → IsSafe m → IsSafe (wrap_exec text m)
  IsSafe-wrap_exec text {m} k = record { at = λ w. IsSafe-wrap text (m w).0 (k.at w) }

pub IsSafe-modify : (f : ClusterWorld → ClusterWorld) → IsSafe (modify f)
IsSafe-modify f = record { at = λ w. ground arith }

module _ {A : Type 0} where
  pub IsSafe-for_each :
      {body : A → ClusterExec (Unit {0})}
      → ((a : A) → IsSafe (body a))
      → (xs : List A) → IsSafe (for_each body xs)
  unfolding for_each
  IsSafe-for_each k [] = IsSafe-pure tt
  IsSafe-for_each k (x ∷ xs) = IsSafe-bind (k x) (λ _. IsSafe-for_each k xs)
