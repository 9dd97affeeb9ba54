-- ===== src/Cluster/Returns/Based.antt =====
-- The elements of the loops in internal/controller/ncxinfracluster_controller.go before a willing service,
-- on a cluster that the webhook admits.
use cluster_api_provider_nvi.Common.{
  ℕ, String, Bool, true, false, List, [], ◌∷◌, ◌≡◌, ◌≢◌, refl, ap, sym, ◌∙◌, arith, All, is_empty,
  is_empty_iff, if◌then◌else◌, Option-cases, inl, inr,
}
use cluster_api_provider_nvi.Common.Exec.{ok, gets, ◌>>=◌, for_each}
use cluster_api_provider_nvi.Api.Meta.{Condition}
use cluster_api_provider_nvi.Api.Cluster.{
  NcxInfraClusterSpec, SubnetSpec, VpcPrefixSpec, VpcPeeringSpec,
}
use cluster_api_provider_nvi.Cidr.{net_parse_cidr, parse_cidr}
use cluster_api_provider_nvi.Webhook.Cluster.Accepts.{IsCidr, IsSubnet, IsVpcPrefix, IsAcceptable}
use cluster_api_provider_nvi.Kube.{Env}
use cluster_api_provider_nvi.Cluster.Scope.{ClusterWorld, ClusterExec}
use cluster_api_provider_nvi.Cluster.Allocation.{ensure_ip_block_and_allocation}
use cluster_api_provider_nvi.Cluster.Subnets.{
  reconcile_subnet, reconcile_vpc_prefix, reconcile_vpc_peering,
}
use cluster_api_provider_nvi.Cluster.Keeps.{Keeps, Keeps-of}
use cluster_api_provider_nvi.Cluster.Normal.{mark}
use cluster_api_provider_nvi.Cluster.Normal.Frames.{
  with_vpc, ensure_ip_block_and_allocation-Keeps, reconcile_subnet-Keeps,
  reconcile_vpc_prefix-Keeps, reconcile_vpc_peering-Keeps,
}
use cluster_api_provider_nvi.Cluster.Returns.{
  Returns, Returns-bind, Returns-kept, Returns-gets, Returns-for_each,
}
use cluster_api_provider_nvi.Cluster.Returns.Willing.{IsWilling}
use cluster_api_provider_nvi.Cluster.Returns.Source.{ensure-Returns}
use cluster_api_provider_nvi.Cluster.Returns.Steps.{
  reconcile_subnet-Returns, reconcile_vpc_prefix-Returns, reconcile_vpc_peering-Returns,
}
use mathlib.Core.Path.{subst}

-- The controller's parser takes what the webhook's takes.
abbrev Parses : String → Type 0
Parses cidr = (n : ℕ) × (parse_cidr cidr ≡ ok n)

IsCidr-Parses : (cidr : String) → IsCidr cidr → Parses cidr
unfolding parse_cidr
IsCidr-Parses cidr h = elim (Option-cases (net_parse_cidr cidr)) [
  | inl e ↦ absurd (h.1 e)
  | inr (n, e) ↦ (n, ground arith)
]

-- The spec is still the one that was admitted; later on, the VPC is recorded too.
abbrev pub HasSpec : NcxInfraClusterSpec → ClusterWorld → Type 0
HasSpec s w = w.object.spec ≡ s

abbrev pub IsBased : NcxInfraClusterSpec → ClusterWorld → Type 0
IsBased s w = (w.object.spec ≡ s) × (w.object.status.vpc_id ≢ "")

choose-Returns :
    {A : Type 0} {P : ClusterWorld → Type 0} {Q : A → ClusterWorld → Type 0} (b : Bool)
    (m n : ClusterExec A) (w : ClusterWorld)
    → P w
    → b ≡ false
    → Returns P n Q
    → (a : A) × (((if b then m else n) w).0 ≡ ok a) × Q a ((if b then m else n) w).1
choose-Returns true m n w p e h = absurd (ground (arith, e))
choose-Returns false m n w p e h = h.at w p

pub Returns-filled :
    {A : Type 0} {P : ClusterWorld → Type 0} {Q : A → ClusterWorld → Type 0} (vpc : String)
    (m n : ClusterExec A)
    → ((w : ClusterWorld) → P w → vpc ≢ "")
    → Returns P n Q
    → Returns P (if is_empty vpc then m else n) Q
Returns-filled vpc m n filled h = record {
  at = λ w p.
      let v = filled w p in
      choose-Returns (is_empty vpc) m n w p (ground (arith, is_empty_iff vpc)) h;
}

pub All-any : {A : Type 0} (xs : List A) → All (λ _. Unit {0}) xs
All-any [] = tt
All-any (x ∷ xs) = (tt, All-any xs)

module _ (env : Env) (s : NcxInfraClusterSpec) (h : IsWilling s env.cloud)
    (good : IsAcceptable s) where
  pub mark-Returns : (c : Condition) → Returns (IsBased s) (mark env c) (λ _. IsBased s)
  unfolding mark
  mark-Returns c = record { at = λ w p. (tt, refl, p) }

  pub based :
      {A : Type 0} {m : ClusterExec A}
      → Keeps with_vpc m
      → ((w : ClusterWorld) → IsBased s w → (a : A) × ((m w).0 ≡ ok a))
      → Returns (IsBased s) m (λ _. IsBased s)
  based k total = Returns-kept {read = with_vpc} (λ r. (r.0.1.0 ≡ s) × (r.1 ≢ "")) k total

  pub ensure-IsBased :
      (site : String)
      → Returns (IsBased s) (ensure_ip_block_and_allocation env site) (λ _. IsBased s)
  ensure-IsBased site =
      based (Keeps-of (λ r. r.0.0) (ensure_ip_block_and_allocation-Keeps env site))
        (λ w p. let (a, e, q) = (ensure-Returns env s h site).at w tt in (a, e))

  -- A loop over what the spec lists.
  pub loop-Returns :
      {A : Type 0} (body : A → ClusterExec (Unit {0})) (G : A → Type 0)
      (held : NcxInfraClusterSpec → List A)
      → ((x : A) → G x → Returns (IsBased s) (body x) (λ _. IsBased s))
      → All G (held s)
      → Returns (IsBased s) (gets (λ w. held w.object.spec) >>= for_each body) (λ _. IsBased s)
  loop-Returns body G held step all =
      Returns-bind (gets (λ w. held w.object.spec)) (for_each body) (Returns-gets _) (λ xs. record {
        at = λ w (e, p).
            (Returns-for_each body G step xs (subst (All G) (sym (ap held p.0) ∙ e) all)).at w p;
      })

  pub subnet-IsBased :
      (vpc child : String) (x : SubnetSpec)
      → IsSubnet x
      → Returns (IsBased s) (reconcile_subnet env vpc child x) (λ _. IsBased s)
  subnet-IsBased vpc child x g =
      let (n, parsed) = IsCidr-Parses x.cidr g.1 in
      based (reconcile_subnet-Keeps env vpc child x)
        (λ w p. (tt, reconcile_subnet-Returns env s h vpc child x n parsed w))

  pub prefix-IsBased :
      (vpc child : String) (x : VpcPrefixSpec)
      → IsVpcPrefix x
      → Returns (IsBased s) (reconcile_vpc_prefix env vpc child x) (λ _. IsBased s)
  prefix-IsBased vpc child x g =
      let (n, parsed) = IsCidr-Parses x.cidr g.1 in
      based (Keeps-of (λ r. r.0) (reconcile_vpc_prefix-Keeps env vpc child x))
        (λ w p. (tt, reconcile_vpc_prefix-Returns env s h vpc child x n parsed w))

  pub peering-IsBased :
      (site vpc : String) (x : VpcPeeringSpec)
      → Returns (IsBased s) (reconcile_vpc_peering env site vpc x) (λ _. IsBased s)
  peering-IsBased site vpc x =
      based (Keeps-of (λ r. r.0.0) (reconcile_vpc_peering-Keeps env site vpc x))
        (λ w p. (tt, reconcile_vpc_peering-Returns env s h site vpc x w))
