-- ===== src/Cluster/Normal/Child.antt =====
-- The child IP block through `reconcileNormal` of internal/controller/ncxinfracluster_controller.go: a run
-- that returns without an error has one recorded.
use cluster_api_provider_nvi.Common.{
  String, List, [], ◌∷◌, Option, none, some, ◌≢◌, refl, arith, is_empty, is_empty_iff,
}
use cluster_api_provider_nvi.Common.Exec.{pure, gets}
use cluster_api_provider_nvi.Api.Cluster.{
  NcxInfraCluster, SubnetSpec, VpcPrefixSpec, VpcPeeringSpec, NsgSpec,
}
use cluster_api_provider_nvi.Kube.{Env}
use cluster_api_provider_nvi.Cluster.Scope.{
  ClusterWorld, ClusterExec, site_id, vpc_id, child_ip_block_id,
}
use cluster_api_provider_nvi.Cluster.Vpc.{reconcile_vpc}
use cluster_api_provider_nvi.Cluster.Nsg.{reconcile_nsg}
use cluster_api_provider_nvi.Cluster.Allocation.{
  verify_child_ip_block, ensure_parent_ip_block, ensure_allocation, query_child_ip_block,
  build_child_ip_block, ensure_ip_block_and_allocation,
}
use cluster_api_provider_nvi.Cluster.Subnets.{
  wrap_exec, reconcile_subnet, reconcile_vpc_prefix, reconcile_vpc_peering, reconcile_subnets,
  reconcile_vpc_prefixes, reconcile_vpc_peerings,
}
use cluster_api_provider_nvi.Cluster.Keeps.{
  Keeps, Keeps-gets, Keeps-bind, Keeps-if, Keeps-fail, Keeps-for_each, Keeps-pure,
}
use cluster_api_provider_nvi.Cluster.Yields.{
  Yields, Anywhere, Yields-any, Yields-bind, Yields-weaken, Yields-kept, Yields-guard,
  Yields-wrap_exec,
}
use cluster_api_provider_nvi.Cluster.Normal.{
  guarded, mark, success, prefixes_step, nsg_step, peerings_step, provision_peerings, provision_nsg,
  provision_prefixes, provision_subnets, provision_vpc, provision_allocation, provision,
}
use cluster_api_provider_nvi.Cluster.Normal.Stages.{mark-Keeps, guarded-Keeps}
use cluster_api_provider_nvi.Cluster.Normal.Provisioned.{guarded-Yields}

abbrev child_of : NcxInfraCluster → String
child_of o = o.status.network_status.child_ip_block_id

abbrev pub HasChild : ClusterWorld → Type 0
HasChild w = child_of w.object ≢ ""

-- The step leaves a child recorded, if it returns.
abbrev Holds : {A : Type 0} → ClusterExec A → Type 0
Holds m = Yields HasChild m (λ _. HasChild)

build-HasChild :
    (env : Env) (site : String) → Yields Anywhere (build_child_ip_block env site) (λ _. HasChild)
unfolding build_child_ip_block child_ip_block_id
build-HasChild env site =
    Yields-bind {Q = λ _. Anywhere} (ensure_parent_ip_block env site) _ (Yields-any _) (λ parent.
      Yields-bind {Q = λ _. Anywhere} (ensure_allocation env site parent) _ (Yields-any _) (λ _.
        Yields-bind {Q = λ _. Anywhere} (query_child_ip_block env) _ (Yields-any _)
          (λ _. record { at = λ w a w' p e. ground (arith, is_empty_iff (child_of w.object)) })))

verify-HasChild :
    (env : Env)
    → Yields Anywhere (verify_child_ip_block env) (λ present w. present ≢ none → HasChild w)
unfolding verify_child_ip_block
verify-HasChild env = record {
  at = λ w a w' p e there. ground (arith, is_empty_iff (child_of w.object));
}

choose-HasChild :
    (env : Env) (site : String) (present : Option String)
    → Yields
        (λ w. present ≢ none → HasChild w)
        (elim present [ some child ↦ pure child | none ↦ build_child_ip_block env site ])
        (λ _. HasChild)
choose-HasChild env site none = Yields-weaken (λ w p. tt) (λ a w q. q) (build-HasChild env site)
choose-HasChild env site (some child) = record { at = λ w a w' p e. ground (arith, p) }

ensure-HasChild :
    (env : Env) (site : String)
    → Yields Anywhere (ensure_ip_block_and_allocation env site) (λ _. HasChild)
unfolding ensure_ip_block_and_allocation
ensure-HasChild env site =
    Yields-bind (verify_child_ip_block env) _ (verify-HasChild env) (choose-HasChild env site)

module _ (env : Env) where
  reconcile_vpc-child : (site : String) → Keeps child_of (reconcile_vpc env site)
  unfolding reconcile_vpc
  reconcile_vpc-child site = record { at = λ w. grind arith }

  reconcile_subnet-child :
      (vpc child : String) (s : SubnetSpec) → Keeps child_of (reconcile_subnet env vpc child s)
  unfolding reconcile_subnet
  reconcile_subnet-child vpc child s = record { at = λ w. grind arith }

  reconcile_vpc_prefix-child :
      (vpc child : String) (s : VpcPrefixSpec)
      → Keeps child_of (reconcile_vpc_prefix env vpc child s)
  unfolding reconcile_vpc_prefix
  reconcile_vpc_prefix-child vpc child s = record { at = λ w. grind arith }

  reconcile_vpc_peering-child :
      (site vpc : String) (s : VpcPeeringSpec)
      → Keeps child_of (reconcile_vpc_peering env site vpc s)
  unfolding reconcile_vpc_peering
  reconcile_vpc_peering-child site vpc s = record { at = λ w. grind arith }

  reconcile_nsg-child : (site : String) (s : NsgSpec) → Keeps child_of (reconcile_nsg env site s)
  unfolding reconcile_nsg
  reconcile_nsg-child site s = record { at = λ w. grind arith }

  nsg_step-child : (site : String) (s : Option NsgSpec) → Keeps child_of (nsg_step env site s)
  unfolding nsg_step
  nsg_step-child site none = Keeps-pure tt
  nsg_step-child site (some s) =
      Keeps-bind (guarded-Keeps env (λ c w. refl) _ _ _ (reconcile_nsg-child site s))
        (λ _. mark-Keeps env (λ c w. refl) _)

  reconcile_vpc_peerings-child : (site : String) → Keeps child_of (reconcile_vpc_peerings env site)
  unfolding reconcile_vpc_peerings
  reconcile_vpc_peerings-child site = Keeps-bind (Keeps-gets vpc_id) (λ vpc.
      Keeps-if (is_empty vpc) (Keeps-fail "VPC ID is empty") (
        Keeps-bind (Keeps-gets (λ w. w.object.spec.vpc_peerings))
          (Keeps-for_each (reconcile_vpc_peering-child site vpc))))

  peerings_step-child :
      (site : String) (l : List VpcPeeringSpec) → Keeps child_of (peerings_step env site l)
  unfolding peerings_step
  peerings_step-child site [] = Keeps-pure tt
  peerings_step-child site (p ∷ ps) =
      Keeps-bind (guarded-Keeps env (λ c w. refl) _ _ _ (reconcile_vpc_peerings-child site))
        (λ _. mark-Keeps env (λ c w. refl) _)

  provision_nsg-child : (site : String) → Keeps child_of (provision_nsg env site)
  unfolding provision_nsg provision_peerings
  provision_nsg-child site =
      Keeps-bind (Keeps-gets (λ w. w.object.spec.vpc.network_security_group)) (λ s.
        Keeps-bind (nsg_step-child site s) (λ _.
          Keeps-bind (Keeps-gets (λ w. w.object.spec.vpc_peerings)) (peerings_step-child site)))

  kept-Holds : {A : Type 0} {m : ClusterExec A} → Keeps child_of m → Holds m
  kept-Holds k = Yields-kept {read = child_of} (λ c. c ≢ "") k

  reconcile_subnets-HasChild :
      (site : String) → Yields Anywhere (reconcile_subnets env site) (λ _. HasChild)
  unfolding reconcile_subnets
  reconcile_subnets-HasChild site =
      Yields-bind {Q = λ _. Anywhere} (gets vpc_id) _ (Yields-any _) (λ vpc.
        Yields-weaken (λ w p. p) (λ a w q. q.1)
          (Yields-guard (is_empty vpc) "VPC ID is empty" _ {P = Anywhere} (
            Yields-bind
              (wrap_exec "failed to ensure IP block and allocation"
                (ensure_ip_block_and_allocation env site))
              _ (Yields-wrap_exec _ _ (ensure-HasChild env site))
              (λ child. kept-Holds (
                Keeps-bind (Keeps-gets (λ w. w.object.spec.subnets))
                  (Keeps-for_each (reconcile_subnet-child vpc child)))))))

  reconcile_vpc_prefixes-HasChild :
      (site : String) → Yields Anywhere (reconcile_vpc_prefixes env site) (λ _. HasChild)
  unfolding reconcile_vpc_prefixes
  reconcile_vpc_prefixes-HasChild site =
      Yields-bind {Q = λ _. Anywhere} (gets vpc_id) _ (Yields-any _) (λ vpc.
        Yields-weaken (λ w p. p) (λ a w q. q.1)
          (Yields-guard (is_empty vpc) "VPC ID is empty" _ {P = Anywhere} (
            Yields-bind
              (wrap_exec "failed to ensure IP block and allocation"
                (ensure_ip_block_and_allocation env site))
              _ (Yields-wrap_exec _ _ (ensure-HasChild env site))
              (λ child. kept-Holds (
                Keeps-bind (Keeps-gets (λ w. w.object.spec.vpc_prefixes))
                  (Keeps-for_each (reconcile_vpc_prefix-child vpc child)))))))

  prefixes_step-Holds : (site : String) (l : List VpcPrefixSpec) → Holds (prefixes_step env site l)
  unfolding prefixes_step
  prefixes_step-Holds site [] = kept-Holds (Keeps-pure tt)
  prefixes_step-Holds site (p ∷ ps) =
      Yields-weaken (λ w q. tt) (λ a w q. q)
        (guarded-Yields env _ _ _ (reconcile_vpc_prefixes-HasChild site))

  provision_prefixes-Holds : (site : String) → Holds (provision_prefixes env site)
  unfolding provision_prefixes
  provision_prefixes-Holds site =
      Yields-bind {Q = λ _. HasChild} (gets (λ w. w.object.spec.vpc_prefixes)) _
        (kept-Holds (Keeps-gets (λ w. w.object.spec.vpc_prefixes)))
        (λ l.
          Yields-bind {Q = λ _. HasChild} (prefixes_step env site l) _ (prefixes_step-Holds site l)
            (λ _. kept-Holds (provision_nsg-child site)))

  provision_subnets-HasChild :
      (site : String) → Yields Anywhere (provision_subnets env site) (λ _. HasChild)
  unfolding provision_subnets
  provision_subnets-HasChild site =
      Yields-bind {Q = λ _. HasChild}
        (guarded env "SubnetsReady" "SubnetReconcileFailed" (reconcile_subnets env site)) _
        (guarded-Yields env _ _ _ (reconcile_subnets-HasChild site))
        (λ _.
          Yields-bind {Q = λ _. HasChild} (mark env (success "SubnetsReady" "SubnetsReady")) _
            (kept-Holds (mark-Keeps env (λ c w. refl) _)) (λ _. provision_prefixes-Holds site))

  -- A provisioning that returns has recorded a child IP block.
  pub provision-HasChild : Yields Anywhere (provision env) (λ _. HasChild)
  unfolding provision provision_allocation provision_vpc
  provision-HasChild =
      Yields-bind {Q = λ _. Anywhere} (guarded env "VPCReady" "SiteNotFound" (site_id env)) _
        (Yields-any _)
        (λ site.
          Yields-bind {Q = λ _. Anywhere}
            (guarded env "AllocationReady" "AllocationFailed"
              (ensure_ip_block_and_allocation env site))
            _ (Yields-any _)
            (λ _.
              Yields-bind {Q = λ _. Anywhere}
                (mark env (success "AllocationReady" "AllocationReady")) _ (Yields-any _)
                (λ _.
                  Yields-bind {Q = λ _. Anywhere}
                    (guarded env "VPCReady" "VPCReconcileFailed" (reconcile_vpc env site)) _
                    (Yields-any _)
                    (λ _.
                      Yields-bind {Q = λ _. Anywhere} (mark env (success "VPCReady" "VPCReady")) _
                        (Yields-any _) (λ _. provision_subnets-HasChild site)))))
