-- ===== src/Cluster/Normal/Provisioned.antt =====
-- What `reconcileNormal` of internal/controller/ncxinfracluster_controller.go has achieved when it
-- returns without an error.
use cluster_api_provider_nvi.Common.{
  String, List, [], ◌∷◌, none, ◌≡◌, ◌≢◌, refl, sym, ap, ◌∙◌, arith, All,
}
use cluster_api_provider_nvi.Common.Dict.{Dict, lookup}
use cluster_api_provider_nvi.Common.Exec.{gets, ◌>>◌}
use cluster_api_provider_nvi.Api.Cluster.{
  NcxInfraCluster, SubnetSpec, VpcPrefixSpec, VpcPeeringSpec,
}
use cluster_api_provider_nvi.Kube.{Env}
use cluster_api_provider_nvi.Cluster.Scope.{ClusterWorld, ClusterExec, site_id}
use cluster_api_provider_nvi.Cluster.Vpc.{reconcile_vpc}
use cluster_api_provider_nvi.Cluster.Allocation.{ensure_ip_block_and_allocation}
use cluster_api_provider_nvi.Cluster.Subnets.{reconcile_subnets, reconcile_vpc_peerings}
use cluster_api_provider_nvi.Cluster.Keeps.{Keeps-of}
use cluster_api_provider_nvi.Cluster.Yields.{
  Yields, Anywhere, Yields-any, Yields-bind, Yields-weaken, Yields-frame, Yields-on_failure,
  Yields-kept,
}
use cluster_api_provider_nvi.Cluster.Normal.{
  guarded, mark, success, prefixes_step, nsg_step, peerings_step, provision_peerings, provision_nsg,
  provision_prefixes, provision_subnets, provision_vpc, provision_allocation, provision,
}
use cluster_api_provider_nvi.Cluster.Normal.Stages.{
  mark-Keeps, provision_nsg-Keeps, provision_prefixes-Keeps,
}
use cluster_api_provider_nvi.Cluster.Normal.Recorded.{
  reconcile_subnets-HasSubnet, reconcile_vpc_prefixes-HasVpcPrefix,
  reconcile_vpc_peerings-HasVpcPeering,
}

pub guarded-Yields :
    {A : Type 0} (env : Env) (kind reason : String) (m : ClusterExec A) {P : ClusterWorld → Type 0}
    {Q : A → ClusterWorld → Type 0}
    → Yields P m Q
    → Yields P (guarded env kind reason m) Q
unfolding guarded
guarded-Yields env kind reason m y = Yields-on_failure _ m y

-- What is recorded of the peerings, of the subnets and of the prefixes, in terms of what is read.
abbrev AllPeerings : List VpcPeeringSpec × Dict → Type 0
AllPeerings (l, ids) = All (λ (s : VpcPeeringSpec). lookup s.peer_vpc_id ids ≢ none) l

abbrev peerings_read : NcxInfraCluster → List VpcPeeringSpec × Dict
peerings_read o = (o.spec.vpc_peerings, o.status.network_status.vpc_peering_ids)

abbrev AllPrefixes : List VpcPrefixSpec × Dict → Type 0
AllPrefixes (l, ids) = All (λ (s : VpcPrefixSpec). lookup s.name ids ≢ none) l

abbrev AllSubnets : String × (List SubnetSpec × Dict) → Type 0
AllSubnets (vpc, (l, ids)) = (vpc ≢ "") × All (λ (s : SubnetSpec). lookup s.name ids ≢ none) l

abbrev prefixes_read : NcxInfraCluster → List VpcPrefixSpec × Dict
prefixes_read o = (o.spec.vpc_prefixes, o.status.network_status.vpc_prefix_ids)

abbrev subnets_read : NcxInfraCluster → String × (List SubnetSpec × Dict)
subnets_read o = (o.status.vpc_id, (o.spec.subnets, o.status.network_status.subnet_ids))

All-nil : {A : Type 0} (P : A → Type 0) (xs : List A) → xs ≡ [] → All P xs
All-nil P [] e = tt
All-nil P (x ∷ xs) e = absurd (ground arith)

peerings_step-AllPeerings :
    (env : Env) (site : String) (l : List VpcPeeringSpec)
    → Yields
        (λ w. w.object.spec.vpc_peerings ≡ l)
        (peerings_step env site l)
        (λ _ w. AllPeerings (peerings_read w.object))
unfolding peerings_step
peerings_step-AllPeerings env site [] = record {
  at = λ w a w' p e. All-nil _ _ (sym (ap (λ r. (r.1).object.spec.vpc_peerings) e) ∙ p);
}
peerings_step-AllPeerings env site (x ∷ xs) =
    Yields-weaken (λ w p. tt) (λ a w q. q)
      (Yields-bind {P = Anywhere}
        (guarded env "VPCPeeringReady" "VPCPeeringReconcileFailed"
          (reconcile_vpc_peerings env site))
        (λ _. mark env (success "VPCPeeringReady" "VPCPeeringReady"))
        (guarded-Yields env _ _ _ (reconcile_vpc_peerings-HasVpcPeering env site))
        (λ _. Yields-kept {read = peerings_read} AllPeerings (mark-Keeps env (λ c w. refl) _)))

prefixes_step-AllPrefixes :
    (env : Env) (site : String) (l : List VpcPrefixSpec)
    → Yields
        (λ w. w.object.spec.vpc_prefixes ≡ l)
        (prefixes_step env site l)
        (λ _ w. AllPrefixes (prefixes_read w.object))
unfolding prefixes_step
prefixes_step-AllPrefixes env site [] = record {
  at = λ w a w' p e. All-nil _ _ (sym (ap (λ r. (r.1).object.spec.vpc_prefixes) e) ∙ p);
}
prefixes_step-AllPrefixes env site (x ∷ xs) =
    Yields-weaken (λ w p. tt) (λ a w q. q)
      (guarded-Yields env _ _ _ (reconcile_vpc_prefixes-HasVpcPrefix env site))

-- A list read from the object is the list of the object.
gets-Yields :
    {A : Type 0} (held : NcxInfraCluster → A)
    → Yields Anywhere (gets (λ w. held w.object)) (λ a w. held w.object ≡ a)
gets-Yields held = record { at = λ w a w' p e. ground arith }

provision_peerings-Yields :
    (env : Env) (site : String)
    → Yields Anywhere (provision_peerings env site) (λ _ w. AllPeerings (peerings_read w.object))
unfolding provision_peerings
provision_peerings-Yields env site =
    Yields-bind (gets (λ w. w.object.spec.vpc_peerings)) (peerings_step env site)
      (gets-Yields (λ o. o.spec.vpc_peerings)) (peerings_step-AllPeerings env site)

provision_nsg-Yields :
    (env : Env) (site : String)
    → Yields Anywhere (provision_nsg env site) (λ _ w. AllPeerings (peerings_read w.object))
unfolding provision_nsg
provision_nsg-Yields env site =
    Yields-bind {Q = λ _. Anywhere} (gets (λ w. w.object.spec.vpc.network_security_group))
      (λ o. nsg_step env site o >> provision_peerings env site) (Yields-any _)
      (λ o.
        Yields-bind (nsg_step env site o) (λ _. provision_peerings env site) (Yields-any _)
          (λ _. provision_peerings-Yields env site))

provision_prefixes-Yields :
    (env : Env) (site : String)
    → Yields Anywhere
        (provision_prefixes env site)
        (λ _ w. AllPrefixes (prefixes_read w.object) × AllPeerings (peerings_read w.object))
unfolding provision_prefixes
provision_prefixes-Yields env site =
    Yields-bind (gets (λ w. w.object.spec.vpc_prefixes))
      (λ l. prefixes_step env site l >> provision_nsg env site)
      (gets-Yields (λ o. o.spec.vpc_prefixes))
      (λ l.
        Yields-bind (prefixes_step env site l) (λ _. provision_nsg env site)
          (prefixes_step-AllPrefixes env site l)
          (λ _.
            Yields-weaken (λ w p. (p, tt)) (λ a w q. q)
              (Yields-frame {read = prefixes_read} AllPrefixes
                (Keeps-of (λ r. ((r.0.0.0.1.0).vpc_prefixes, r.1)) (provision_nsg-Keeps env site))
                (provision_nsg-Yields env site))))

provision_subnets-Yields :
    (env : Env) (site : String)
    → Yields Anywhere (provision_subnets env site) (λ _ w.
      AllSubnets (subnets_read w.object)
      × (AllPrefixes (prefixes_read w.object) × AllPeerings (peerings_read w.object)))
unfolding provision_subnets
provision_subnets-Yields env site =
    Yields-bind (guarded env "SubnetsReady" "SubnetReconcileFailed" (reconcile_subnets env site))
      (λ _. mark env (success "SubnetsReady" "SubnetsReady") >> provision_prefixes env site)
      (guarded-Yields env _ _ _ (reconcile_subnets-HasSubnet env site))
      (λ _.
        Yields-bind (mark env (success "SubnetsReady" "SubnetsReady"))
          (λ _. provision_prefixes env site)
          (Yields-kept {read = subnets_read} AllSubnets (mark-Keeps env (λ c w. refl) _))
          (λ _.
            Yields-weaken (λ w p. (p, tt)) (λ a w q. q)
              (Yields-frame {read = subnets_read} AllSubnets
                (Keeps-of (λ r. (r.0.1, ((r.0.0.1.0).subnets, r.1)))
                  (provision_prefixes-Keeps env site))
                (provision_prefixes-Yields env site))))

-- The network of a cluster that is there: an ID for the VPC, and one for every subnet, VPC prefix
-- and VPC peering of the spec.
pub record IsProvisioned (o : NcxInfraCluster) : Type 0 where
  pub vpc : o.status.vpc_id ≢ ""
  pub all_subnets :
      All
        (λ (s : SubnetSpec). lookup s.name o.status.network_status.subnet_ids ≢ none)
        o.spec.subnets
  pub all_prefixes :
      All
        (λ (s : VpcPrefixSpec). lookup s.name o.status.network_status.vpc_prefix_ids ≢ none)
        o.spec.vpc_prefixes
  pub all_peerings :
      All
        (λ (s : VpcPeeringSpec).
          lookup s.peer_vpc_id o.status.network_status.vpc_peering_ids ≢ none)
        o.spec.vpc_peerings

pub provision-IsProvisioned :
    (env : Env) → Yields Anywhere (provision env) (λ _ w. IsProvisioned w.object)
unfolding provision provision_allocation provision_vpc
provision-IsProvisioned env =
    Yields-bind {Q = λ _. Anywhere} (guarded env "VPCReady" "SiteNotFound" (site_id env))
      (provision_allocation env) (Yields-any _)
      (λ site.
        Yields-bind {Q = λ _. Anywhere}
          (guarded env "AllocationReady" "AllocationFailed"
            (ensure_ip_block_and_allocation env site))
          (λ _. mark env (success "AllocationReady" "AllocationReady") >> provision_vpc env site)
          (Yields-any _)
          (λ _.
            Yields-bind {Q = λ _. Anywhere} (mark env (success "AllocationReady" "AllocationReady"))
              (λ _. provision_vpc env site) (Yields-any _)
              (λ _.
                Yields-bind {Q = λ _. Anywhere}
                  (guarded env "VPCReady" "VPCReconcileFailed" (reconcile_vpc env site))
                  (λ _. mark env (success "VPCReady" "VPCReady") >> provision_subnets env site)
                  (Yields-any _)
                  (λ _.
                    Yields-bind {Q = λ _. Anywhere} (mark env (success "VPCReady" "VPCReady"))
                      (λ _. provision_subnets env site) (Yields-any _)
                      (λ _.
                        Yields-weaken (λ w p. p)
                          (λ a w q. record {
                            vpc = q.0.0;
                            all_subnets = q.0.1;
                            all_prefixes = q.1.0;
                            all_peerings = q.1.1;
                          })
                          (provision_subnets-Yields env site))))))
