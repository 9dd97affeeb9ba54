-- ===== src/Cluster/Reads/Stages.antt =====
-- The stages of `reconcileNormal` in internal/controller/ncxinfracluster_controller.go on a cluster that is
-- provisioned already.
use cluster_api_provider_nvi.Common.{
  String, List, [], ◌∷◌, ◌++◌, Option, none, some, ◌≡◌, refl, sym, ap, append-nil, arith,
  is_empty_iff,
}
use cluster_api_provider_nvi.Api.Cluster.{NcxInfraCluster, VpcPrefixSpec, VpcPeeringSpec, NsgSpec}
use cluster_api_provider_nvi.Sdk.Wire.{Call, get_vpc, get_nsg}
use cluster_api_provider_nvi.Kube.{Env}
use cluster_api_provider_nvi.Cluster.Scope.{site_id}
use cluster_api_provider_nvi.Cluster.Normal.{
  prefixes_step, nsg_step, peerings_step, provision_peerings, provision_nsg, provision_prefixes,
  provision_subnets, provision_vpc, provision_allocation, provision, success,
}
use cluster_api_provider_nvi.Cluster.Reads.{
  Reads, Reads-bind, Reads-after, Reads-before, Reads-pure, Reads-gets, Reads-mark, Reads-guarded,
}
use cluster_api_provider_nvi.Cluster.Reads.Steps.{
  HasNetwork, reconcile_vpc-Reads, ensure-Reads, reconcile_nsg-Reads, reconcile_subnets-Reads,
  reconcile_vpc_prefixes-Reads, reconcile_vpc_peerings-Reads,
}
use cluster_api_provider_nvi.Cluster.Reads.Planned.{
  IsSteady, when_listed, when_some, child_read, subnet_reads, prefix_reads, peering_reads,
  planned_reads,
}

module _ (env : Env) (base : List Call) (o : NcxInfraCluster) (there : HasNetwork env.cloud base o)
    (h : IsSteady o) where
  site_id-Reads : Reads base o (site_id env) o.spec.site_ref.id []
  unfolding site_id
  site_id-Reads = record {
    recorded = tt;
    at = λ w only l.
        let v = h.site in
        ground (arith, is_empty_iff w.object.spec.site_ref.id, append-nil w.calls);
  }

  prefixes-Reads :
      (site : String) (l : List VpcPrefixSpec)
      → Reads base o (prefixes_step env site l) tt (when_listed l (child_read o ∷ prefix_reads o))
  unfolding prefixes_step
  prefixes-Reads site [] = Reads-pure tt
  prefixes-Reads site (p ∷ ps) =
      Reads-guarded env _ _
        (reconcile_vpc_prefixes-Reads env base o there site h.vpc h.child h.prefixes)

  prefixes-at :
      (site : String) (l : List VpcPrefixSpec)
      → l ≡ o.spec.vpc_prefixes
      → Reads base o
          (prefixes_step env site l)
          tt
          (when_listed o.spec.vpc_prefixes (child_read o ∷ prefix_reads o))
  prefixes-at site l e = rw e (prefixes-Reads site o.spec.vpc_prefixes)

  nsg-Reads :
      (site : String) (s : Option NsgSpec)
      → s ≡ o.spec.vpc.network_security_group
      → Reads base o
          (nsg_step env site s)
          tt
          (when_some s (get_nsg o.status.network_status.nsg_id ∷ []))
  unfolding nsg_step
  nsg-Reads site none e = Reads-pure tt
  nsg-Reads site (some s) e =
      Reads-before
        (Reads-guarded env _ _ (reconcile_nsg-Reads env base o there site s (h.nsg s (sym e))))
        (λ _ _. Reads-mark env _)

  nsg-at :
      (site : String) (s : Option NsgSpec)
      → s ≡ o.spec.vpc.network_security_group
      → Reads base o (nsg_step env site s) tt (
          when_some o.spec.vpc.network_security_group (get_nsg o.status.network_status.nsg_id ∷ []))
  nsg-at site s e = rw e (nsg-Reads site o.spec.vpc.network_security_group refl)

  peerings-Reads :
      (site : String) (l : List VpcPeeringSpec)
      → Reads base o (peerings_step env site l) tt (when_listed l (peering_reads o))
  unfolding peerings_step
  peerings-Reads site [] = Reads-pure tt
  peerings-Reads site (p ∷ ps) =
      Reads-before
        (Reads-guarded env _ _
          (reconcile_vpc_peerings-Reads env base o there site h.vpc h.peerings))
        (λ _ _. Reads-mark env _)

  peerings-at :
      (site : String) (l : List VpcPeeringSpec)
      → l ≡ o.spec.vpc_peerings
      → Reads base o
          (peerings_step env site l)
          tt
          (when_listed o.spec.vpc_peerings (peering_reads o))
  peerings-at site l e = rw e (peerings-Reads site o.spec.vpc_peerings)

  provision_nsg-Reads :
      (site : String)
      → Reads base o (provision_nsg env site) tt (
          when_some o.spec.vpc.network_security_group (get_nsg o.status.network_status.nsg_id ∷ [])
          ++ when_listed o.spec.vpc_peerings (peering_reads o))
  unfolding provision_nsg provision_peerings
  provision_nsg-Reads site =
      Reads-after
        (Reads-gets (λ w. w.object.spec.vpc.network_security_group)
          o.spec.vpc.network_security_group
          (λ w l. ap (λ s. s.vpc.network_security_group) l.same_spec))
        (λ s e. Reads-bind (nsg-at site s e) (λ _ _.
          Reads-after
            (Reads-gets (λ w. w.object.spec.vpc_peerings) o.spec.vpc_peerings
              (λ w l. ap (λ s. s.vpc_peerings) l.same_spec))
            (λ l e. peerings-at site l e)))

  provision_prefixes-Reads :
      (site : String)
      → Reads base o (provision_prefixes env site) tt (
          when_listed o.spec.vpc_prefixes (child_read o ∷ prefix_reads o)
          ++ (when_some o.spec.vpc.network_security_group
                (get_nsg o.status.network_status.nsg_id ∷ [])
              ++ when_listed o.spec.vpc_peerings (peering_reads o)))
  unfolding provision_prefixes
  provision_prefixes-Reads site =
      Reads-after
        (Reads-gets (λ w. w.object.spec.vpc_prefixes) o.spec.vpc_prefixes
          (λ w l. ap (λ s. s.vpc_prefixes) l.same_spec))
        (λ l e. Reads-bind (prefixes-at site l e) (λ _ _. provision_nsg-Reads site))

  provision_subnets-Reads :
      (site : String)
      → Reads base o (provision_subnets env site) tt (
          child_read o
          ∷ (subnet_reads o
              ++ (when_listed o.spec.vpc_prefixes (child_read o ∷ prefix_reads o)
                  ++ (when_some o.spec.vpc.network_security_group
                        (get_nsg o.status.network_status.nsg_id ∷ [])
                      ++ when_listed o.spec.vpc_peerings (peering_reads o)))))
  unfolding provision_subnets
  provision_subnets-Reads site =
      Reads-bind
        (Reads-guarded env _ _
          (reconcile_subnets-Reads env base o there site h.vpc h.child h.subnets))
        (λ _ _.
          Reads-after (Reads-mark env (success "SubnetsReady" "SubnetsReady"))
            (λ _ _. provision_prefixes-Reads site))

  provision_vpc-Reads :
      (site : String)
      → Reads base o (provision_vpc env site) tt (
          get_vpc o.status.vpc_id
          ∷ child_read o
          ∷ (subnet_reads o
              ++ (when_listed o.spec.vpc_prefixes (child_read o ∷ prefix_reads o)
                  ++ (when_some o.spec.vpc.network_security_group
                        (get_nsg o.status.network_status.nsg_id ∷ [])
                      ++ when_listed o.spec.vpc_peerings (peering_reads o)))))
  unfolding provision_vpc
  provision_vpc-Reads site =
      Reads-bind (Reads-guarded env _ _ (reconcile_vpc-Reads env base o there site h.vpc)) (λ _ _.
        Reads-after (Reads-mark env (success "VPCReady" "VPCReady"))
          (λ _ _. provision_subnets-Reads site))

  provision_allocation-Reads :
      (site : String)
      → Reads base o (provision_allocation env site) tt (
          child_read o
          ∷ get_vpc o.status.vpc_id
          ∷ child_read o
          ∷ (subnet_reads o
              ++ (when_listed o.spec.vpc_prefixes (child_read o ∷ prefix_reads o)
                  ++ (when_some o.spec.vpc.network_security_group
                        (get_nsg o.status.network_status.nsg_id ∷ [])
                      ++ when_listed o.spec.vpc_peerings (peering_reads o)))))
  unfolding provision_allocation
  provision_allocation-Reads site =
      Reads-bind (Reads-guarded env _ _ (ensure-Reads env base o there site h.child)) (λ _ _.
        Reads-after (Reads-mark env (success "AllocationReady" "AllocationReady"))
          (λ _ _. provision_vpc-Reads site))

  pub provision-Reads : Reads base o (provision env) tt (planned_reads o)
  unfolding provision planned_reads
  provision-Reads =
      Reads-bind (Reads-guarded env _ _ site_id-Reads) (λ site _. provision_allocation-Reads site)
