-- ===== src/Cluster/Maps/Frames.antt =====
-- The steps of internal/controller/ncxinfracluster_controller.go that leave the maps of the status alone.
use cluster_api_provider_nvi.Common.{String, Option, none, some, arith}
use cluster_api_provider_nvi.Common.Exec.{pure}
use cluster_api_provider_nvi.Api.Cluster.{NsgSpec}
use cluster_api_provider_nvi.Kube.{Env}
use cluster_api_provider_nvi.Cluster.Scope.{site_id}
use cluster_api_provider_nvi.Cluster.Vpc.{reconcile_vpc}
use cluster_api_provider_nvi.Cluster.Nsg.{reconcile_nsg}
use cluster_api_provider_nvi.Cluster.Allocation.{
  verify_child_ip_block, ensure_parent_ip_block, ensure_allocation, query_child_ip_block,
  build_child_ip_block, ensure_ip_block_and_allocation,
}
use cluster_api_provider_nvi.Cluster.Keeps.{Keeps, Keeps-pure, Keeps-bind}
use cluster_api_provider_nvi.Cluster.Maps.{maps_of}

module _ (env : Env) where
  pub site_id-maps : Keeps maps_of (site_id env)
  unfolding site_id
  site_id-maps = record { at = λ w. grind arith }

  pub reconcile_vpc-maps : (site : String) → Keeps maps_of (reconcile_vpc env site)
  unfolding reconcile_vpc
  reconcile_vpc-maps site = record { at = λ w. grind arith }

  pub reconcile_nsg-maps : (site : String) (s : NsgSpec) → Keeps maps_of (reconcile_nsg env site s)
  unfolding reconcile_nsg
  reconcile_nsg-maps site s = record { at = λ w. grind arith }

  verify-maps : Keeps maps_of (verify_child_ip_block env)
  unfolding verify_child_ip_block
  verify-maps = record { at = λ w. grind arith }

  ensure_parent-maps : (site : String) → Keeps maps_of (ensure_parent_ip_block env site)
  unfolding ensure_parent_ip_block
  ensure_parent-maps site = record { at = λ w. grind arith }

  ensure_allocation-maps :
      (site parent : String) → Keeps maps_of (ensure_allocation env site parent)
  unfolding ensure_allocation
  ensure_allocation-maps site parent = record { at = λ w. grind arith }

  query-maps : Keeps maps_of (query_child_ip_block env)
  unfolding query_child_ip_block
  query-maps = record { at = λ w. grind arith }

  build-maps : (site : String) → Keeps maps_of (build_child_ip_block env site)
  unfolding build_child_ip_block
  build-maps site = Keeps-bind (ensure_parent-maps site) (λ parent.
      Keeps-bind (ensure_allocation-maps site parent)
        (λ _. Keeps-bind query-maps (λ _. record { at = λ w. grind arith })))

  choose-maps :
      (site : String) (present : Option String)
      → Keeps maps_of
          (elim present [ some child ↦ pure child | none ↦ build_child_ip_block env site ])
  choose-maps site none = build-maps site
  choose-maps site (some child) = Keeps-pure child

  pub ensure-maps : (site : String) → Keeps maps_of (ensure_ip_block_and_allocation env site)
  unfolding ensure_ip_block_and_allocation
  ensure-maps site = Keeps-bind verify-maps (choose-maps site)
