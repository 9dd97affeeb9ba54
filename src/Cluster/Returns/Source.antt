-- ===== src/Cluster/Returns/Source.antt =====
-- `ensureIPBlockAndAllocation` of internal/controller/ncxinfracluster_controller.go before a willing service.
use cluster_api_provider_nvi.Common.{
  String, Option, none, some, ◌≢◌, ◌⊎◌, inl, inr, refl, arith, is_empty, is_empty_iff, Bool-cases,
  ◌<>◌,
}
use cluster_api_provider_nvi.Common.Exec.{pure}
use cluster_api_provider_nvi.Api.Cluster.{NcxInfraClusterSpec}
use cluster_api_provider_nvi.Sdk.Wire.{is_found, get_ip_block}
use cluster_api_provider_nvi.Kube.{Env}
use cluster_api_provider_nvi.Cluster.Scope.{ClusterWorld, network_of}
use cluster_api_provider_nvi.Cluster.Allocation.{
  ip_block_request, allocation_request, verify_child_ip_block, ensure_parent_ip_block,
  ensure_allocation, query_child_ip_block, build_child_ip_block, ensure_ip_block_and_allocation,
}
use cluster_api_provider_nvi.Cluster.Yields.{Anywhere}
use cluster_api_provider_nvi.Cluster.Returns.{Returns, Returns-bind}
use cluster_api_provider_nvi.Cluster.Returns.Willing.{IsWilling}

abbrev HasSource : ClusterWorld → Type 0
HasSource w = ((network_of w).allocation_id ≢ "") ⊎ ((network_of w).child_ip_block_id ≢ "")

abbrev HasChild : ClusterWorld → Type 0
HasChild w = (network_of w).child_ip_block_id ≢ ""

module _ (env : Env) (s : NcxInfraClusterSpec) (h : IsWilling s env.cloud) where
  ensure_parent-Returns :
      (site : String) → Returns Anywhere (ensure_parent_ip_block env site) (λ _. Anywhere)
  unfolding ensure_parent_ip_block
  ensure_parent-Returns site = record {
    at = λ w p.
        let made = h.ip_block w.calls (ip_block_request w.object.meta.name site) in
        elim (Bool-cases (is_empty (network_of w).ip_block_id)) [
          | inl e ↦ (made.id, ground (arith, made.no_error, made.status, made.value), tt)
          | inr e ↦ ((network_of w).ip_block_id, ground arith, tt)
        ];
  }

  ensure_allocation-Returns :
      (site parent : String) → Returns Anywhere (ensure_allocation env site parent) (λ _. HasSource)
  unfolding ensure_allocation
  ensure_allocation-Returns site parent = record {
    at = λ w p.
        let name = w.object.meta.name <> "-allocation" in
        let (made, status) =
          h.allocated w.calls (allocation_request name w.object.spec.tenant_id site parent) in
        (
          tt,
          ground (arith, made.no_error, status, made.value, made.has_id, made.has_child),
          ground (
            arith,
            made.no_error,
            status,
            made.value,
            made.has_id,
            made.has_child,
            made.filled,
            is_empty_iff (network_of w).allocation_id,
          ),
        );
  }

  query-Returns : Returns HasSource (query_child_ip_block env) (λ _. HasChild)
  unfolding query_child_ip_block
  query-Returns = record {
    at = λ w p.
        let got = h.allocation w.calls (network_of w).allocation_id in
        (
          tt,
          ground (arith, got.no_error, got.value, got.has_child),
          ground (
            arith,
            got.no_error,
            got.value,
            got.has_child,
            got.filled,
            is_empty_iff (network_of w).allocation_id,
            is_empty_iff (network_of w).child_ip_block_id,
          ),
        );
  }

  build-Returns : (site : String) → Returns Anywhere (build_child_ip_block env site) (λ _. Anywhere)
  unfolding build_child_ip_block
  build-Returns site =
      Returns-bind (ensure_parent_ip_block env site) _ (ensure_parent-Returns site) (λ parent.
        Returns-bind (ensure_allocation env site parent) _ (ensure_allocation-Returns site parent)
          (λ _. Returns-bind (query_child_ip_block env) _ query-Returns (λ _. record {
            at = λ w p. (
              (network_of w).child_ip_block_id,
              ground (arith, is_empty_iff (network_of w).child_ip_block_id),
              tt,
            );
          })))

  verify-Returns : Returns Anywhere (verify_child_ip_block env) (λ _. Anywhere)
  unfolding verify_child_ip_block
  verify-Returns = record {
    at = λ w p.
        let child = (network_of w).child_ip_block_id in
        elim (Bool-cases (is_empty child)) [
          | inl e ↦ (none, ground arith, tt)
          | inr e ↦ elim (Bool-cases (is_found (env.cloud w.calls (get_ip_block child)))) [
            | inl f ↦ (some child, ground arith, tt)
            | inr f ↦ (none, ground arith, tt)
          ]
        ];
  }

  choose-Returns :
      (site : String) (present : Option String)
      → Returns Anywhere
          (elim present [ some child ↦ pure child | none ↦ build_child_ip_block env site ])
          (λ _. Anywhere)
  choose-Returns site none = build-Returns site
  choose-Returns site (some child) = record { at = λ w p. (child, refl, tt) }

  pub ensure-Returns :
      (site : String) → Returns Anywhere (ensure_ip_block_and_allocation env site) (λ _. Anywhere)
  unfolding ensure_ip_block_and_allocation
  ensure-Returns site =
      Returns-bind (verify_child_ip_block env) _ verify-Returns (choose-Returns site)
