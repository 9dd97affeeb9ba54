-- ===== src/Cluster/Maps/Deletion.antt =====
-- `reconcileDelete` of internal/controller/ncxinfracluster_controller.go and the maps of the status.
use cluster_api_provider_nvi.Common.{String, [], ◌∷◌, arith, is_empty}
use cluster_api_provider_nvi.Common.Dict.{Dict, erase, erase-NodupKeys}
use cluster_api_provider_nvi.Common.Exec.{modify}
use cluster_api_provider_nvi.Api.Cluster.{NcxInfraClusterStatus}
use cluster_api_provider_nvi.Sdk.Wire.{Call}
use cluster_api_provider_nvi.Kube.{Env}
use cluster_api_provider_nvi.Cluster.Delete.{
  IdField, MapField, with_status, delete_resource, delete_id, delete_entries, delete_map,
  delete_all, reconcile_delete, nsg_field, peering_field, prefix_field, subnet_field,
  allocation_field, child_field, parent_field, vpc_field,
}
use cluster_api_provider_nvi.Cluster.Delete.Teardown.{HasMaps}
use cluster_api_provider_nvi.Cluster.Maps.{
  KeepsMaps, KeepsMaps-of, KeepsMaps-if, KeepsMaps-bind, KeepsMaps-pure, KeepsMaps-gets,
}

-- A write of an ID, or of a map without one of its keys.
abbrev PutsMaps : (NcxInfraClusterStatus → NcxInfraClusterStatus) → Type 0
PutsMaps f = (s : NcxInfraClusterStatus) → HasMaps s → HasMaps (f s)

KeepsMaps-put :
    (f : NcxInfraClusterStatus → NcxInfraClusterStatus)
    → PutsMaps f
    → KeepsMaps (modify (with_status f))
KeepsMaps-put f p = record { at = λ w h. p w.object.status h }

module _ (env : Env) where
  delete_resource-KeepsMaps :
      (kind id : String) (c : Call) → KeepsMaps (delete_resource env kind id c)
  unfolding delete_resource
  delete_resource-KeepsMaps kind id c = record { at = λ w h. h }

  delete_id-KeepsMaps : (f : IdField) → PutsMaps (f.put "") → KeepsMaps (delete_id env f)
  unfolding delete_id
  delete_id-KeepsMaps f p = KeepsMaps-bind (KeepsMaps-gets (λ w. f.get w.object.status)) (λ id.
      KeepsMaps-if (is_empty id) (KeepsMaps-pure tt) (
        KeepsMaps-bind (delete_resource-KeepsMaps f.kind id (f.call id))
          (λ _. KeepsMaps-put (f.put "") p)))

  delete_entries-KeepsMaps :
      (f : MapField)
      → ((key : String) → PutsMaps (λ s. f.put (erase key (f.get s)) s))
      → (entries : Dict) → KeepsMaps (delete_entries env f entries)
  unfolding delete_entries
  delete_entries-KeepsMaps f p [] = KeepsMaps-pure tt
  delete_entries-KeepsMaps f p ((key, id) ∷ rest) =
      KeepsMaps-bind (delete_resource-KeepsMaps f.kind id (f.call id)) (λ _.
        KeepsMaps-bind (KeepsMaps-put (λ s. f.put (erase key (f.get s)) s) (p key))
          (λ _. delete_entries-KeepsMaps f p rest))

  delete_map-KeepsMaps :
      (f : MapField)
      → ((key : String) → PutsMaps (λ s. f.put (erase key (f.get s)) s))
      → KeepsMaps (delete_map env f)
  unfolding delete_map
  delete_map-KeepsMaps f p =
      KeepsMaps-bind (KeepsMaps-gets (λ w. f.get w.object.status)) (delete_entries-KeepsMaps f p)

  delete_all-KeepsMaps : KeepsMaps (delete_all env)
  unfolding delete_all
  delete_all-KeepsMaps =
      KeepsMaps-bind
        (delete_id-KeepsMaps nsg_field (λ s h. ground (arith, h.peerings, h.prefixes, h.subnets)))
        (λ _.
          KeepsMaps-bind
            (delete_map-KeepsMaps peering_field (λ key s h. grind (arith, erase-NodupKeys)))
            (λ _.
              KeepsMaps-bind
                (delete_map-KeepsMaps prefix_field (λ key s h. grind (arith, erase-NodupKeys)))
                (λ _.
                  KeepsMaps-bind
                    (delete_map-KeepsMaps subnet_field (λ key s h. grind (arith, erase-NodupKeys)))
                    (λ _.
                      KeepsMaps-bind (delete_id-KeepsMaps allocation_field (λ s h. ground arith))
                        (λ _.
                          KeepsMaps-bind (delete_id-KeepsMaps child_field (λ s h. ground arith))
                            (λ _.
                              KeepsMaps-bind
                                (delete_id-KeepsMaps parent_field (λ s h. ground arith))
                                (λ _. delete_id-KeepsMaps vpc_field (λ s h. ground arith))))))))

  -- A deletion keeps the maps, on every outcome.
  pub reconcile_delete-KeepsMaps : KeepsMaps (reconcile_delete env)
  unfolding reconcile_delete
  reconcile_delete-KeepsMaps =
      KeepsMaps-bind delete_all-KeepsMaps (λ _. KeepsMaps-of (record { at = λ v. ground arith }))
