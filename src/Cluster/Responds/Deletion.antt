-- ===== src/Cluster/Responds/Deletion.antt =====
-- `reconcileDelete` of internal/controller/ncxinfracluster_controller.go and nil responses.
use cluster_api_provider_nvi.Common.{String, true, [], ◌∷◌, none, ◌≡◌, ◌≢◌, refl, arith, is_empty}
use cluster_api_provider_nvi.Common.Dict.{Dict}
use cluster_api_provider_nvi.Common.Exec.{panic}
use cluster_api_provider_nvi.Sdk.Wire.{Call, Reply}
use cluster_api_provider_nvi.Kube.{Env}
use cluster_api_provider_nvi.Cluster.Delete.{
  IdField, MapField, deleted, delete_resource, delete_id, delete_entries, delete_map, delete_all,
  with_status, reconcile_delete, nsg_field, peering_field, prefix_field, subnet_field,
  allocation_field, child_field, parent_field, vpc_field,
}
use cluster_api_provider_nvi.Cluster.Responds.{
  HasReadResponses, reads_response, IsSafe, IsSafe-bind, IsSafe-gets, IsSafe-if, IsSafe-pure,
  IsSafe-modify,
}

deleted-safe :
    {A : Type 0} (kind id : String) (r : Reply A)
    → (r.err ≡ none → r.http ≢ none)
    → deleted kind id r ≢ panic
unfolding deleted
deleted-safe kind id r h = ground arith

module _ (env : Env) (h : HasReadResponses env.cloud) where
  delete_resource-IsSafe :
      (kind id : String) (c : Call)
      → reads_response c ≡ true
      → IsSafe (delete_resource env kind id c)
  unfolding delete_resource
  delete_resource-IsSafe kind id c e = record {
    at = λ w. deleted-safe kind id (env.cloud w.calls c) (h w.calls c e);
  }

  delete_id-IsSafe :
      (f : IdField) → ((id : String) → reads_response (f.call id) ≡ true) → IsSafe (delete_id env f)
  unfolding delete_id
  delete_id-IsSafe f e = IsSafe-bind (IsSafe-gets _) (λ id.
      IsSafe-if (is_empty id) (IsSafe-pure tt) (
        IsSafe-bind (delete_resource-IsSafe f.kind id (f.call id) (e id))
          (λ _. IsSafe-modify (with_status (f.put "")))))

  delete_entries-IsSafe :
      (f : MapField)
      → ((id : String) → reads_response (f.call id) ≡ true)
      → (entries : Dict) → IsSafe (delete_entries env f entries)
  unfolding delete_entries
  delete_entries-IsSafe f e [] = IsSafe-pure tt
  delete_entries-IsSafe f e ((key, id) ∷ rest) =
      IsSafe-bind (delete_resource-IsSafe f.kind id (f.call id) (e id))
        (λ _. IsSafe-bind (IsSafe-modify _) (λ _. delete_entries-IsSafe f e rest))

  delete_map-IsSafe :
      (f : MapField)
      → ((id : String) → reads_response (f.call id) ≡ true)
      → IsSafe (delete_map env f)
  unfolding delete_map
  delete_map-IsSafe f e = IsSafe-bind (IsSafe-gets _) (delete_entries-IsSafe f e)

  delete_all-IsSafe : IsSafe (delete_all env)
  unfolding delete_all
  delete_all-IsSafe = IsSafe-bind (delete_id-IsSafe nsg_field (λ id. refl)) (λ _.
      IsSafe-bind (delete_map-IsSafe peering_field (λ id. refl)) (λ _.
        IsSafe-bind (delete_map-IsSafe prefix_field (λ id. refl)) (λ _.
          IsSafe-bind (delete_map-IsSafe subnet_field (λ id. refl)) (λ _.
            IsSafe-bind (delete_id-IsSafe allocation_field (λ id. refl)) (λ _.
              IsSafe-bind (delete_id-IsSafe child_field (λ id. refl)) (λ _.
                IsSafe-bind (delete_id-IsSafe parent_field (λ id. refl))
                  (λ _. delete_id-IsSafe vpc_field (λ id. refl))))))))

  pub delete-IsSafe : IsSafe (reconcile_delete env)
  unfolding reconcile_delete
  delete-IsSafe = IsSafe-bind delete_all-IsSafe (λ _. record { at = λ w. ground arith })
