-- ===== src/Cluster/Delete/Retry.antt =====
-- What `reconcileDelete` of internal/controller/ncxinfracluster_controller.go leaves behind when it
-- succeeds, when it stops, and when it is run again after a stop.
use cluster_api_provider_nvi.Common.{String, false, List, [], ◌∷◌, ◌++◌, ◌≡◌, refl, is_empty}
use cluster_api_provider_nvi.Common.Dict.{Dict, erase}
use cluster_api_provider_nvi.Common.Exec.{Outcome, ok, failed, panic, continue, modify, pure, ◌>>=◌}
use cluster_api_provider_nvi.Api.Meta.{ReconcileResult, ObjectMeta}
use cluster_api_provider_nvi.Sdk.Wire.{Call}
use cluster_api_provider_nvi.Kube.{Env, IsLawful}
use cluster_api_provider_nvi.Cluster.Scope.{ClusterWorld, ClusterExec, with_finalizers}
use cluster_api_provider_nvi.Cluster.Keeps.{
  Keeps, Keeps-pure, Keeps-bind, Keeps-gets, Keeps-if, Keeps-lift, Keeps-modify, Keeps-invoke,
}
use cluster_api_provider_nvi.Api.Cluster.{NcxInfraCluster}
use cluster_api_provider_nvi.Cluster.Delete.{
  with_status, deleted, IdField, MapField, delete_resource, delete_id, delete_map, delete_entries,
  delete_all, reconcile_delete, cluster_finalizer, nsg_field, peering_field, prefix_field,
  subnet_field, allocation_field, child_field, parent_field, vpc_field,
}
use cluster_api_provider_nvi.Cluster.Delete.Progress.{status_of, Stopped, Progress}
use cluster_api_provider_nvi.Cluster.Delete.Teardown.{teardown, HasMaps, delete_all-Progress}

module _ (env : Env) where
  abbrev meta_of : NcxInfraCluster → ObjectMeta
  meta_of o = o.meta

  delete_resource-Keeps :
      (kind id : String) (c : Call) → Keeps meta_of (delete_resource env kind id c)
  unfolding delete_resource
  delete_resource-Keeps kind id c =
      Keeps-bind (Keeps-invoke env.cloud c) (λ r. Keeps-lift (deleted kind id r))

  delete_id-Keeps : (f : IdField) → Keeps meta_of (delete_id env f)
  unfolding delete_id
  delete_id-Keeps f = Keeps-bind (Keeps-gets (λ w. f.get w.object.status)) λ id.
      Keeps-if (is_empty id) (Keeps-pure tt) (
        Keeps-bind (delete_resource-Keeps f.kind id (f.call id))
          λ _. Keeps-modify (with_status (f.put "")) (λ w. refl))

  delete_entries-Keeps :
      (f : MapField) (entries : Dict) → Keeps meta_of (delete_entries env f entries)
  unfolding delete_entries
  delete_entries-Keeps f [] = Keeps-pure tt
  delete_entries-Keeps f ((key, id) ∷ rest) =
      Keeps-bind (delete_resource-Keeps f.kind id (f.call id)) λ _.
        Keeps-bind (Keeps-modify (with_status (λ s. f.put (erase key (f.get s)) s)) (λ w. refl))
          λ _. delete_entries-Keeps f rest

  delete_map-Keeps : (f : MapField) → Keeps meta_of (delete_map env f)
  unfolding delete_map
  delete_map-Keeps f = Keeps-bind (Keeps-gets (λ w. f.get w.object.status)) (delete_entries-Keeps f)

  delete_all-Keeps : Keeps meta_of (delete_all env)
  unfolding delete_all
  delete_all-Keeps = Keeps-bind (delete_id-Keeps nsg_field) λ _.
      Keeps-bind (delete_map-Keeps peering_field) λ _.
        Keeps-bind (delete_map-Keeps prefix_field) λ _.
          Keeps-bind (delete_map-Keeps subnet_field) λ _.
            Keeps-bind (delete_id-Keeps allocation_field) λ _.
              Keeps-bind (delete_id-Keeps child_field)
                λ _. Keeps-bind (delete_id-Keeps parent_field) λ _. delete_id-Keeps vpc_field

  -- The end of `reconcileDelete` behind the outcome of the deletions.
  abbrev finalize : ClusterExec ReconcileResult
  finalize =
      modify (with_finalizers (λ fs. env.kube.remove_finalizer fs cluster_finalizer)) >>= λ _.
      pure (record { requeue = false; requeue_after = 0 })

  -- What a successful teardown has done.
  pub record IsTornDown (w w' : ClusterWorld) : Type 0 where
    pub made : w'.calls ≡ w.calls ++ teardown (status_of w)
    pub nothing_left : teardown (status_of w') ≡ []
    pub released : env.kube.contains_finalizer w'.object.meta.finalizers cluster_finalizer ≡ false

  -- What a teardown that ended early has done.
  pub record IsInterrupted (w w' : ClusterWorld) : Type 0 where
    pub stopped : Stopped teardown w w'
    pub held : w'.object.meta ≡ w.object.meta

  abbrev pub Result : ClusterWorld → Outcome String ReconcileResult × ClusterWorld → Type 0
  Result w (ok _, w') = IsTornDown w w'
  Result w (failed e, w') = IsInterrupted w w'
  Result w (panic, w') = IsInterrupted w w'

  Result-finalize :
      IsLawful env.kube
      → (w w' : ClusterWorld) (r : Outcome String (Unit {0})) → Progress teardown w (r, w')
      → w'.object.meta ≡ w.object.meta
      → Result w (continue r (λ _. finalize) w')
  Result-finalize laws w w' (ok _) p same = record {
    made = p.made;
    nothing_left = p.remaining;
    released = laws.contains-remove _ _;
  }
  Result-finalize laws w w' (failed e) p same = record { stopped = p; held = same }
  Result-finalize laws w w' panic p same = record { stopped = p; held = same }

  -- The deletion of a cluster whose status maps hold each key once, on every outcome. If it ends
  -- without an error, the calls made are exactly the planned deletions in order (security group,
  -- peerings, prefixes, subnets, allocation, child and parent IP block, VPC), the status plans no
  -- more, and the finalizer is gone. If it ends early, the finalizers are as before, the last call is
  -- one of the plan, those before it were made, and the status plans it and the later ones.
  pub reconcile_delete-Result :
      IsLawful env.kube
      → (w : ClusterWorld) → HasMaps (status_of w)
      → Result w (reconcile_delete env w)
  unfolding reconcile_delete
  reconcile_delete-Result laws w h =
      let (r, w') = delete_all env w in
      Result-finalize laws w w' r (delete_all-Progress env w h) (delete_all-Keeps.at w)
