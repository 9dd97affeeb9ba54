-- ===== src/Cluster/Delete/Teardown.antt =====
-- The whole of `reconcileDelete` in internal/controller/ncxinfracluster_controller.go: which calls
-- it makes, in which order, where it stops, and when the finalizer goes.
use mathlib.Core.Path.{subst}
use cluster_api_provider_nvi.Common.{◌++◌, refl, sym}
use cluster_api_provider_nvi.Common.Dict.{Dict, NodupKeys}
use cluster_api_provider_nvi.Common.Exec.{◌>>◌}
use cluster_api_provider_nvi.Api.Cluster.{NcxInfraClusterStatus}
use cluster_api_provider_nvi.Kube.{Env}
use cluster_api_provider_nvi.Cluster.Scope.{ClusterWorld, ClusterExec}
use cluster_api_provider_nvi.Cluster.Delete.{
  delete_id, delete_map, delete_all, nsg_field, peering_field, prefix_field, subnet_field,
  allocation_field, child_field, parent_field, vpc_field,
}
use cluster_api_provider_nvi.Cluster.Delete.Progress.{
  Plan, status_of, Progress, Frame, Progress-then, both, ◌⨾◌,
}
use cluster_api_provider_nvi.Cluster.Delete.Stages.{
  id_plan, map_plan, delete_id-Progress, delete_map-Progress, Frame-delete_id, Frame-delete_map,
}

-- The calls that tear a cluster down: each resource goes before those that it depends on.
abbrev pub teardown : Plan
teardown s =
    id_plan nsg_field s
    ++ (map_plan peering_field s
        ++ (map_plan prefix_field s
            ++ (map_plan subnet_field s
                ++ (id_plan allocation_field s
                    ++ (id_plan child_field s
                        ++ (id_plan parent_field s ++ id_plan vpc_field s))))))

-- The maps of the status are maps: no key stands twice.
pub record HasMaps (s : NcxInfraClusterStatus) : Type 0 where
  pub peerings : NodupKeys s.network_status.vpc_peering_ids
  pub prefixes : NodupKeys s.network_status.vpc_prefix_ids
  pub subnets : NodupKeys s.network_status.subnet_ids

module _ (env : Env) where
  carry :
      (read : NcxInfraClusterStatus → Dict) {m : ClusterExec (Unit {0})}
      → Frame read m
      → (w : ClusterWorld) → NodupKeys (read (status_of w))
      → NodupKeys (read (status_of (m w).1))
  carry read f w h = subst NodupKeys (sym (f.at w)) h

  -- The steps from one resource on, and what they do.
  abbrev from_parent : ClusterExec (Unit {0})
  from_parent = delete_id env parent_field >> delete_id env vpc_field

  abbrev plan_parent : Plan
  plan_parent = both (id_plan parent_field) (id_plan vpc_field)

  abbrev from_child : ClusterExec (Unit {0})
  from_child = delete_id env child_field >> from_parent

  abbrev plan_child : Plan
  plan_child = both (id_plan child_field) plan_parent

  abbrev from_allocation : ClusterExec (Unit {0})
  from_allocation = delete_id env allocation_field >> from_child

  abbrev plan_allocation : Plan
  plan_allocation = both (id_plan allocation_field) plan_child

  abbrev from_subnets : ClusterExec (Unit {0})
  from_subnets = delete_map env subnet_field >> from_allocation

  abbrev plan_subnets : Plan
  plan_subnets = both (map_plan subnet_field) plan_allocation

  abbrev from_prefixes : ClusterExec (Unit {0})
  from_prefixes = delete_map env prefix_field >> from_subnets

  abbrev plan_prefixes : Plan
  plan_prefixes = both (map_plan prefix_field) plan_subnets

  abbrev from_peerings : ClusterExec (Unit {0})
  from_peerings = delete_map env peering_field >> from_prefixes

  abbrev plan_peerings : Plan
  plan_peerings = both (map_plan peering_field) plan_prefixes

  parent-Progress : (w : ClusterWorld) → Progress plan_parent w (from_parent w)
  parent-Progress w =
      Progress-then (Frame-delete_id env parent_field (λ s. refl))
        (Frame-delete_id env vpc_field (λ s. refl)) w
        (delete_id-Progress env parent_field (λ s. refl) w)
        (delete_id-Progress env vpc_field (λ s. refl) _)

  child-Progress : (w : ClusterWorld) → Progress plan_child w (from_child w)
  child-Progress w =
      Progress-then (Frame-delete_id env child_field (λ s. refl))
        (Frame-delete_id env parent_field (λ s. refl) ⨾ Frame-delete_id env vpc_field (λ s. refl)) w
        (delete_id-Progress env child_field (λ s. refl) w) (parent-Progress _)

  allocation-Progress : (w : ClusterWorld) → Progress plan_allocation w (from_allocation w)
  allocation-Progress w =
      Progress-then (Frame-delete_id env allocation_field (λ s. refl))
        (Frame-delete_id env child_field (λ s. refl)
          ⨾ Frame-delete_id env parent_field (λ s. refl)
          ⨾ Frame-delete_id env vpc_field (λ s. refl))
        w (delete_id-Progress env allocation_field (λ s. refl) w) (child-Progress _)

  subnets-Progress :
      (w : ClusterWorld)
      → NodupKeys (subnet_field.get (status_of w))
      → Progress plan_subnets w (from_subnets w)
  subnets-Progress w h3 =
      Progress-then (Frame-delete_map env subnet_field (λ m s. refl))
        (Frame-delete_id env allocation_field (λ s. refl)
          ⨾ Frame-delete_id env child_field (λ s. refl)
          ⨾ Frame-delete_id env parent_field (λ s. refl)
          ⨾ Frame-delete_id env vpc_field (λ s. refl))
        w (delete_map-Progress env subnet_field (λ m s. refl) w h3) (allocation-Progress _)

  prefixes-Progress :
      (w : ClusterWorld)
      → NodupKeys (prefix_field.get (status_of w))
      → NodupKeys (subnet_field.get (status_of w))
      → Progress plan_prefixes w (from_prefixes w)
  prefixes-Progress w h2 h3 =
      Progress-then (Frame-delete_map env prefix_field (λ m s. refl))
        (Frame-delete_map env subnet_field (λ m s. refl)
          ⨾ Frame-delete_id env allocation_field (λ s. refl)
          ⨾ Frame-delete_id env child_field (λ s. refl)
          ⨾ Frame-delete_id env parent_field (λ s. refl)
          ⨾ Frame-delete_id env vpc_field (λ s. refl))
        w (delete_map-Progress env prefix_field (λ m s. refl) w h2)
        (subnets-Progress _
          (carry subnet_field.get (Frame-delete_map env prefix_field (λ m s. refl)) w h3))

  peerings-Progress :
      (w : ClusterWorld)
      → NodupKeys (peering_field.get (status_of w))
      → NodupKeys (prefix_field.get (status_of w))
      → NodupKeys (subnet_field.get (status_of w))
      → Progress plan_peerings w (from_peerings w)
  peerings-Progress w h1 h2 h3 =
      Progress-then (Frame-delete_map env peering_field (λ m s. refl))
        (Frame-delete_map env prefix_field (λ m s. refl)
          ⨾ Frame-delete_map env subnet_field (λ m s. refl)
          ⨾ Frame-delete_id env allocation_field (λ s. refl)
          ⨾ Frame-delete_id env child_field (λ s. refl)
          ⨾ Frame-delete_id env parent_field (λ s. refl)
          ⨾ Frame-delete_id env vpc_field (λ s. refl))
        w (delete_map-Progress env peering_field (λ m s. refl) w h1)
        (prefixes-Progress _
          (carry prefix_field.get (Frame-delete_map env peering_field (λ m s. refl)) w h2)
          (carry subnet_field.get (Frame-delete_map env peering_field (λ m s. refl)) w h3))

  -- All steps: every call of the plan is made, or the run stops at one and the rest is still planned.
  pub delete_all-Progress :
      (w : ClusterWorld) → HasMaps (status_of w) → Progress teardown w (delete_all env w)
  unfolding delete_all
  delete_all-Progress w h =
      Progress-then (Frame-delete_id env nsg_field (λ s. refl))
        (Frame-delete_map env peering_field (λ m s. refl)
          ⨾ Frame-delete_map env prefix_field (λ m s. refl)
          ⨾ Frame-delete_map env subnet_field (λ m s. refl)
          ⨾ Frame-delete_id env allocation_field (λ s. refl)
          ⨾ Frame-delete_id env child_field (λ s. refl)
          ⨾ Frame-delete_id env parent_field (λ s. refl)
          ⨾ Frame-delete_id env vpc_field (λ s. refl))
        w (delete_id-Progress env nsg_field (λ s. refl) w)
        (peerings-Progress _
          (carry peering_field.get (Frame-delete_id env nsg_field (λ s. refl)) w h.peerings)
          (carry prefix_field.get (Frame-delete_id env nsg_field (λ s. refl)) w h.prefixes)
          (carry subnet_field.get (Frame-delete_id env nsg_field (λ s. refl)) w h.subnets))
