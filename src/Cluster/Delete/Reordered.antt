-- ===== src/Cluster/Delete/Reordered.antt =====
-- The order in which `range` of internal/controller/ncxinfracluster_controller.go visits the maps of a status
-- is drawn anew in each run.
use mathlib.Core.Path.{subst}
use mathlib.Core.Logic.{∥∥₁_map}
use mathlib.Core.List.{Perm, Permᴰ}
use mathlib.Core.List.Perm
use cluster_api_provider_nvi.Common.{String, [], ◌∷◌, ◌≡◌, sym, ap, is_empty, if◌then◌else◌}
use cluster_api_provider_nvi.Common.Dict.{Dict}
use cluster_api_provider_nvi.Api.Cluster.{NcxInfraClusterStatus}
use cluster_api_provider_nvi.Sdk.Wire.{Call}
use cluster_api_provider_nvi.Cluster.Delete.{
  IdField, MapField, nsg_field, peering_field, prefix_field, subnet_field, allocation_field,
  child_field, parent_field, vpc_field,
}
use cluster_api_provider_nvi.Cluster.Delete.Stages.{id_plan, entry_calls}
use cluster_api_provider_nvi.Cluster.Delete.Teardown.{teardown}

-- The same IDs, and the same entries in another order.
pub record IsReordered (s t : NcxInfraClusterStatus) : Type 0 where
  pub vpc : t.vpc_id ≡ s.vpc_id
  pub nsg : t.network_status.nsg_id ≡ s.network_status.nsg_id
  pub allocation : t.network_status.allocation_id ≡ s.network_status.allocation_id
  pub child : t.network_status.child_ip_block_id ≡ s.network_status.child_ip_block_id
  pub parent : t.network_status.ip_block_id ≡ s.network_status.ip_block_id
  pub peerings : Perm t.network_status.vpc_peering_ids s.network_status.vpc_peering_ids
  pub prefixes : Perm t.network_status.vpc_prefix_ids s.network_status.vpc_prefix_ids
  pub subnets : Perm t.network_status.subnet_ids s.network_status.subnet_ids

abbrev call_of_entry : (f : MapField) → String × String → Call
call_of_entry f (key, id) = f.call id

entry_calls-Permᴰ :
    (f : MapField) {l k : Dict} → Permᴰ l k → Permᴰ (entry_calls f l) (entry_calls f k)
entry_calls-Permᴰ f Permᴰ.nil = Permᴰ.nil
entry_calls-Permᴰ f (Permᴰ.cons e p) = Permᴰ.cons (ap (call_of_entry f) e) (entry_calls-Permᴰ f p)
entry_calls-Permᴰ f (Permᴰ.swap e g) = Permᴰ.swap (ap (call_of_entry f) e) (ap (call_of_entry f) g)
entry_calls-Permᴰ f (Permᴰ.trans p q) = Permᴰ.trans (entry_calls-Permᴰ f p) (entry_calls-Permᴰ f q)

entry_calls-Perm : (f : MapField) {l k : Dict} → Perm l k → Perm (entry_calls f l) (entry_calls f k)
entry_calls-Perm f {l} {k} p =
    ∥∥₁_map {B = Permᴰ (entry_calls f l) (entry_calls f k)} p (entry_calls-Permᴰ f)

id_plan-Perm :
    (f : IdField) (s t : NcxInfraClusterStatus)
    → f.get t ≡ f.get s
    → Perm (id_plan f t) (id_plan f s)
id_plan-Perm f s t e =
    subst (λ id. Perm (if is_empty id then [] else f.call id ∷ []) (id_plan f s)) (sym e)
      (Perm.refl (id_plan f s))

-- So both ask for the same deletions.
pub teardown-Perm : (s t : NcxInfraClusterStatus) → IsReordered s t → Perm (teardown t) (teardown s)
teardown-Perm s t h = Perm.append (id_plan-Perm nsg_field s t h.nsg) (
    Perm.append (entry_calls-Perm peering_field h.peerings) (
      Perm.append (entry_calls-Perm prefix_field h.prefixes) (
        Perm.append (entry_calls-Perm subnet_field h.subnets) (
          Perm.append (id_plan-Perm allocation_field s t h.allocation) (
            Perm.append (id_plan-Perm child_field s t h.child) (
              Perm.append (id_plan-Perm parent_field s t h.parent)
                (id_plan-Perm vpc_field s t h.vpc)))))))
