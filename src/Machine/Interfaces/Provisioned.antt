-- ===== src/Machine/Interfaces/Provisioned.antt =====
-- The cluster controller and the machine controller together: what reconcileNormal of
-- internal/controller/ncxinfracluster_controller.go records is what buildInterfaces of
-- internal/controller/ncxinframachine_controller.go looks up.
use cluster_api_provider_nvi.Common.{
  String, Bool, true, false, List, [], ◌∷◌, map, none, ◌≡◌, ◌≢◌, ◌⊎◌, inl, inr, sym, ap, All,
  is_empty, if◌then◌else◌,
}
use cluster_api_provider_nvi.Common.Dict.{lookup}
use cluster_api_provider_nvi.Common.Exec.{ok}
use cluster_api_provider_nvi.Api.Cluster.{
  NcxInfraClusterSpec, NcxInfraCluster, SubnetSpec, VpcPrefixSpec,
}
use cluster_api_provider_nvi.Api.Machine.{NetworkInterface}
use cluster_api_provider_nvi.Kube.{Env, IsLawful}
use cluster_api_provider_nvi.Cluster.Scope.{ClusterWorld}
use cluster_api_provider_nvi.Cluster.Normal.{reconcile_normal, done}
use cluster_api_provider_nvi.Cluster.Normal.Provisioned.{IsProvisioned}
use cluster_api_provider_nvi.Cluster.Normal.Reconciled.{
  Ending, has_finalizer, reconcile_normal-Ending,
}
use cluster_api_provider_nvi.Machine.Scope.{MachineScope}
use cluster_api_provider_nvi.Machine.Interfaces.{build_interfaces}
use cluster_api_provider_nvi.Machine.Interfaces.Resolved.{
  attached, all_interfaces, IsRecorded, build_interfaces_iff,
}
use mathlib.Core.Path.{subst}

-- One of the elements has the name.
abbrev pub IsNameOf : {A : Type 0} → (A → String) → String → List A → Type 0
IsNameOf read name [] = ⊥
IsNameOf read name (x ∷ xs) = (read x ≡ name) ⊎ IsNameOf read name xs

-- The interface names a prefix of the cluster's spec, or else a subnet.
abbrev pub IsNamed : NcxInfraClusterSpec → NetworkInterface → Type 0
IsNamed spec f =
    if is_empty f.vpc_prefix_name
    then IsNameOf (λ (s : SubnetSpec). s.name) f.subnet_name spec.subnets
    else IsNameOf (λ (p : VpcPrefixSpec). p.name) f.vpc_prefix_name spec.vpc_prefixes

module _ {A : Type 0} (read : A → String) (P : String → Type 0) where
  All-IsNameOf :
      (name : String) (xs : List A) → All (λ x. P (read x)) xs → IsNameOf read name xs → P name
  All-IsNameOf name [] all one = elim one [ ]
  All-IsNameOf name (x ∷ xs) (p, all) (inl e) = subst P e p
  All-IsNameOf name (x ∷ xs) (p, all) (inr one) = All-IsNameOf name xs all one

IsNamed-IsRecorded :
    (o : NcxInfraCluster) (f : NetworkInterface)
    → IsProvisioned o
    → IsNamed o.spec f
    → IsRecorded o.status.network_status f
IsNamed-IsRecorded o f p = by_prefix (is_empty f.vpc_prefix_name)
  where
    by_prefix :
        (b : Bool)
        → (if b
            then IsNameOf (λ (s : SubnetSpec). s.name) f.subnet_name o.spec.subnets
            else IsNameOf (λ (p : VpcPrefixSpec). p.name) f.vpc_prefix_name o.spec.vpc_prefixes)
        → (if b
            then lookup f.subnet_name o.status.network_status.subnet_ids
            else lookup f.vpc_prefix_name o.status.network_status.vpc_prefix_ids)
          ≢ none
    by_prefix true h =
        All-IsNameOf (λ (s : SubnetSpec). s.name)
          (λ name. lookup name o.status.network_status.subnet_ids ≢ none) f.subnet_name
          o.spec.subnets p.all_subnets h
    by_prefix false h =
        All-IsNameOf (λ (s : VpcPrefixSpec). s.name)
          (λ name. lookup name o.status.network_status.vpc_prefix_ids ≢ none) f.vpc_prefix_name
          o.spec.vpc_prefixes p.all_prefixes h

All-IsRecorded :
    (o : NcxInfraCluster) (fs : List NetworkInterface)
    → IsProvisioned o
    → All (IsNamed o.spec) fs
    → All (IsRecorded o.status.network_status) fs
All-IsRecorded o [] p all = tt
All-IsRecorded o (f ∷ fs) p (h, all) = (IsNamed-IsRecorded o f p h, All-IsRecorded o fs p all)

-- After a cluster run that succeeds, the interfaces of every machine whose networks are named in the
-- cluster's spec are built, with the IDs that the run left in the status.
pub build_interfaces_provisioned :
    (env : Env) (lawful : IsLawful env.kube) (w v : ClusterWorld)
    → has_finalizer env w ≡ true
    → reconcile_normal env w ≡ (ok done, v)
    → (s : MachineScope) → s.cluster ≡ v.object
    → All (IsNamed w.object.spec) (all_interfaces s.machine.spec.network)
    → build_interfaces s
      ≡ ok (map (attached v.object.status.network_status) (all_interfaces s.machine.spec.network))
build_interfaces_provisioned env lawful w v guarded run s same named =
    let (_, ready) = subst (Ending env w) run (reconcile_normal-Ending env lawful w guarded) in
    let fs = all_interfaces s.machine.spec.network in
    let named' : All (IsNamed v.object.spec) fs =
      subst (λ spec. All (IsNamed spec) fs) (sym ready.same_spec) named in
    let recorded = All-IsRecorded v.object fs ready.provisioned named' in
    let net = ap (λ c. c.status.network_status) same in
    (build_interfaces_iff s (map (attached v.object.status.network_status) fs)).1 (
      subst (λ n. All (IsRecorded n) fs) (sym net) recorded,
      ap (λ n. map (attached n) fs) (sym net),
    )
