-- ===== src/Tests/Attached.antt =====
-- The networks, labels and provider ID of a machine whose cluster was provisioned.
use cluster_api_provider_nvi.Common.{true, false, [], ◌∷◌, map, ◌≡◌, ◌↔◌, inl, refl, ap, All}
use cluster_api_provider_nvi.Common.Dict.{lookup}
use cluster_api_provider_nvi.Common.Exec.{ok}
use cluster_api_provider_nvi.ProviderId.RoundTrip.{IsUuidCodec}
use cluster_api_provider_nvi.Cluster.Scope.{ClusterWorld}
use cluster_api_provider_nvi.Cluster.Normal.{reconcile_normal}
use cluster_api_provider_nvi.Machine.Scope.{MachineScope}
use cluster_api_provider_nvi.Machine.Scope.Identity.{set_provider_id}
use cluster_api_provider_nvi.Machine.Scope.ProviderIds.{IsIdentified, provider_id-set_provider_id}
use cluster_api_provider_nvi.Machine.Update.{maps_equal, entries_equal}
use cluster_api_provider_nvi.Machine.Update.Equal.{maps_equal-replaced}
use cluster_api_provider_nvi.Machine.Interfaces.{build_interfaces}
use cluster_api_provider_nvi.Machine.Interfaces.Resolved.{
  attached, all_interfaces, IsRecorded, build_interfaces_iff,
}
use cluster_api_provider_nvi.Machine.Interfaces.Provisioned.{build_interfaces_provisioned}
use cluster_api_provider_nvi.Tests.Fixtures.{kube, kube-IsLawful}
use cluster_api_provider_nvi.Tests.Provision.{good, new_world, new_run}
use cluster_api_provider_nvi.Tests.Machines.{machine_spec, machine_with, owner, env, waiting}

-- The cluster after its first run.
abbrev provisioned : ClusterWorld
provisioned = (reconcile_normal good new_world).1

abbrev scope : MachineScope
scope = record { machine = machine_with false ""; owner = owner; cluster = provisioned.object }

build_interfaces_provisioned_example :
    build_interfaces scope
    ≡ ok (
        map
          (attached provisioned.object.status.network_status)
          (all_interfaces machine_spec.network))
unfolding kube
build_interfaces_provisioned_example =
    build_interfaces_provisioned good kube-IsLawful new_world provisioned refl
      (ap (λ r. (r, provisioned)) new_run) scope refl (inl refl, tt)

build_interfaces_iff_example : (build_interfaces waiting.object ≡ ok []) ↔ (
    All
      (IsRecorded waiting.object.cluster.status.network_status)
      (all_interfaces machine_spec.network)
    × ([]
        ≡ map
            (attached waiting.object.cluster.status.network_status)
            (all_interfaces machine_spec.network)))
build_interfaces_iff_example = build_interfaces_iff waiting.object []

maps_equal-replaced_example : maps_equal (("rack", "") ∷ []) (("zone", "1") ∷ []) ≡ true
unfolding maps_equal entries_equal lookup
maps_equal-replaced_example = maps_equal-replaced "rack" "zone" "1" [] [] refl refl refl

codec : IsUuidCodec (env.uuid_parse) (env.uuid_string)
codec = record { parse-string = λ u. refl; string-NoSlash = λ u. (refl, (refl, tt)) }

provider_id-set_provider_id_example :
    ((set_provider_id env "t" "s" "u1" waiting).0 ≡ ok tt)
    × IsIdentified env codec
        (record { org_name = "org"; tenant_name = "t"; site_name = "s"; instance_id = tt })
        (set_provider_id env "t" "s" "u1" waiting).1.object
provider_id-set_provider_id_example =
    provider_id-set_provider_id env codec "t" "s" "u1" tt waiting
      (record { org = (refl, (refl, (refl, tt))); tenant = (refl, tt); site = (refl, tt) }) refl
