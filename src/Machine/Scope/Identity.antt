-- ===== src/Machine/Scope/Identity.antt =====
-- `ProviderID` and `SetProviderID` of pkg/scope/machine.go.
use cluster_api_provider_nvi.Common.{String, Option, none, some, is_empty, ◌<>◌, if◌then◌else◌}
use cluster_api_provider_nvi.Common.Exec.{ok, failed, panic, modify}
use cluster_api_provider_nvi.ProviderId.{ProviderId, to_string, parse_provider_id}
use cluster_api_provider_nvi.Api.Machine.{NcxInfraMachine}
use cluster_api_provider_nvi.Machine.Scope.{
  MachineWorld, MachineExec, MachineEnv, other, with_machine, with_owner,
}

module _ {U : Type 0} (e : MachineEnv U) where
  abbrev pub read_provider_id : Option String → Option (ProviderId U)
  read_provider_id none = none
  read_provider_id (some text) =
      if is_empty text then none else elim (parse_provider_id e.uuid_parse text) [
        | ok p ↦ some p
        | failed x ↦ none
        | panic ↦ none
      ]

  -- `ProviderID`: the one of the status, or else that of the spec.
  unfoldable pub provider_id : NcxInfraMachine → Option (ProviderId U)
  provider_id m = elim (read_provider_id m.status.provider_id) [
    | some p ↦ some p
    | none ↦ read_provider_id m.spec.provider_id
  ]

  abbrev pub with_provider_id : String → MachineWorld → MachineWorld
  with_provider_id text w =
      with_owner (λ o. record o { provider_id = text })
        (with_machine
          (λ m.
            let s = m.spec in
            let t = m.status in
            record m {
              spec = record s { provider_id = some text };
              status = record t { provider_id = some text };
            })
          w)

  -- `SetProviderID`: the status, the spec and the owner get the printed ID.
  unfoldable pub set_provider_id : String → String → String → MachineExec (Unit {0})
  unfolding to_string
  set_provider_id tenant site id = elim (e.uuid_parse id) [
    | none ↦ λ w. (failed (other ("invalid instance UUID " <> id)), w)
    | some u ↦ modify (
        with_provider_id (
          to_string e.uuid_string (record {
            org_name = e.org_name;
            tenant_name = tenant;
            site_name = site;
            instance_id = u;
          })))
  ]
