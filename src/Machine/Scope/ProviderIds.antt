-- ===== src/Machine/Scope/ProviderIds.antt =====
-- `SetProviderID` and `ProviderID` of pkg/scope/machine.go.
use text.Mathlib.TextLemmas.{cons-append}
use cluster_api_provider_nvi.Common.{
  String, false, none, some, ◌≡◌, refl, sym, ap, ◌∙◌, is_empty, arith,
}
use mathlib.Core.Path.{subst}
use cluster_api_provider_nvi.Common.Exec.{ok}
use cluster_api_provider_nvi.Api.Machine.{NcxInfraMachine}
use cluster_api_provider_nvi.ProviderId.{ProviderId, to_string}
use cluster_api_provider_nvi.ProviderId.RoundTrip.{
  IsUuidCodec, HasPlainNames, parse_provider_id-to_string,
}
use cluster_api_provider_nvi.Machine.Scope.{MachineScope, MachineWorld, MachineEnv}
use cluster_api_provider_nvi.Machine.Scope.Identity.{
  with_provider_id, set_provider_id, provider_id, read_provider_id,
}

to_string-full : {U : Type 0} (f : U → String) (p : ProviderId U) → is_empty (to_string f p) ≡ false
unfolding to_string
to_string-full f p = rw cons-append refl

module _ {U : Type 0} (e : MachineEnv U) (codec : IsUuidCodec e.uuid_parse e.uuid_string) where
  abbrev made_id : String → String → U → ProviderId U
  made_id tenant site u = record {
    org_name = e.org_name;
    tenant_name = tenant;
    site_name = site;
    instance_id = u;
  }

  read_provider_id-to_string :
      (p : ProviderId U)
      → HasPlainNames p
      → read_provider_id e (some (to_string e.uuid_string p)) ≡ some p
  read_provider_id-to_string p plain =
      rw
        (
          to_string-full e.uuid_string p,
          parse_provider_id-to_string e.uuid_parse e.uuid_string codec p plain,
        )
        refl

  set_provider_id-ok :
      (tenant site id : String) (u : U) (w : MachineWorld)
      → e.uuid_parse id ≡ some u
      → set_provider_id e tenant site id w
        ≡ (ok tt, with_provider_id e (to_string e.uuid_string (made_id tenant site u)) w)
  unfolding set_provider_id
  set_provider_id-ok tenant site id u w h = grind arith

  provider_id-status :
      (m : NcxInfraMachine) (text : String) (p : ProviderId U)
      → m.status.provider_id ≡ some text
      → read_provider_id e (some text) ≡ some p
      → provider_id e m ≡ some p
  unfolding provider_id
  provider_id-status m text p same h =
      let read = ap (read_provider_id e) same ∙ h in
      ap (λ o. elim o [ some p ↦ some p | none ↦ read_provider_id e m.spec.provider_id ]) read

  -- The printed ID in the status, in the spec and in the owner, and the ID that is read.
  pub record IsIdentified (p : ProviderId U) (s : MachineScope) : Type 0 where
    pub status : s.machine.status.provider_id ≡ some (to_string e.uuid_string p)
    pub spec : s.machine.spec.provider_id ≡ some (to_string e.uuid_string p)
    pub owner : s.owner.provider_id ≡ to_string e.uuid_string p
    pub read_back : provider_id e s.machine ≡ some p

  with_provider_id-IsIdentified :
      (p : ProviderId U) (w : MachineWorld)
      → HasPlainNames p
      → IsIdentified p (with_provider_id e (to_string e.uuid_string p) w).object
  with_provider_id-IsIdentified p w plain =
      let text = to_string e.uuid_string p in
      record {
        status = refl;
        spec = refl;
        owner = refl;
        read_back =
            provider_id-status (with_provider_id e text w).object.machine text p refl
              (read_provider_id-to_string p plain);
      }

  -- For the UUID of an instance and names without a slash, SetProviderID succeeds and puts the printed ID
  -- into the status, the spec and the owner, and ProviderID reads back the ID that was printed.
  pub provider_id-set_provider_id :
      (tenant site id : String) (u : U) (w : MachineWorld)
      → HasPlainNames (made_id tenant site u)
      → e.uuid_parse id ≡ some u
      → ((set_provider_id e tenant site id w).0 ≡ ok tt)
        × IsIdentified (made_id tenant site u) (set_provider_id e tenant site id w).1.object
  provider_id-set_provider_id tenant site id u w plain h =
      let run = set_provider_id-ok tenant site id u w h in
      (
        ap (λ r. r.0) run,
        subst (λ r. IsIdentified (made_id tenant site u) r.1.object) (sym run)
            (with_provider_id-IsIdentified (made_id tenant site u) w plain),
      )
