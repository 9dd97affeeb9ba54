-- ===== src/Tests/Targets.antt =====
-- A machine that targets a physical machine, the updates of an instance, and the end of a machine.
use cluster_api_provider_nvi.Common.{
  String, true, false, none, some, [], ◌∷◌, ◌≡◌, ◌≢◌, refl, ap, arith, is_empty,
}
use cluster_api_provider_nvi.Common.Exec.{ok}
use cluster_api_provider_nvi.Api.Machine.{NcxInfraMachineSpec}
use cluster_api_provider_nvi.Sdk.{Instance, Site, FaultEvent}
use cluster_api_provider_nvi.Sdk.Wire.{Cloud, get_site, list_fault_events, delete_instance}
use cluster_api_provider_nvi.Cluster.Normal.{done}
use cluster_api_provider_nvi.Machine.Scope.{MachineEnv, MachineWorld}
use cluster_api_provider_nvi.Machine.Faults.{supports_faults}
use cluster_api_provider_nvi.Machine.Instance.{requeue_after}
use cluster_api_provider_nvi.Machine.Update.{
  build_update_request, string_slices_equal, keys_changed, labels_changed, elements_equal,
}
use cluster_api_provider_nvi.Machine.Update.Settles.{IsApplied, build_update_request_settled}
use cluster_api_provider_nvi.Machine.Normal.{check_and_create}
use cluster_api_provider_nvi.Machine.Delete.{reconcile_delete}
use cluster_api_provider_nvi.Machine.Delete.Released.{is_gone, reconcile_delete-Deletion}
use cluster_api_provider_nvi.Machine.Life.{begins}
use cluster_api_provider_nvi.Machine.Life.Deleted.{Life-deleted}
use cluster_api_provider_nvi.Machine.Entry.{fresh_world}
use cluster_api_provider_nvi.Sdk.Wire.{Reply}
use cluster_api_provider_nvi.Api.Meta.{ReconcileResult}
use cluster_api_provider_nvi.Machine.Scope.{MachineExec}
use cluster_api_provider_nvi.Machine.Create.Rejected.{taken, is_failed, receive_created_rejected}
use cluster_api_provider_nvi.Tests.Fixtures.{kube, cluster}
use cluster_api_provider_nvi.Tests.Machines.{
  machine_spec, machine_with, owner, env, service, instance,
}

-- A machine with a key group, an instance without, and the instance after the update.
abbrev keyed : NcxInfraMachineSpec
keyed = record machine_spec { ssh_key_groups = "admins" ∷ [] }

abbrev updated : Instance
updated = record instance { ssh_key_group_ids = "admins" ∷ [] }

applied : IsApplied (build_update_request keyed instance).0 instance updated
unfolding build_update_request keys_changed labels_changed string_slices_equal elements_equal
applied = record { keys = refl; labels = refl }

build_update_request_settled_example : (build_update_request keyed updated).1 ≡ false
build_update_request_settled_example =
    build_update_request_settled keyed instance updated tt applied

-- The service answers a deletion with 404.
abbrev ended : MachineWorld
ended = (reconcile_delete (env.env) (fresh_world (machine_with true "u1") owner cluster)).1

ends : (reconcile_delete (env.env) (fresh_world (machine_with true "u1") owner cluster)).0 ≡ ok done
unfolding service
ends =
    (reconcile_delete-Deletion (env.env)
      (fresh_world (machine_with true "u1") owner cluster)).result

recorded : ◌≢◌ {A = String} "u1" ""
recorded h = let e : false ≡ true = ap is_empty h in ground arith

Life-deleted_example :
    (ended.calls ≡ delete_instance "u1" ∷ []) × (is_gone (service [] (delete_instance "u1")) ≡ true)
Life-deleted_example =
    Life-deleted {U = Unit {0}} (env.env) owner cluster (begins (machine_with true "u1")) recorded
      ends

abbrev fault : FaultEvent
fault = record {
  machine_id = some "m1";
  classification = some "GPU";
  message = none;
  state = some "open";
  severity = some "critical";
  remediation_workflow_id = none;
}

abbrev site : Site
site = record {
  id = some "site-1";
  name = none;
  capabilities = some (record { nvlink_partition = none; fault_management = some true });
}

careful : Cloud
careful history (get_site id) = record { value = some site; http = some 200; err = none }
careful history (list_fault_events m s v) = record {
  value = some (fault ∷ []);
  http = some 200;
  err = none;
}
careful history c = record { value = none; http = some 404; err = some "not found" }

abbrev careful_env : MachineEnv (Unit {0})
careful_env = record env { env = record { cloud = careful; kube = kube; recorder = true } }

abbrev targeting : MachineWorld
targeting =
    fresh_world
      (record (machine_with false "") {
        spec = record machine_spec {
          instance_type = record { id = ""; machine_id = "m1"; allow_unhealthy_machine = false };
        };
      })
      owner cluster

-- The check before the creation sees the fault: no instance is made, and the run comes again.
deferred :
    ((check_and_create careful_env targeting).0 ≡ ok (requeue_after 30))
    × ((check_and_create careful_env targeting).1.calls
        ≡ get_site "site-1" ∷ list_fault_events "m1" "open" "critical" ∷ [])
unfolding check_and_create supports_faults careful
deferred = (refl, refl)

abbrev again : MachineExec ReconcileResult
again w = (ok done, w)

-- The reply of a service that is overloaded.
abbrev busy : Reply Instance
busy = record { value = none; http = some 503; err = some "busy" }

receive_created_rejected_example :
    ((taken env "s" busy again targeting).1.object.machine.status.failure_reason ≡ none)
    × ((taken env "s" busy again targeting).1.object.machine.status.instance_id ≡ "")
    × (false ≡ false → (taken env "s" busy again targeting).0 ≡ ok (requeue_after 10))
    × (is_failed (taken env "s" busy again targeting).0 ≡ false)
receive_created_rejected_example = receive_created_rejected env "s" busy again targeting refl
