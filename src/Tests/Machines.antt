-- ===== src/Tests/Machines.antt =====
-- Runs of the machine controller on a machine that waits for its instance, one that has it, and one that
-- is being deleted.
use cluster_api_provider_nvi.Common.{
  String, Bool, true, false, none, some, [], ◌∷◌, ◌≡◌, ◌≢◌, refl, sym, ◌∙◌, arith,
}
use cluster_api_provider_nvi.Common.Dict.{Dict, lookup}
use cluster_api_provider_nvi.Common.Text.{strip_prefix}
use cluster_api_provider_nvi.Common.Exec.{ok}
use cluster_api_provider_nvi.ApiError.{classify_api_error}
use cluster_api_provider_nvi.Api.Machine.{
  NcxInfraMachine, NcxInfraMachineSpec, NcxInfraMachineStatus,
}
use cluster_api_provider_nvi.Sdk.{Instance}
use cluster_api_provider_nvi.Sdk.Wire.{
  Cloud, create_instance, delete_instance, get_instance, get_all_instance,
}
use cluster_api_provider_nvi.Kube.{found}
use cluster_api_provider_nvi.Cluster.Entry.{new_cluster_scope}
use cluster_api_provider_nvi.Machine.Scope.{OwnerMachine, MachineWorld, MachineEnv}
use cluster_api_provider_nvi.Machine.Instance.{reconcile_instance}
use cluster_api_provider_nvi.Machine.Normal.{machine_finalizer, reconcile_normal}
use cluster_api_provider_nvi.Machine.Normal.Course.{Course}
use cluster_api_provider_nvi.Machine.Delete.{reconcile_delete}
use cluster_api_provider_nvi.Machine.Delete.Released.{Deletion, reconcile_delete-Deletion}
use cluster_api_provider_nvi.Machine.Frame.{Frame}
use cluster_api_provider_nvi.Machine.Frame.Instance.{reconcile_instance-Frame}
use cluster_api_provider_nvi.Machine.Life.{provisions, begins, lives_on, MakesNone, Life-settled}
use cluster_api_provider_nvi.Machine.Entry.{MachineInputs, fresh_world, reconcile}
use cluster_api_provider_nvi.Machine.Entry.Permitted.{IsPermitted, reconcile_machine-IsPermitted}
use cluster_api_provider_nvi.Cluster.Normal.{done}
use cluster_api_provider_nvi.Machine.Phase.{view, Reaches, reconcile_normal-Reaches}
use cluster_api_provider_nvi.Machine.Instance.Verdict.{reconcile_instance-verdict}
use cluster_api_provider_nvi.Machine.Instance.Ready.{reconcile_instance-ready}
use cluster_api_provider_nvi.Tests.Fixtures.{kube, kube-IsLawful, cluster, meta}

abbrev pub machine_spec : NcxInfraMachineSpec
machine_spec = record {
  provider_id = none;
  instance_type = record { id = "type-1"; machine_id = ""; allow_unhealthy_machine = false };
  operating_system = none;
  network = record {
    subnet_name = "workers";
    vpc_prefix_name = "";
    ip_address = "";
    additional_interfaces = [];
  };
  ssh_key_groups = [];
  infiniband_interfaces = [];
  nvlink_interfaces = [];
  dpu_extension_services = [];
  labels = [];
  description = "";
  always_boot_with_custom_ipxe = false;
  phone_home_enabled = none;
}

abbrev pub status_with : String → NcxInfraMachineStatus
status_with id = record {
  ready = false;
  instance_id = id;
  machine_id = "";
  instance_state = "";
  provider_id = none;
  addresses = [];
  failure_reason = none;
  failure_message = none;
  conditions = [];
}

abbrev pub machine_with : Bool → String → NcxInfraMachine
machine_with deleted id = record {
  meta = meta deleted (machine_finalizer ∷ []);
  spec = machine_spec;
  status = status_with id;
}

abbrev pub owner : OwnerMachine
owner = record {
  name = "worker-0";
  namespace = "default";
  control_plane = "";
  data_secret_name = some "boot";
  provider_id = "";
  addresses = [];
}

abbrev pub instance : Instance
instance = record {
  id = some "u1";
  name = some "worker-0";
  machine_id = none;
  status = some "Ready";
  serial_console_url = none;
  interfaces = ("10.0.1.7" ∷ []) ∷ [];
  ssh_key_group_ids = [];
  labels = [];
  created = true;
}

-- A service that makes and shows the instance, and knows none by name.
unfoldable pub service : Cloud
service history (create_instance r) = record { value = some instance; http = some 201; err = none }
service history (get_instance id) = record { value = some instance; http = some 200; err = none }
service history get_all_instance = record { value = some []; http = some 200; err = none }
service history c = record { value = none; http = some 404; err = some "not found" }

abbrev pub env : MachineEnv (Unit {0})
env = record {
  env = record { cloud = service; kube = kube; recorder = true };
  org_name = "org";
  secrets = λ key. found (("value", "#cloud-config") ∷ []);
  uuid_parse = λ s. some tt;
  uuid_string = λ u. "u1";
}

abbrev pub waiting : MachineWorld
waiting = fresh_world (machine_with false "") owner cluster

abbrev following_one : MachineWorld
following_one = fresh_world (machine_with false "u1") owner cluster

abbrev leaving : MachineWorld
leaving = fresh_world (machine_with true "u1") owner cluster

reconcile_instance-Frame_example :
    Frame true following_one (reconcile_instance (env.env) following_one).1
unfolding service classify_api_error
reconcile_instance-Frame_example = reconcile_instance-Frame (env.env) following_one

reconcile_delete-Deletion_example :
    Deletion
      (env.env)
      leaving
      (reconcile_delete (env.env) leaving).0
      (reconcile_delete (env.env) leaving).1
reconcile_delete-Deletion_example = reconcile_delete-Deletion (env.env) leaving

-- What the run on a machine that has its instance leaves behind.
abbrev followed : MachineWorld
followed = (reconcile_normal env following_one).1

Life-settled_example :
    (◌≢◌ {A = String} "u1" ""
      → (followed.object.machine.status.instance_id ≡ "u1") × MakesNone followed.calls)
    × (false ≡ true → followed.object.machine.status.ready ≡ true)
Life-settled_example = Life-settled (
    lives_on (begins (machine_with false "u1"))
      (provisions env (machine_with false "u1") owner cluster))

abbrev secret : Dict
secret = ("endpoint", "https://api") ∷ ("orgName", "org") ∷ ("token", "t") ∷ []

abbrev inputs : MachineInputs
inputs = record {
  get_machine = found (machine_with true "u1");
  owner = ok (some owner);
  cluster = ok true;
  get_infra_cluster = found cluster;
  paused = false;
  patch_helper_error = none;
  client = none;
  secrets = λ key. found secret;
}

abbrev left : MachineWorld
left = (reconcile_delete (env.env) leaving).1

reached : (reconcile (λ creds. env) inputs).last ≡ some left
unfolding reconcile new_cluster_scope strip_prefix lookup
reached = refl

called : left.calls ≢ []
called h =
    let made : delete_instance "u1" ∷ [] ≡ [] =
      sym (reconcile_delete-Deletion (env.env) leaving).calls ∙ h in
    absurd (ground arith)

reconcile_machine-IsPermitted_example : IsPermitted (λ creds. env) inputs
reconcile_machine-IsPermitted_example =
    reconcile_machine-IsPermitted (λ creds. env) inputs left reached called

reconcile_normal-Reaches_example :
    Reaches
      (view kube waiting.object.machine)
      (view kube (reconcile_normal env waiting).1.object.machine)
reconcile_normal-Reaches_example = reconcile_normal-Reaches env waiting kube-IsLawful

reconcile_instance-verdict_example : (reconcile_instance (env.env) following_one).0 ≡ ok done
unfolding service
reconcile_instance-verdict_example = reconcile_instance-verdict (env.env) following_one

reconcile_instance-ready_example :
    (reconcile_instance (env.env) following_one).1.object.machine.status.ready ≡ true
unfolding service classify_api_error
reconcile_instance-ready_example = reconcile_instance-ready (env.env) following_one
