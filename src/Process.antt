-- ===== src/Process.antt =====
-- cmd/main.go, from the parsed flags on, with SetupWithManager of both controllers and
-- SetupWebhookWithManager of both types. The manager of controller-runtime is a parameter: what it answers
-- to a step, after the steps before. A configuration of TLS is its list of protocols, the one field that
-- the code writes. A log line before an exit is the error of the run.
pub mod Course
use cluster_api_provider_nvi.Common.{
  ℕ, String, Bool, true, false, not, List, [], ◌∷◌, ◌++◌, Option, none, some, is_empty, ◌<>◌,
  if◌then◌else◌,
}
use cluster_api_provider_nvi.Common.Exec.{Exec, Outcome, ok, failed, panic, ◌>>=◌, ◌>>◌}

pub record Flags : Type 0 where
  pub metrics_addr : String
  pub metrics_cert_path : String
  pub metrics_cert_name : String
  pub metrics_cert_key : String
  pub webhook_cert_path : String
  pub webhook_cert_name : String
  pub webhook_cert_key : String
  pub enable_leader_election : Bool
  pub probe_addr : String
  pub secure_metrics : Bool
  pub enable_http2 : Bool

-- The flags where the command line gives none.
abbrev pub default_flags : Flags
default_flags = record {
  metrics_addr = "0";
  metrics_cert_path = "";
  metrics_cert_name = "tls.crt";
  metrics_cert_key = "tls.key";
  webhook_cert_path = "";
  webhook_cert_name = "tls.crt";
  webhook_cert_key = "tls.key";
  enable_leader_election = false;
  probe_addr = ":8081";
  secure_metrics = true;
  enable_http2 = false;
}

pub record TlsConfig : Type 0 where
  pub next_protos : List String

unfoldable pub disable_http2 : TlsConfig → TlsConfig
disable_http2 c = record c { next_protos = "http/1.1" ∷ [] }

unfoldable pub tls_options : Flags → List (TlsConfig → TlsConfig)
unfolding disable_http2
tls_options f = if not f.enable_http2 then disable_http2 ∷ [] else []

-- A directory of certificates, with the names of certificate and key; none to have them made.
pub record Certificates : Type 0 where
  pub cert_dir : String
  pub cert_name : String
  pub key_name : String

pub record WebhookOptions : Type 0 where
  pub tls_opts : List (TlsConfig → TlsConfig)
  pub certificates : Option Certificates

pub record MetricsOptions : Type 0 where
  pub bind_address : String
  pub secure_serving : Bool
  pub tls_opts : List (TlsConfig → TlsConfig)
  -- `filters.WithAuthenticationAndAuthorization`
  pub has_filter_provider : Bool
  pub certificates : Option Certificates

pub record ManagerOptions : Type 0 where
  pub metrics : MetricsOptions
  pub webhook_server : WebhookOptions
  pub health_probe_bind_address : String
  pub leader_election : Bool
  pub leader_election_id : String

abbrev certificates_in : String → String → String → Option Certificates
certificates_in path name key =
    if not (is_empty path)
    then some (record { cert_dir = path; cert_name = name; key_name = key })
    else none

unfoldable pub webhook_server_options : Flags → WebhookOptions
unfolding tls_options
webhook_server_options f = record {
  tls_opts = tls_options f;
  certificates = certificates_in f.webhook_cert_path f.webhook_cert_name f.webhook_cert_key;
}

unfoldable pub metrics_server_options : Flags → MetricsOptions
unfolding tls_options
metrics_server_options f = record {
  bind_address = f.metrics_addr;
  secure_serving = f.secure_metrics;
  tls_opts = tls_options f;
  has_filter_provider = f.secure_metrics;
  certificates = certificates_in f.metrics_cert_path f.metrics_cert_name f.metrics_cert_key;
}

unfoldable pub manager_options : Flags → ManagerOptions
unfolding webhook_server_options metrics_server_options
manager_options f = record {
  metrics = metrics_server_options f;
  webhook_server = webhook_server_options f;
  health_probe_bind_address = f.probe_addr;
  leader_election = f.enable_leader_election;
  leader_election_id = "7eb3518c.cluster.x-k8s.io";
}

-- `GroupVersion`
abbrev pub group_version : String × String
group_version = ("infrastructure.cluster.x-k8s.io", "v1beta1")

-- A controller: the kind that it is for, the kind that it watches beside it and maps to its own, by
-- group, version and kind, its name, and that of its event recorder. Paused objects are left out.
pub record ControllerSetup : Type 0 where
  pub for_kind : String
  pub watched_kind : String
  pub mapped_to : (String × String) × String
  pub name : String
  pub recorder : String

abbrev pub cluster_controller : ControllerSetup
cluster_controller = record {
  for_kind = "NcxInfraCluster";
  watched_kind = "Cluster";
  mapped_to = (group_version, "NcxInfraCluster");
  name = "ncxinfracluster";
  recorder = "ncxinfracluster-controller";
}

abbrev pub machine_controller : ControllerSetup
machine_controller = record {
  for_kind = "NcxInfraMachine";
  watched_kind = "Machine";
  mapped_to = (group_version, "NcxInfraMachine");
  name = "ncxinframachine";
  recorder = "ncxinframachine-controller";
}

-- What `main` asks of the manager.
pub data Step : Type 0 where
  new_manager : ManagerOptions → Step
  setup_controller : ControllerSetup → Step
  -- `NewWebhookManagedBy(mgr).For(r).WithValidator(r)` for the kind.
  setup_webhook : String → Step
  add_healthz_check add_readyz_check : String → Step
  start : Step

-- The error of a step after the steps before, oldest first.
abbrev pub Manager : Type 0
Manager = List Step → Step → Option String

-- `if err := step(); err != nil { setupLog.Error(err, text); os.Exit(1) }`
unfoldable pub attempt : Manager → Step → String → Exec (List Step) String (Unit {0})
attempt m step text past = elim (m past step) [
  | none ↦ (ok tt, past ++ step ∷ [])
  | some e ↦ (failed (text <> ": " <> e), past ++ step ∷ [])
]

-- `main` behind `flag.Parse`.
unfoldable pub run_manager : Manager → Flags → Exec (List Step) String (Unit {0})
run_manager m f = do
  attempt m (new_manager (manager_options f)) "unable to start manager"
  attempt m (setup_controller cluster_controller) "unable to create controller"
  attempt m (setup_controller machine_controller) "unable to create controller"
  attempt m (setup_webhook "NcxInfraCluster") "unable to create webhook"
  attempt m (setup_webhook "NcxInfraMachine") "unable to create webhook"
  attempt m (add_healthz_check "healthz") "unable to set up health check"
  attempt m (add_readyz_check "readyz") "unable to set up ready check"
  attempt m start "problem running manager"

abbrev exit_code : {A : Type 0} → Outcome String A → ℕ
exit_code (ok a) = 0
exit_code (failed e) = 1
exit_code panic = 2

-- The exit code of the process, and the steps that it took.
unfoldable pub main : Manager → Flags → ℕ × List Step
unfolding run_manager
main m f = let (r, steps) = run_manager m f [] in (exit_code r, steps)
