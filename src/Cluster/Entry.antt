-- ===== src/Cluster/Entry.antt =====
-- `Reconcile` of internal/controller/ncxinfracluster_controller.go and `NewClusterScope` of
-- pkg/scope/cluster.go. What the Kubernetes API answers comes in as arguments, a failed read as its
-- error; the deferred patch writes the object as the run left it.
pub mod Permitted
pub mod Secret
use cluster_api_provider_nvi.Common.{
  ℕ, String, Bool, true, false, Option, none, some, ◌<>◌, is_empty, is_nil, if◌then◌else◌, List, [],
}
use cluster_api_provider_nvi.Common.Dict.{Dict, lookup}
use cluster_api_provider_nvi.Common.Text.{strip_prefix}
use cluster_api_provider_nvi.Common.Exec.{Outcome, ok, failed, panic}
use cluster_api_provider_nvi.Api.Meta.{ReconcileResult}
use cluster_api_provider_nvi.Api.Cluster.{NcxInfraCluster, AuthenticationSpec}
use cluster_api_provider_nvi.Sdk.Wire.{World}
use cluster_api_provider_nvi.Kube.{Env, Fetched, found, not_found, broken}
use cluster_api_provider_nvi.Cluster.Scope.{ClusterWorld}
use cluster_api_provider_nvi.Cluster.Delete.{reconcile_delete}
use cluster_api_provider_nvi.Cluster.Normal.{reconcile_normal, done}

-- What `NewClusterScope` reads of a secret for the client and the scope.
pub record Credentials : Type 0 where
  pub endpoint : String
  pub org_name : String
  pub token : String

-- The name and namespace under which the credentials are read.
unfoldable pub secret_key : NcxInfraCluster → String × String
secret_key c =
    let auth = c.spec.authentication in
    (
      auth.secret_name,
      (if is_empty auth.secret_namespace then c.meta.namespace else auth.secret_namespace),
    )

abbrev missing_field : String → String → String
missing_field name field = "secret " <> name <> " is missing '" <> field <> "' field"

-- The credentials of a secret's data.
unfoldable pub read_credentials : String → Dict → Outcome String Credentials
read_credentials name secret = elim (lookup "endpoint" secret) [
  | none ↦ failed (missing_field name "endpoint")
  | some endpoint ↦ elim (lookup "orgName" secret) [
    | none ↦ failed (missing_field name "orgName")
    | some org ↦ elim (lookup "token" secret) [
      | none ↦ failed (missing_field name "token")
      | some token ↦ elim (strip_prefix "https://" endpoint) [
        | none ↦ failed ("endpoint must use https:// scheme, got: " <> endpoint)
        | some rest ↦ ok (record { endpoint = endpoint; org_name = org; token = token })
      ]
    ]
  ]
]

-- The client of the scope: the one of the parameters with their organization, or a new one with the
-- credentials.
pub data Access : Type 0 where
  provided : String → Access
  authenticated : Credentials → Access

-- `OrgName` of the scope.
abbrev pub org_name_of : Access → String
org_name_of (provided org) = org
org_name_of (authenticated creds) = creds.org_name

abbrev authenticate : Outcome String Credentials → Outcome String Access
authenticate (ok creds) = ok (authenticated creds)
authenticate (failed e) = failed e
authenticate panic = panic

-- `NewClusterScope`, from the organization if a client is given, and what `Get` answers for the secret.
unfoldable pub new_cluster_scope :
    NcxInfraCluster → Option String → (String × String → Fetched Dict) → Outcome String Access
unfolding secret_key read_credentials
new_cluster_scope c (some org) secrets = ok (provided org)
new_cluster_scope c none secrets = elim (secrets (secret_key c)) [
  | found secret ↦ authenticate (read_credentials (secret_key c).0 secret)
  | not_found ↦ failed "failed to get credentials secret: not found"
  | broken e ↦ failed ("failed to get credentials secret: " <> e)
]

-- What the Kubernetes API and the Cluster API utilities answer in one run.
pub record ClusterInputs : Type 0 where
  pub get_cluster : Fetched NcxInfraCluster
  -- `util.GetOwnerCluster`: an error, or whether there is an owner.
  pub owner : Outcome String Bool
  -- `annotations.IsPaused`
  pub paused : Bool
  -- `patch.NewHelper`
  pub patch_helper_error : Option String
  -- `OrgName` of the reconciler, if its `NcxInfraClient` is set.
  pub client : Option String
  pub secrets : String × String → Fetched Dict

-- How a run ends: its result, and the world whose object the deferred patch writes; none where the
-- run ends before the patch is deferred.
pub record Run : Type 0 where
  pub result : Outcome String ReconcileResult
  pub patched : Option ClusterWorld

abbrev stop : Outcome String ReconcileResult → Run
stop r = record { result = r; patched = none }

abbrev fresh : NcxInfraCluster → ClusterWorld
fresh c = record { object = c; calls = []; events = []; metrics = [] }

abbrev run_of : Outcome String ReconcileResult × ClusterWorld → Run
run_of (r, w) = record { result = r; patched = some w }

-- From the scope on: the service is reached with its client.
unfoldable pub dispatch : (Access → Env) → NcxInfraCluster → Outcome String Access → Run
unfolding reconcile_delete reconcile_normal
dispatch env c (ok access) = run_of (
    if c.meta.deleted
    then reconcile_delete (env access) (fresh c)
    else reconcile_normal (env access) (fresh c))
dispatch env c (failed e) = record {
  result = failed ("failed to create cluster scope: " <> e);
  patched = some (fresh c);
}
dispatch env c panic = record { result = panic; patched = some (fresh c) }

unfoldable pub with_owner : (Access → Env) → ClusterInputs → NcxInfraCluster → Run
unfolding dispatch new_cluster_scope
with_owner env i c = if i.paused then stop (ok done) else elim (i.patch_helper_error) [
  | some e ↦ stop (failed e)
  | none ↦ dispatch env c (new_cluster_scope c i.client i.secrets)
]

unfoldable pub with_cluster : (Access → Env) → ClusterInputs → NcxInfraCluster → Run
unfolding with_owner
with_cluster env i c = elim (i.owner) [
  | failed e ↦ stop (failed e)
  | panic ↦ stop panic
  | ok owned ↦ if owned then with_owner env i c else stop (ok done)
]

-- `Reconcile`
unfoldable pub reconcile : (Access → Env) → ClusterInputs → Run
unfolding with_cluster
reconcile env i = elim (i.get_cluster) [
  | not_found ↦ stop (ok done)
  | broken e ↦ stop (failed e)
  | found c ↦ with_cluster env i c
]
