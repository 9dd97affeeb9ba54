-- ===== src/Machine/Scope/Bootstrap.antt =====
-- `GetBootstrapData` of pkg/scope/machine.go.
use cluster_api_provider_nvi.Common.{String, none, some, ◌<>◌}
use cluster_api_provider_nvi.Common.Dict.{Dict, lookup}
use cluster_api_provider_nvi.Common.Exec.{Outcome, ok, failed}
use cluster_api_provider_nvi.Kube.{Fetched, found, not_found, broken}
use cluster_api_provider_nvi.Machine.Scope.{OwnerMachine}

-- `GetBootstrapData`, from the answer for the secret.
unfoldable pub read_bootstrap_data : Fetched Dict → Outcome String String
read_bootstrap_data not_found = failed "failed to get bootstrap secret: not found"
read_bootstrap_data (broken e) = failed ("failed to get bootstrap secret: " <> e)
read_bootstrap_data (found secret) = elim (lookup "value" secret) [
  | none ↦ failed "bootstrap secret missing 'value' key"
  | some value ↦ ok value
]

unfoldable pub get_bootstrap_data :
    (String × String → Fetched Dict) → OwnerMachine → Outcome String String
unfolding read_bootstrap_data
get_bootstrap_data secrets owner = elim (owner.data_secret_name) [
  | none ↦ failed "bootstrap data secret name is not set"
  | some name ↦ read_bootstrap_data (secrets (owner.namespace, name))
]
