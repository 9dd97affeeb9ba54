-- ===== src/Cluster/Respond.antt =====
-- How the cluster controller reads a reply: the test on an existing resource and the checks behind
-- each create call, which read the same in all six places of ncxinfracluster_controller.go.
use cluster_api_provider_nvi.Common.{String, Option, none, some, ◌<>◌, nat_eq, itoa, if◌then◌else◌}
use cluster_api_provider_nvi.Common.Exec.{Outcome, ok, failed, panic}
use cluster_api_provider_nvi.Sdk.{Resource}
use cluster_api_provider_nvi.Sdk.Wire.{Reply}

-- `if vpc == nil || vpc.Id == nil { return missing }`
unfoldable pub id_of : String → Option Resource → Outcome String String
id_of missing none = failed missing
id_of missing (some r) = elim (r.id) [ none ↦ failed missing | some id ↦ ok id ]

-- `httpResp.StatusCode != http.StatusCreated`, which dereferences the response.
unfoldable pub created_id : String → String → Reply Resource → Outcome String String
unfolding id_of
created_id what missing r = elim (r.err) [
  | some e ↦ failed (what <> ": " <> e)
  | none ↦ elim (r.http) [
    | none ↦ panic
    | some code ↦
        if nat_eq code 201 then id_of missing r.value else failed (what <> ", status " <> itoa code)
  ]
]
