-- ===== src/Webhook/Cluster.antt =====
-- api/v1beta1/nvidiacarbidecluster_webhook.go. An admission is refused if an error is
-- collected. The details of `Invalid` and `NotSupported` are cut short.
pub mod Accepts
use cluster_api_provider_nvi.Common.{
  ℕ, String, Bool, true, false, not, ◌&&◌, List, [], ◌∷◌, ◌++◌, is_empty, is_nil, ◌==◌,
  if◌then◌else◌,
}
use cluster_api_provider_nvi.Api.Cluster.{NcxInfraClusterSpec, SubnetSpec, VpcPrefixSpec}
use cluster_api_provider_nvi.Cidr.{net_parse_cidr}
use cluster_api_provider_nvi.Webhook.Field.{
  PathElement, child, index, required, forbidden, invalid, not_supported, FieldError, report,
  report_each, concat,
}

abbrev field_path : List String → List PathElement
field_path [] = []
field_path (s ∷ path) = child s ∷ field_path path

-- The two tests on a CIDR, for subnets and for prefixes.
unfoldable pub validate_cidr : List PathElement → String → List FieldError
validate_cidr path cidr =
    if is_empty cidr
    then (record { error_type = required; path = path; detail = "CIDR must not be empty" }) ∷ []
    else report (is_nil (net_parse_cidr cidr))
        (record { error_type = invalid; path = path; detail = "invalid CIDR" })

abbrev element : String → ℕ → String → List PathElement
element list i name = child "spec" ∷ child list ∷ index i ∷ child name ∷ []

unfoldable pub validate_subnet : ℕ → SubnetSpec → List FieldError
unfolding validate_cidr
validate_subnet i s =
    report (is_empty s.name) (record {
      error_type = required;
      path = element "subnets" i "name";
      detail = "subnet name must not be empty";
    })
    ++ validate_cidr (element "subnets" i "cidr") s.cidr

unfoldable pub validate_vpc_prefix : ℕ → VpcPrefixSpec → List FieldError
unfolding validate_cidr
validate_vpc_prefix i s =
    report (is_empty s.name) (record {
      error_type = required;
      path = element "vpcPrefixes" i "name";
      detail = "VPC prefix name must not be empty";
    })
    ++ validate_cidr (element "vpcPrefixes" i "cidr") s.cidr

abbrev is_empty_list {ℓ} : {A : Type ℓ} → List A → Bool
is_empty_list [] = true
is_empty_list (x ∷ xs) = false

abbrev missing : List String → String → FieldError
missing path detail = record { error_type = required; path = field_path path; detail = detail }

-- The errors of `validateCluster`, part by part.
unfoldable pub cluster_errors : NcxInfraClusterSpec → List (List FieldError)
cluster_errors s =
    let nvt = s.vpc.network_virtualization_type in
    report (is_empty s.vpc.name)
      (missing ("spec" ∷ "vpc" ∷ "name" ∷ []) "VPC name must not be empty")
    ∷ report (not (is_empty nvt) && not (nvt == "ETHERNET_VIRTUALIZER") && not (nvt == "FNN"))
        (record {
          error_type = not_supported;
          path = field_path ("spec" ∷ "vpc" ∷ "networkVirtualizationType" ∷ []);
          detail = "supported values: ETHERNET_VIRTUALIZER, FNN";
        })
    ∷ report (is_empty s.site_ref.name && is_empty s.site_ref.id)
        (missing ("spec" ∷ "siteRef" ∷ []) "at least one of name or id must be specified")
    ∷ report (is_empty s.tenant_id)
        (missing ("spec" ∷ "tenantID" ∷ []) "tenant ID must not be empty")
    ∷ report (is_empty_list s.subnets)
        (missing ("spec" ∷ "subnets" ∷ []) "at least one subnet must be specified")
    ∷ report_each validate_subnet 0 s.subnets
    ∷ report_each validate_vpc_prefix 0 s.vpc_prefixes
    ∷ report (is_empty s.authentication.secret_name) (
        missing ("spec" ∷ "authentication" ∷ "secretRef" ∷ "name" ∷ [])
          "credentials secret name must not be empty")
    ∷ []

-- `validateCluster`
unfoldable pub validate_cluster : NcxInfraClusterSpec → List FieldError
unfolding concat cluster_errors validate_subnet validate_vpc_prefix
validate_cluster s = concat (cluster_errors s)

abbrev frozen : List String → FieldError
frozen path = record {
  error_type = forbidden;
  path = field_path path;
  detail = "field is immutable after creation";
}

-- `validateImmutableFields`, the old object first.
unfoldable pub validate_immutable_fields :
    NcxInfraClusterSpec → NcxInfraClusterSpec → List FieldError
validate_immutable_fields old new =
    report (not (old.site_ref.name == new.site_ref.name))
      (frozen ("spec" ∷ "siteRef" ∷ "name" ∷ []))
    ++ (report (not (old.site_ref.id == new.site_ref.id)) (frozen ("spec" ∷ "siteRef" ∷ "id" ∷ []))
        ++ (report (not (old.tenant_id == new.tenant_id)) (frozen ("spec" ∷ "tenantID" ∷ []))
            ++ report (not (old.vpc.name == new.vpc.name)) (frozen ("spec" ∷ "vpc" ∷ "name" ∷ []))))

-- `ValidateCreate`, for an object of the right type: the errors behind `ToAggregate`.
unfoldable pub validate_create : NcxInfraClusterSpec → List FieldError
unfolding validate_cluster
validate_create s = validate_cluster s

-- `ValidateUpdate`
unfoldable pub validate_update : NcxInfraClusterSpec → NcxInfraClusterSpec → List FieldError
unfolding validate_cluster validate_immutable_fields
validate_update old new = validate_cluster new ++ validate_immutable_fields old new
