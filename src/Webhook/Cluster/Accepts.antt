-- ===== src/Webhook/Cluster/Accepts.antt =====
-- Which clusters the webhook of api/v1beta1/nvidiacarbidecluster_webhook.go lets through.
use cluster_api_provider_nvi.Common.{
  ℕ, String, List, [], none, is_empty_iff, eq_iff, ◌≡◌, ◌≢◌, ◌↔◌, ◌⊎◌, arith, All,
}
use cluster_api_provider_nvi.Api.Cluster.{NcxInfraClusterSpec, SubnetSpec, VpcPrefixSpec}
use cluster_api_provider_nvi.Cidr.{net_parse_cidr}
use cluster_api_provider_nvi.Webhook.Field.{
  PathElement, report_each, append-eq-nil_iff, report_each-eq-nil_iff, concat-eq-nil_iff,
}
use cluster_api_provider_nvi.Webhook.Cluster.{
  validate_cidr, validate_subnet, validate_vpc_prefix, cluster_errors, validate_cluster,
  validate_immutable_fields, validate_create, validate_update,
}

-- A CIDR that Go's parser takes.
abbrev pub IsCidr : String → Type 0
IsCidr cidr = (cidr ≢ "") × (net_parse_cidr cidr ≢ none)

abbrev pub IsSubnet : SubnetSpec → Type 0
IsSubnet s = (s.name ≢ "") × IsCidr s.cidr

abbrev pub IsVpcPrefix : VpcPrefixSpec → Type 0
IsVpcPrefix s = (s.name ≢ "") × IsCidr s.cidr

-- What a cluster must be, written without the validator.
pub record IsAcceptable (s : NcxInfraClusterSpec) : Type 0 where
  pub vpc_named : s.vpc.name ≢ ""
  pub virtualization :
      (s.vpc.network_virtualization_type ≡ "")
      ⊎ ((s.vpc.network_virtualization_type ≡ "ETHERNET_VIRTUALIZER")
          ⊎ (s.vpc.network_virtualization_type ≡ "FNN"))
  pub site_named : (s.site_ref.name ≢ "") ⊎ (s.site_ref.id ≢ "")
  pub tenant_named : s.tenant_id ≢ ""
  pub some_subnet : s.subnets ≢ []
  pub all_subnets : All IsSubnet s.subnets
  pub all_prefixes : All IsVpcPrefix s.vpc_prefixes
  pub secret_named : s.authentication.secret_name ≢ ""

validate_cidr-eq-nil_iff :
    (path : List PathElement) (cidr : String) → (validate_cidr path cidr ≡ []) ↔ IsCidr cidr
unfolding validate_cidr
validate_cidr-eq-nil_iff path cidr = ground (arith, is_empty_iff cidr)

validate_subnet-eq-nil_iff : (i : ℕ) (s : SubnetSpec) → (validate_subnet i s ≡ []) ↔ IsSubnet s
unfolding validate_subnet
validate_subnet-eq-nil_iff i s = ground (arith, is_empty_iff s.name, is_empty_iff s.cidr)

validate_vpc_prefix-eq-nil_iff :
    (i : ℕ) (s : VpcPrefixSpec) → (validate_vpc_prefix i s ≡ []) ↔ IsVpcPrefix s
unfolding validate_vpc_prefix
validate_vpc_prefix-eq-nil_iff i s = ground (arith, is_empty_iff s.name, is_empty_iff s.cidr)

module _ (s : NcxInfraClusterSpec) where
  subnets_iff : (report_each validate_subnet 0 s.subnets ≡ []) ↔ All IsSubnet s.subnets
  subnets_iff =
      report_each-eq-nil_iff validate_subnet IsSubnet validate_subnet-eq-nil_iff 0 s.subnets

  prefixes_iff :
      (report_each validate_vpc_prefix 0 s.vpc_prefixes ≡ []) ↔ All IsVpcPrefix s.vpc_prefixes
  prefixes_iff =
      report_each-eq-nil_iff validate_vpc_prefix IsVpcPrefix validate_vpc_prefix-eq-nil_iff 0
        s.vpc_prefixes

  errors_iff : (validate_cluster s ≡ []) ↔ All (λ xs. xs ≡ []) (cluster_errors s)
  unfolding validate_cluster
  errors_iff = concat-eq-nil_iff (cluster_errors s)

  validate_cluster-IsAcceptable : validate_cluster s ≡ [] → IsAcceptable s
  unfolding cluster_errors
  validate_cluster-IsAcceptable e =
      let (a, (b, (c, (d, (f, (g, (h, (k, _)))))))) = errors_iff.0 e in
      record {
        vpc_named = ground (arith, is_empty_iff s.vpc.name);
        virtualization = ground (
          arith,
          is_empty_iff s.vpc.network_virtualization_type,
          eq_iff s.vpc.network_virtualization_type "ETHERNET_VIRTUALIZER",
          eq_iff s.vpc.network_virtualization_type "FNN",
        );
        site_named = ground (arith, is_empty_iff s.site_ref.name, is_empty_iff s.site_ref.id);
        tenant_named = ground (arith, is_empty_iff s.tenant_id);
        some_subnet = ground arith;
        all_subnets = subnets_iff.0 g;
        all_prefixes = prefixes_iff.0 h;
        secret_named = ground (arith, is_empty_iff s.authentication.secret_name);
      }

  IsAcceptable-validate_cluster : IsAcceptable s → validate_cluster s ≡ []
  unfolding cluster_errors
  IsAcceptable-validate_cluster h = errors_iff.1 (
    ground (arith, is_empty_iff s.vpc.name),
    (
      ground (
        arith,
        is_empty_iff s.vpc.network_virtualization_type,
        eq_iff s.vpc.network_virtualization_type "ETHERNET_VIRTUALIZER",
        eq_iff s.vpc.network_virtualization_type "FNN",
      ),
      (
        ground (arith, is_empty_iff s.site_ref.name, is_empty_iff s.site_ref.id),
        (
          ground (arith, is_empty_iff s.tenant_id),
          (
            ground arith,
            (
              subnets_iff.1 h.all_subnets,
              (
                prefixes_iff.1 h.all_prefixes,
                (ground (arith, is_empty_iff s.authentication.secret_name), tt),
              ),
            ),
          ),
        ),
      ),
    ),
  )

-- A cluster is admitted on creation exactly if it is acceptable: names, tenant and secret are
-- given, the site by name or ID, the virtualization type is empty or one of the two, there is a
-- subnet, and every subnet and prefix has a name and a CIDR that parses.
pub validate_create_iff : (s : NcxInfraClusterSpec) → (validate_create s ≡ []) ↔ IsAcceptable s
unfolding validate_create
validate_create_iff s = (validate_cluster-IsAcceptable s, IsAcceptable-validate_cluster s)

-- The four fields that stay as they were.
pub record IsUnmoved (old new : NcxInfraClusterSpec) : Type 0 where
  pub site_name : old.site_ref.name ≡ new.site_ref.name
  pub site_id : old.site_ref.id ≡ new.site_ref.id
  pub tenant : old.tenant_id ≡ new.tenant_id
  pub vpc_name : old.vpc.name ≡ new.vpc.name

validate_immutable_fields_iff :
    (old new : NcxInfraClusterSpec) → (validate_immutable_fields old new ≡ []) ↔ IsUnmoved old new
unfolding validate_immutable_fields
validate_immutable_fields_iff old new = ground (
  arith,
  eq_iff old.site_ref.name new.site_ref.name,
  eq_iff old.site_ref.id new.site_ref.id,
  eq_iff old.tenant_id new.tenant_id,
  eq_iff old.vpc.name new.vpc.name,
)

-- An update is admitted exactly if the new cluster is acceptable and keeps the site reference, the
-- tenant and the name of the VPC.
pub validate_update_iff :
    (old new : NcxInfraClusterSpec)
    → (validate_update old new ≡ []) ↔ (IsAcceptable new × IsUnmoved old new)
unfolding validate_update
validate_update_iff old new =
    let (to, from) = append-eq-nil_iff (validate_cluster new) (validate_immutable_fields old new) in
    (
      (λ e. (
        validate_cluster-IsAcceptable new (to e).0,
        (validate_immutable_fields_iff old new).0 (to e).1,
      )),
      (λ h.
          from
            (IsAcceptable-validate_cluster new h.0, (validate_immutable_fields_iff old new).1 h.1)),
    )
