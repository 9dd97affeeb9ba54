-- ===== src/Tests/Fixtures.antt =====
-- Concrete utilities and objects for the tests.
use cluster_api_provider_nvi.Common.{
  String, Bool, true, false, Option, none, some, List, [], ◌∷◌, ◌≡◌, ◌≢◌, refl, ◌==◌, ◌||◌,
  if◌then◌else◌, arith, eq_iff, eq_refl,
}
use cluster_api_provider_nvi.Api.Meta.{Condition, ObjectMeta}
use cluster_api_provider_nvi.Api.Cluster.{
  NcxInfraCluster, NcxInfraClusterSpec, NcxInfraClusterStatus, SubnetSpec,
}
use cluster_api_provider_nvi.Kube.{Kube, IsLawful}

contains : List String → String → Bool
contains [] f = false
contains (x ∷ xs) f = x == f || contains xs f

remove : List String → String → List String
remove [] f = []
remove (x ∷ xs) f = let rest = remove xs f in if x == f then rest else x ∷ rest

contains-remove : (xs : List String) (f : String) → contains (remove xs f) f ≡ false
unfolding contains remove
contains-remove [] f = refl
contains-remove (x ∷ xs) f = ground (arith, contains-remove xs f)

get : String → List Condition → Option Condition
get kind [] = none
get kind (c ∷ cs) = let rest = get kind cs in if c.kind == kind then some c else rest

get-set : (c : Condition) (cs : List Condition) → get c.kind (c ∷ cs) ≡ some c
unfolding get
get-set c cs = ground (arith, eq_refl c.kind)

get-set_other :
    (c : Condition) (cs : List Condition) (kind : String)
    → kind ≢ c.kind
    → get kind (c ∷ cs) ≡ get kind cs
unfolding get
get-set_other c cs kind h = ground (arith, eq_iff c.kind kind)

contains-add : (xs : List String) (f : String) → contains (f ∷ xs) f ≡ true
unfolding contains
contains-add xs f = ground (arith, eq_refl f)

unfoldable pub kube : Kube
unfolding contains remove get
kube = record {
  contains_finalizer = contains;
  add_finalizer = λ fs f. f ∷ fs;
  remove_finalizer = remove;
  set_condition = λ c cs. c ∷ cs;
  get_condition = get;
}

pub kube-IsLawful : IsLawful kube
unfolding kube
kube-IsLawful = record {
  contains-add = contains-add;
  contains-remove = contains-remove;
  get-set = get-set;
  get-set_other = get-set_other;
}

abbrev pub subnet : SubnetSpec
subnet = record { name = "workers"; cidr = "10.0.1.0/24"; role = "worker"; labels = [] }

abbrev pub spec : NcxInfraClusterSpec
spec = record {
  site_ref = record { name = ""; id = "site-1" };
  tenant_id = "tenant-1";
  vpc = record {
    name = "vpc";
    network_virtualization_type = "FNN";
    labels = [];
    network_security_group = none;
    nvlink_logical_partition_id = "";
    vni = none;
    description = "";
  };
  subnets = subnet ∷ [];
  vpc_prefixes = [];
  vpc_peerings = [];
  control_plane_endpoint = none;
  authentication = record { secret_name = "creds"; secret_namespace = "" };
}

abbrev pub meta : Bool → List String → ObjectMeta
meta deleted finalizers = record {
  name = "demo";
  namespace = "default";
  finalizers = finalizers;
  annotations = [];
  deleted = deleted;
}

-- A cluster with a security group, a subnet and a VPC.
abbrev pub provisioned : NcxInfraClusterStatus
provisioned = record {
  ready = true;
  vpc_id = "v1";
  network_status = record {
    subnet_ids = ("workers", "s1") ∷ [];
    vpc_prefix_ids = [];
    vpc_peering_ids = [];
    nsg_id = "n1";
    ip_block_id = "p1";
    allocation_id = "a1";
    child_ip_block_id = "c1";
  };
  failure_reason = none;
  failure_message = none;
  conditions = [];
}

abbrev pub cluster : NcxInfraCluster
cluster = record {
  meta = meta true ("ncxinfracluster.infrastructure.cluster.x-k8s.io" ∷ []);
  spec = spec;
  status = provisioned;
}
