-- ===== src/Tests/Admitted.antt =====
-- A cluster from its admission to its readiness.
use cluster_api_provider_nvi.Common.{String, [], ◌≡◌, ◌≢◌, refl}
use cluster_api_provider_nvi.Common.Exec.{ok}
use cluster_api_provider_nvi.Cidr.{net_parse_cidr}
use cluster_api_provider_nvi.Webhook.Cluster.{validate_create}
use cluster_api_provider_nvi.Cluster.Allocation.{derived_id}
use cluster_api_provider_nvi.Cluster.Normal.{reconcile_normal, done}
use cluster_api_provider_nvi.Cluster.Normal.Reconciled.{IsReady}
use cluster_api_provider_nvi.Cluster.Returns.Willing.{IsCreated, HasAllocation, IsWilling}
use cluster_api_provider_nvi.Cluster.Returns.Admitted.{reconcile_normal-admitted}
use cluster_api_provider_nvi.Tests.Fixtures.{kube-IsLawful}
use cluster_api_provider_nvi.Tests.Steady.{
  making, making_env, made, allocated, full_spec, full_world, full_world-finalizer, filled,
}

made-IsCreated : (id : String) → id ≢ "" → IsCreated (made id)
made-IsCreated id f = record { no_error = refl; status = refl; id = id; value = refl; filled = f }

allocated-HasAllocation : HasAllocation allocated
unfolding derived_id
allocated-HasAllocation = record {
  no_error = refl;
  allocation = _;
  value = refl;
  id = "a1";
  has_id = refl;
  child = "c1";
  has_child = refl;
  filled = filled "c1" refl;
}

making-IsWilling : IsWilling full_spec making
making-IsWilling = record {
  vpc = λ past r. made-IsCreated "v1" (filled "v1" refl);
  ip_block = λ past r. made-IsCreated "p1" (filled "p1" refl);
  subnet = λ past r. made-IsCreated "s1" (filled "s1" refl);
  prefix = λ past r. made-IsCreated "p2" (filled "p2" refl);
  peering = λ past r. made-IsCreated "e1" (filled "e1" refl);
  nsg = λ past r. made-IsCreated "n1" (filled "n1" refl);
  allocated = λ past r. (allocated-HasAllocation, refl);
  allocation = λ past id. allocated-HasAllocation;
  site = λ past e. absurd (filled "site-1" refl e);
}

full_spec-admitted : validate_create full_spec ≡ []
unfolding validate_create net_parse_cidr
full_spec-admitted = refl

reconcile_normal-admitted_example :
    ((reconcile_normal making_env full_world).0 ≡ ok done)
    × IsReady making_env full_world (reconcile_normal making_env full_world).1
reconcile_normal-admitted_example =
    reconcile_normal-admitted making_env full_world kube-IsLawful full_world-finalizer
      full_spec-admitted making-IsWilling
