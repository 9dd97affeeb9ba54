-- ===== src/Cluster/Reads.antt =====
-- Steps of internal/controller/ncxinfracluster_controller.go that only read: rules for each way of
-- putting them together.
pub mod Steps
pub mod Planned
pub mod Stages
pub mod Quiet
pub mod Twice
use cluster_api_provider_nvi.Common.{
  String, Bool, true, false, is_empty, is_empty_iff, if◌then◌else◌, List, [], ◌∷◌, ◌++◌, some, ◌≡◌,
  ◌≢◌, refl, sym, ap, ◌∙◌, arith, append_assoc, append-nil, All,
}
use mathlib.Core.Path.{subst}
use cluster_api_provider_nvi.Common.Exec.{
  Outcome, ok, failed, panic, continue, pure, gets, modify, ◌>>=◌, ◌>>◌, finish, on_failure,
  for_each,
}
use cluster_api_provider_nvi.Api.Meta.{Condition}
use cluster_api_provider_nvi.Api.Cluster.{NcxInfraCluster}
use cluster_api_provider_nvi.Common.Dict.{lookup}
use cluster_api_provider_nvi.Sdk.Wire.{
  Call, get_vpc, get_ip_block, get_nsg, get_subnet, get_vpc_prefix, get_vpc_peering,
}
use cluster_api_provider_nvi.Kube.{Env}
use cluster_api_provider_nvi.Cluster.Scope.{ClusterWorld, ClusterExec, with_condition}
use cluster_api_provider_nvi.Cluster.Subnets.{wrap, wrap_exec}
use cluster_api_provider_nvi.Cluster.Normal.{guarded, mark}

abbrev pub concat_map : {A : Type 0} → (A → List Call) → List A → List Call
concat_map f [] = []
concat_map f (x ∷ xs) = f x ++ concat_map f xs

-- Metadata, spec and what the status says of the network.
pub record IsLike (o o' : NcxInfraCluster) : Type 0 where
  pub same_meta : o'.meta ≡ o.meta
  pub same_spec : o'.spec ≡ o.spec
  pub same_vpc : o'.status.vpc_id ≡ o.status.vpc_id
  pub same_network : o'.status.network_status ≡ o.status.network_status

-- A read of a resource under an ID that the status records for it.
abbrev pub IsRecordedRead : NcxInfraCluster → Call → Type 0
IsRecordedRead o (get_vpc id) = id ≡ o.status.vpc_id
IsRecordedRead o (get_ip_block id) = id ≡ o.status.network_status.child_ip_block_id
IsRecordedRead o (get_nsg id) = id ≡ o.status.network_status.nsg_id
IsRecordedRead o (get_subnet id) =
    (key : String) × (lookup key o.status.network_status.subnet_ids ≡ some id)
IsRecordedRead o (get_vpc_prefix id) =
    (key : String) × (lookup key o.status.network_status.vpc_prefix_ids ≡ some id)
IsRecordedRead o (get_vpc_peering id) =
    (key : String) × (lookup key o.status.network_status.vpc_peering_ids ≡ some id)
IsRecordedRead o _ = ⊥

-- Nothing but such reads since the calls of `base`.
abbrev pub OnlyRead : List Call → NcxInfraCluster → List Call → Type 0
OnlyRead base o calls = (l : List Call) × (calls ≡ base ++ l) × All (IsRecordedRead o) l

pub OnlyRead-refl : (base : List Call) (o : NcxInfraCluster) → OnlyRead base o base
OnlyRead-refl base o = ([], sym (append-nil base), tt)

All-append : (P : Call → Type 0) (l k : List Call) → All P l → All P k → All P (l ++ k)
All-append P [] k h g = g
All-append P (c ∷ l) k (p, h) g = (p, All-append P l k h g)

OnlyRead-append :
    (base : List Call) (o : NcxInfraCluster) (calls more end : List Call)
    → OnlyRead base o calls
    → All (IsRecordedRead o) more
    → end ≡ calls ++ more
    → OnlyRead base o end
OnlyRead-append base o calls more end (l, same, h) g e = (
  l ++ more,
  e ∙ ap (λ k. k ++ more) same ∙ append_assoc base l more,
  All-append (IsRecordedRead o) l more h g,
)

-- The end of a step that returned `a`, made the calls, and left all else but conditions and `Ready`.
pub record HasRead {A : Type 0} (o : NcxInfraCluster) (w : ClusterWorld) (a : A) (calls : List Call)
    (end : Outcome String A × ClusterWorld) : Type 0 where
  pub returned : end.0 ≡ ok a
  pub like : IsLike o end.1.object
  pub called : end.1.calls ≡ w.calls ++ calls
  pub no_event : end.1.events ≡ w.events
  pub no_metric : end.1.metrics ≡ w.metrics

-- So ends the step wherever the cluster is like `o` and nothing but what `o` records was read since `base`.
pub record Reads {A : Type 0} (base : List Call) (o : NcxInfraCluster) (m : ClusterExec A) (a : A)
    (calls : List Call) : Type 0 where
  pub recorded : All (IsRecordedRead o) calls
  pub at :
      (w : ClusterWorld) → OnlyRead base o w.calls → IsLike o w.object → HasRead o w a calls (m w)

module _ {o : NcxInfraCluster} where
  finish-HasRead :
      {A : Type 0} (g : String → ClusterWorld → ClusterWorld) (w : ClusterWorld) (a : A)
      (calls : List Call) (r : Outcome String A) (w' : ClusterWorld)
      → HasRead o w a calls (r, w')
      → HasRead o w a calls (finish g (r, w'))
  finish-HasRead g w a calls (ok b) w' h = h
  finish-HasRead g w a calls (failed e) w' h = absurd (ground (arith, h.returned))
  finish-HasRead g w a calls panic w' h = absurd (ground (arith, h.returned))

  wrap-HasRead :
      {A : Type 0} (text : String) (w : ClusterWorld) (a : A) (calls : List Call)
      (r : Outcome String A) (w' : ClusterWorld)
      → HasRead o w a calls (r, w')
      → HasRead o w a calls (wrap text r, w')
  wrap-HasRead text w a calls (ok b) w' h = h
  wrap-HasRead text w a calls (failed e) w' h = absurd (ground (arith, h.returned))
  wrap-HasRead text w a calls panic w' h = absurd (ground (arith, h.returned))

module _ {base : List Call} {o : NcxInfraCluster} where
  continue-HasRead :
      {A B : Type 0} (a : A) (b : B) (f : A → ClusterExec B) (first second : List Call)
      (w : ClusterWorld) (end : Outcome String A × ClusterWorld)
      → OnlyRead base o w.calls
      → All (IsRecordedRead o) first
      → HasRead o w a first end
      → Reads base o (f a) b second
      → HasRead o w b (first ++ second) (continue end.0 f end.1)
  continue-HasRead a b f first second w end only noted h k =
      let next =
        k.at end.1 (OnlyRead-append base o w.calls first end.1.calls only noted h.called) h.like in
      rw h.returned (record {
        returned = next.returned;
        like = next.like;
        called =
            next.called
            ∙ ap (λ (l : List Call). l ++ second) h.called
            ∙ append_assoc w.calls first second;
        no_event = next.no_event ∙ h.no_event;
        no_metric = next.no_metric ∙ h.no_metric;
      })

  pub Reads-bind :
      {A B : Type 0} {m : ClusterExec A} {f : A → ClusterExec B} {a : A} {b : B}
      {first second : List Call}
      → Reads base o m a first
      → ((x : A) → x ≡ a → Reads base o (f x) b second)
      → Reads base o (m >>= f) b (first ++ second)
  Reads-bind {m} {f} {a} {b} {first} {second} h k = record {
    recorded = All-append (IsRecordedRead o) first second h.recorded (k a refl).recorded;
    at = λ w only l.
        continue-HasRead a b f first second w (m w) only h.recorded (h.at w only l) (k a refl);
  }

  -- A step without a call in front.
  pub Reads-after :
      {A B : Type 0} {m : ClusterExec A} {f : A → ClusterExec B} {a : A} {b : B} {calls : List Call}
      → Reads base o m a []
      → ((x : A) → x ≡ a → Reads base o (f x) b calls)
      → Reads base o (m >>= f) b calls
  Reads-after h k = Reads-bind h k

  -- A step without a call behind.
  pub Reads-before :
      {A B : Type 0} {m : ClusterExec A} {f : A → ClusterExec B} {a : A} {b : B} {calls : List Call}
      → Reads base o m a calls
      → ((x : A) → x ≡ a → Reads base o (f x) b [])
      → Reads base o (m >>= f) b calls
  Reads-before {m} {f} {b} {calls} h k =
      subst (λ (l : List Call). Reads base o (m >>= f) b l) (append-nil calls) (Reads-bind h k)

  pub Reads-pure : {A : Type 0} (a : A) → Reads base o (pure a) a []
  Reads-pure a = record {
    recorded = tt;
    at = λ w only l. record {
      returned = refl;
      like = l;
      called = sym (append-nil w.calls);
      no_event = refl;
      no_metric = refl;
    };
  }

  pub Reads-gets :
      {A : Type 0} (f : ClusterWorld → A) (a : A)
      → ((w : ClusterWorld) → IsLike o w.object → f w ≡ a)
      → Reads base o (gets f) a []
  Reads-gets f a e = record {
    recorded = tt;
    at = λ w only l. record {
      returned = ap ok (e w l);
      like = l;
      called = sym (append-nil w.calls);
      no_event = refl;
      no_metric = refl;
    };
  }

  pub Reads-mark : (env : Env) (c : Condition) → Reads base o (mark env c) tt []
  unfolding mark
  Reads-mark env c = record {
    recorded = tt;
    at = λ w only l. record {
      returned = refl;
      like = record {
        same_meta = l.same_meta;
        same_spec = l.same_spec;
        same_vpc = l.same_vpc;
        same_network = l.same_network;
      };
      called = sym (append-nil w.calls);
      no_event = refl;
      no_metric = refl;
    };
  }

  pub Reads-guarded :
      {A : Type 0} (env : Env) (kind reason : String) {m : ClusterExec A} {a : A}
      {calls : List Call}
      → Reads base o m a calls
      → Reads base o (guarded env kind reason m) a calls
  unfolding guarded
  Reads-guarded env kind reason {m} {a} {calls} h = record {
    recorded = h.recorded;
    at = λ w only l. finish-HasRead _ w a calls (m w).0 (m w).1 (h.at w only l);
  }

  pub Reads-wrap_exec :
      {A : Type 0} (text : String) {m : ClusterExec A} {a : A} {calls : List Call}
      → Reads base o m a calls
      → Reads base o (wrap_exec text m) a calls
  Reads-wrap_exec text {m} {a} {calls} h = record {
    recorded = h.recorded;
    at = λ w only l. wrap-HasRead text w a calls (m w).0 (m w).1 (h.at w only l);
  }

  pub Reads-for_each :
      {A : Type 0} (body : A → ClusterExec (Unit {0})) (calls : A → List Call) (P : A → Type 0)
      → ((x : A) → P x → Reads base o (body x) tt (calls x))
      → (xs : List A) → All P xs
      → Reads base o (for_each body xs) tt (concat_map calls xs)
  unfolding for_each
  Reads-for_each body calls P step [] h = Reads-pure tt
  Reads-for_each body calls P step (x ∷ xs) (h, hs) =
      Reads-bind (step x h) (λ _ _. Reads-for_each body calls P step xs hs)

  -- The list may have been read before.
  pub Reads-loop :
      {A : Type 0} (body : A → ClusterExec (Unit {0})) (calls : A → List Call) (P : A → Type 0)
      → ((x : A) → P x → Reads base o (body x) tt (calls x))
      → (xs ys : List A) → xs ≡ ys
      → All P ys
      → Reads base o (for_each body xs) tt (concat_map calls ys)
  Reads-loop body calls P step xs ys e h = rw e (Reads-for_each body calls P step ys h)

  choose-Reads :
      {A : Type 0} (b : Bool) (m : ClusterExec A) {n : ClusterExec A} {a : A} {calls : List Call}
      → b ≡ false
      → Reads base o n a calls
      → Reads base o (if b then m else n) a calls
  choose-Reads true m e h = absurd (ground (arith, e))
  choose-Reads false m e h = h

  -- `if s == "" { ... }` with a text.
  pub Reads-filled :
      {A : Type 0} (s : String) (m : ClusterExec A) {n : ClusterExec A} {a : A} {calls : List Call}
      → s ≢ ""
      → Reads base o n a calls
      → Reads base o (if is_empty s then m else n) a calls
  Reads-filled s m v h = choose-Reads (is_empty s) m (ground (arith, is_empty_iff s)) h
