-- ===== src/Machine/Interfaces/Resolved.antt =====
-- `buildInterfaces` of internal/controller/ncxinframachine_controller.go against a description of the
-- list that it makes.
use cluster_api_provider_nvi.Common.{
  String, false, List, [], ◌∷◌, map, Option, none, ◌≡◌, ◌≢◌, ◌↔◌, refl, arith, All, is_empty,
  text_of, if◌then◌else◌,
}
use cluster_api_provider_nvi.Common.Dict.{lookup}
use cluster_api_provider_nvi.Common.Exec.{Outcome, ok, failed, panic}
use cluster_api_provider_nvi.Api.Cluster.{NetworkStatus}
use cluster_api_provider_nvi.Api.Machine.{NetworkSpec, NetworkInterface}
use cluster_api_provider_nvi.Sdk.{InterfaceCreateRequest}
use cluster_api_provider_nvi.Machine.Scope.{MachineScope, get_subnet_id, get_vpc_prefix_id}
use cluster_api_provider_nvi.Machine.Interfaces.{
  on_prefix, on_subnet, primary_interface, additional_interface, cons_ok, additional_interfaces,
  build_interfaces,
}

-- The ID that is recorded for the prefix of an interface, or else for its subnet.
abbrev pub recorded_id : NetworkStatus → NetworkInterface → Option String
recorded_id net f =
    if is_empty f.vpc_prefix_name
    then lookup f.subnet_name net.subnet_ids
    else lookup f.vpc_prefix_name net.vpc_prefix_ids

abbrev pub attached : NetworkStatus → NetworkInterface → InterfaceCreateRequest
attached net f =
    let id = text_of (recorded_id net f) in
    if is_empty f.vpc_prefix_name then on_subnet id f.is_physical else on_prefix id f.ip_address

-- The primary interface, never a physical one.
abbrev primary : NetworkSpec → NetworkInterface
primary n = record {
  subnet_name = n.subnet_name;
  vpc_prefix_name = n.vpc_prefix_name;
  ip_address = n.ip_address;
  is_physical = false;
}

abbrev pub all_interfaces : NetworkSpec → List NetworkInterface
all_interfaces n = primary n ∷ n.additional_interfaces

abbrev pub IsRecorded : NetworkStatus → NetworkInterface → Type 0
IsRecorded net f = recorded_id net f ≢ none

additional_interface_iff :
    (net : NetworkStatus) (f : NetworkInterface) (r : InterfaceCreateRequest)
    → (additional_interface net f ≡ ok r) ↔ (IsRecorded net f × (r ≡ attached net f))
unfolding additional_interface
additional_interface_iff net f r = (λ e. (λ h. grind arith, grind arith), λ h. grind arith)

cons_ok-parts :
    {A : Type 0} (a : Outcome String A) (b : Outcome String (List A)) (l : List A)
    → cons_ok a b ≡ ok l
    → (x : A) × (xs : List A) × (a ≡ ok x) × (b ≡ ok xs) × (l ≡ x ∷ xs)
cons_ok-parts (ok x) (ok xs) l e = (x, xs, refl, refl, ground arith)
cons_ok-parts (ok x) (failed e) l h = absurd (ground arith)
cons_ok-parts (ok x) panic l h = absurd (ground arith)
cons_ok-parts (failed e) b l h = absurd (ground arith)
cons_ok-parts panic b l h = absurd (ground arith)

-- One step of the list, if the first is as described and the rest is.
cons_ok_iff :
    {A : Type 0} {P Q : Type 0} (a : Outcome String A) (b : Outcome String (List A)) (x : A)
    (xs l : List A)
    → ((r : A) → (a ≡ ok r) ↔ (P × (r ≡ x)))
    → ((r : List A) → (b ≡ ok r) ↔ (Q × (r ≡ xs)))
    → (cons_ok a b ≡ ok l) ↔ ((P × Q) × (l ≡ x ∷ xs))
cons_ok_iff a b x xs l f g = (
  (λ e.
      let (y, ys, there, rest, same) = cons_ok-parts a b l e in
      let (p, first) = (f y).0 there in let (q, others) = (g ys).0 rest in ((p, q), cc)),
  (λ h.
      let ((p, q), same) = h in
      let there = (f x).1 (p, refl) in let rest = (g xs).1 (q, refl) in rw (there, rest, same)),
)

additional_interfaces_iff :
    (net : NetworkStatus) (fs : List NetworkInterface) (l : List InterfaceCreateRequest)
    → (additional_interfaces net fs ≡ ok l)
      ↔ (All (IsRecorded net) fs × (l ≡ map (attached net) fs))
unfolding additional_interfaces
additional_interfaces_iff net [] l = (λ e. (tt, ground arith), λ h. ground arith)
additional_interfaces_iff net (f ∷ fs) l =
    cons_ok_iff (additional_interface net f) (additional_interfaces net fs) (attached net f)
      (map (attached net) fs) l (additional_interface_iff net f) (additional_interfaces_iff net fs)

primary_interface_iff :
    (s : MachineScope) (r : InterfaceCreateRequest)
    → (primary_interface s ≡ ok r) ↔ (
        IsRecorded s.cluster.status.network_status (primary s.machine.spec.network)
        × (r ≡ attached s.cluster.status.network_status (primary s.machine.spec.network)))
unfolding primary_interface get_subnet_id get_vpc_prefix_id
primary_interface_iff s r = (λ e. (λ h. grind arith, grind arith), λ h. grind arith)

-- The interfaces of a machine are built exactly if the cluster records an ID for the prefix, or else the
-- subnet, of each; they are then those of the spec in order, the primary one first and not physical, each
-- with the ID that is recorded.
pub build_interfaces_iff :
    (s : MachineScope) (l : List InterfaceCreateRequest)
    → (build_interfaces s ≡ ok l) ↔ (
        All (IsRecorded s.cluster.status.network_status) (all_interfaces s.machine.spec.network)
        × (l
            ≡ map
                (attached s.cluster.status.network_status)
                (all_interfaces s.machine.spec.network)))
unfolding build_interfaces
build_interfaces_iff s l =
    let net = s.cluster.status.network_status in
    let n = s.machine.spec.network in
    cons_ok_iff (primary_interface s) (additional_interfaces net n.additional_interfaces)
      (attached net (primary n)) (map (attached net) n.additional_interfaces) l
      (primary_interface_iff s) (additional_interfaces_iff net n.additional_interfaces)
