-- ===== src/Machine/Frame/Steps.antt =====
-- The frame of each step of `reconcileInstance` of internal/controller/ncxinframachine_controller.go.
use cluster_api_provider_nvi.Common.{
  String, Bool, List, Option, none, some, ◌≡◌, inl, refl, ap, is_empty, arith,
}
use cluster_api_provider_nvi.Common.Exec.{modify}
use cluster_api_provider_nvi.Api.Meta.{Condition}
use cluster_api_provider_nvi.Api.Machine.{NcxInfraMachineStatus}
use cluster_api_provider_nvi.ApiError.{ApiError}
use cluster_api_provider_nvi.Sdk.Wire.{Metric}
use cluster_api_provider_nvi.Kube.{Kube, Env}
use cluster_api_provider_nvi.Machine.Scope.{
  MachineWorld, with_status, with_owner, mark, record_event, count_metric, record_api_metrics,
  annotate_console, set_machine_id, set_instance_state, set_addresses, set_machine_failure,
}
use cluster_api_provider_nvi.Machine.Frame.{
  Moves, Tame, Moves-pure, Moves-if, Moves-modify, Moves-bind,
}

-- A write to the status that leaves the IDs and the readiness alone.
record Mild (f : NcxInfraMachineStatus → NcxInfraMachineStatus) : Type 0 where
  instance : (s : NcxInfraMachineStatus) → (f s).instance_id ≡ s.instance_id
  provider : (s : NcxInfraMachineStatus) → (f s).provider_id ≡ s.provider_id
  readiness : (s : NcxInfraMachineStatus) → (f s).ready ≡ s.ready

module _ {b : Bool} where
  Mild-Tame : {f : NcxInfraMachineStatus → NcxInfraMachineStatus} → Mild f → Tame b (with_status f)
  Mild-Tame m = record {
    spec = λ w. refl;
    name = λ w. refl;
    vpc = λ w. refl;
    finalizers = λ w. refl;
    instance = λ w. m.instance w.object.machine.status;
    provider = λ w. m.provider w.object.machine.status;
    readiness = λ w. inl (m.readiness w.object.machine.status);
    calls = λ w. refl;
  }

  Moves-with_status :
      {f : NcxInfraMachineStatus → NcxInfraMachineStatus}
      → Mild f
      → Moves b (modify (with_status f))
  Moves-with_status {f} m = Moves-modify (with_status f) (Mild-Tame m)

  pub Moves-mark : (k : Kube) (c : Condition) → Moves b (mark k c)
  unfolding mark
  Moves-mark k c =
      Moves-with_status
        (record { instance = λ s. refl; provider = λ s. refl; readiness = λ s. refl })

  pub Moves-set_machine_id : (id : String) → Moves b (set_machine_id id)
  unfolding set_machine_id
  Moves-set_machine_id id =
      Moves-with_status
        (record { instance = λ s. refl; provider = λ s. refl; readiness = λ s. refl })

  pub Moves-set_instance_state : (state : String) → Moves b (set_instance_state state)
  unfolding set_instance_state
  Moves-set_instance_state state =
      Moves-with_status
        (record { instance = λ s. refl; provider = λ s. refl; readiness = λ s. refl })

  pub Moves-set_machine_failure : (reason text : String) → Moves b (set_machine_failure reason text)
  unfolding set_machine_failure
  Moves-set_machine_failure reason text =
      Moves-with_status
        (record { instance = λ s. refl; provider = λ s. refl; readiness = λ s. refl })

  -- A change outside the machine.
  pub Moves-beside :
      (f : MachineWorld → MachineWorld)
      → ((w : MachineWorld) → (f w).object.machine ≡ w.object.machine)
      → ((w : MachineWorld) → (f w).object.owner.name ≡ w.object.owner.name)
      → ((w : MachineWorld) → (f w).object.cluster.status.vpc_id ≡ w.object.cluster.status.vpc_id)
      → ((w : MachineWorld) → (f w).calls ≡ w.calls)
      → Moves b (modify f)
  Moves-beside f same name vpc quiet = Moves-modify f (record {
    spec = λ w. ap (λ m. m.spec) (same w);
    name = name;
    vpc = vpc;
    finalizers = λ w. ap (λ m. m.meta.finalizers) (same w);
    instance = λ w. ap (λ m. m.status.instance_id) (same w);
    provider = λ w. ap (λ m. m.status.provider_id) (same w);
    readiness = λ w. inl (ap (λ m. m.status.ready) (same w));
    calls = quiet;
  })

  pub Moves-record_event :
      (env : Env) (warning : Bool) (reason text : String)
      → Moves b (record_event env warning reason text)
  unfolding record_event
  Moves-record_event env warning reason text =
      Moves-beside _ (λ w. ground arith) (λ w. ground arith) (λ w. ground arith) (λ w. ground arith)

  pub Moves-count_metric : (m : Metric) → Moves b (count_metric m)
  unfolding count_metric
  Moves-count_metric m = Moves-beside _ (λ w. refl) (λ w. refl) (λ w. refl) (λ w. refl)

  pub Moves-record_api_metrics :
      (method : String) (x : Option ApiError) → Moves b (record_api_metrics method x)
  unfolding record_api_metrics
  Moves-record_api_metrics method none = Moves-pure tt
  Moves-record_api_metrics method (some x) = Moves-count_metric _

  pub Moves-set_addresses : (l : List String) → Moves b (set_addresses l)
  unfolding set_addresses
  Moves-set_addresses l =
      Moves-bind
        (Moves-with_status
          (record { instance = λ s. refl; provider = λ s. refl; readiness = λ s. refl }))
        (λ _.
          Moves-beside (with_owner (λ o. record o { addresses = l })) (λ w. refl) (λ w. refl)
            (λ w. refl) (λ w. refl))

  pub Moves-annotate_console : (url : Option String) → Moves b (annotate_console url)
  unfolding annotate_console
  Moves-annotate_console none = Moves-pure tt
  Moves-annotate_console (some url) = Moves-if (is_empty url) (Moves-pure tt) (
      Moves-modify _ (record {
        spec = λ w. refl;
        name = λ w. refl;
        vpc = λ w. refl;
        finalizers = λ w. refl;
        instance = λ w. refl;
        provider = λ w. refl;
        readiness = λ w. inl refl;
        calls = λ w. refl;
      }))
