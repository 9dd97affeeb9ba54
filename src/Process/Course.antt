-- ===== src/Process/Course.antt =====
-- How cmd/main.go runs.
use cluster_api_provider_nvi.Common.{
  ℕ, String, List, [], ◌∷◌, ◌++◌, none, ◌≡◌, ◌≢◌, inl, inr, refl, sym, ap, ◌∙◌, arith,
  if◌then◌else◌, append_assoc, append-nil, Option-cases,
}
use cluster_api_provider_nvi.Common.Exec.{Exec, Outcome, ◌>>◌}
use cluster_api_provider_nvi.Process.{
  Flags, TlsConfig, ManagerOptions, Step, Manager, new_manager, setup_controller, setup_webhook,
  add_healthz_check, add_readyz_check, start, manager_options, cluster_controller,
  machine_controller, attempt, run_manager, exit_code, main,
}

-- The steps in their order, the start last.
abbrev pub plan : Flags → List Step
plan f =
    new_manager (manager_options f)
    ∷ setup_controller cluster_controller
    ∷ setup_controller machine_controller
    ∷ setup_webhook "NcxInfraCluster"
    ∷ setup_webhook "NcxInfraMachine"
    ∷ add_healthz_check "healthz"
    ∷ add_readyz_check "readyz"
    ∷ start
    ∷ []

-- Every step of `steps` succeeds, each after those before it.
abbrev pub AllSucceed : Manager → List Step → List Step → Type 0
AllSucceed m past [] = Unit
AllSucceed m past (s ∷ steps) = (m past s ≡ none) × AllSucceed m (past ++ s ∷ []) steps

-- A run of the steps from `past` on ends with all of them taken, or at the first that fails.
pub data Course (m : Manager) (past : List Step) (steps : List Step) : ℕ × List Step → Type 0 where
  finished :
      {end : ℕ × List Step}
      → AllSucceed m past steps
      → end ≡ (0, past ++ steps)
      → Course m past steps end
  stopped :
      {end : ℕ × List Step} (before : List Step) (s : Step) (after : List Step)
      → steps ≡ before ++ s ∷ after
      → AllSucceed m past before
      → m (past ++ before) s ≢ none
      → end ≡ (1, past ++ (before ++ s ∷ []))
      → Course m past steps end

abbrev ended : Outcome String (Unit {0}) × List Step → ℕ × List Step
ended (r, steps) = (exit_code r, steps)

Course-cons :
    (m : Manager) (past : List Step) (s : Step) (steps : List Step) (end : ℕ × List Step)
    → m past s ≡ none
    → Course m (past ++ s ∷ []) steps end
    → Course m past (s ∷ steps) end
Course-cons m past s steps end e (finished all same) =
    finished (e, all) (same ∙ ap (λ l. (0, l)) (append_assoc past (s ∷ []) steps))
Course-cons m past s steps end e (stopped before t after split all bad same) =
    stopped (s ∷ before) t after (ap (λ l. s ∷ l) split) (e, all)
      (λ z. bad (ap (λ l. m l t) (append_assoc past (s ∷ []) before) ∙ z))
      (same ∙ ap (λ l. (1, l)) (append_assoc past (s ∷ []) (before ++ t ∷ [])))

-- One more step in front.
attempt-Course :
    (m : Manager) (past : List Step) (s : Step) (text : String) (steps : List Step)
    (rest : Exec (List Step) String (Unit {0}))
    → ((l : List Step) → Course m l steps (ended (rest l)))
    → Course m past (s ∷ steps) (ended ((attempt m s text >> rest) past))
unfolding attempt
attempt-Course m past s text steps rest h = elim (Option-cases (m past s)) [
  | inl e ↦ rw (e, attempt) (Course-cons m past s steps _ e (h (past ++ s ∷ [])))
  | inr (error, e) ↦
      rw (e, attempt)
        (stopped [] s steps refl tt
          (λ z.
            let none_here = sym (ap (λ l. m l s) (append-nil past)) ∙ z in
            absurd (cc (e, none_here)))
          refl)
]

-- The last step.
attempt-Course_last :
    (m : Manager) (past : List Step) (s : Step) (text : String)
    → Course m past (s ∷ []) (ended (attempt m s text past))
unfolding attempt
attempt-Course_last m past s text = elim (Option-cases (m past s)) [
  | inl e ↦ rw (e, attempt) (finished (e, tt) refl)
  | inr (error, e) ↦
      rw (e, attempt)
        (stopped [] s [] refl tt
          (λ z.
            let none_here = sym (ap (λ l. m l s) (append-nil past)) ∙ z in
            absurd (cc (e, none_here)))
          refl)
]

-- What the options make of a configuration.
abbrev pub configured : List (TlsConfig → TlsConfig) → TlsConfig → TlsConfig
configured [] c = c
configured (o ∷ os) c = configured os (o c)

-- Without the flag for HTTP/2, webhooks and metrics are served with HTTP/1.1 alone, whatever a
-- configuration said; with it, a configuration stays as it is. Secure metrics stand behind the filter for
-- authentication and authorization.
pub record IsSecured (f : Flags) (o : ManagerOptions) : Type 0 where
  pub webhooks :
      (c : TlsConfig)
      → configured o.webhook_server.tls_opts c
        ≡ (if f.enable_http2 then c else record { next_protos = "http/1.1" ∷ [] })
  pub metrics :
      (c : TlsConfig)
      → configured o.metrics.tls_opts c
        ≡ (if f.enable_http2 then c else record { next_protos = "http/1.1" ∷ [] })
  pub filtered : o.metrics.has_filter_provider ≡ f.secure_metrics

manager_options-IsSecured : (f : Flags) → IsSecured f (manager_options f)
unfolding manager_options
manager_options-IsSecured f = record {
  webhooks = λ c. ground arith;
  metrics = λ c. ground arith;
  filtered = refl;
}

run_manager-Course :
    (m : Manager) (f : Flags) (past : List Step)
    → Course m past (plan f) (ended (run_manager m f past))
unfolding run_manager
run_manager-Course m f past = attempt-Course m past _ _ _ _ (λ l. attempt-Course m l _ _ _ _ (λ l.
    attempt-Course m l _ _ _ _ (λ l. attempt-Course m l _ _ _ _ (λ l.
      attempt-Course m l _ _ _ _ (λ l.
        attempt-Course m l _ _ _ _
          (λ l. attempt-Course m l _ _ _ _ (λ l. attempt-Course_last m l _ _)))))))

-- The process takes the steps of the plan in order, up to and with the first that fails: it ends with
-- exit code 0 after all of them, or with 1 right behind the step that failed. So the manager is only
-- started when both controllers, both webhooks and both checks are in place. The options that it is made
-- with serve webhooks and metrics with HTTP/1.1 alone, unless HTTP/2 is enabled, and secure metrics
-- behind the filter for authentication and authorization.
pub main-Course :
    (m : Manager) (f : Flags) → Course m [] (plan f) (main m f) × IsSecured f (manager_options f)
unfolding main
main-Course m f = (run_manager-Course m f [], manager_options-IsSecured f)
