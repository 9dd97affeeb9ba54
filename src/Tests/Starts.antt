-- ===== src/Tests/Starts.antt =====
-- Starts of the process.
use cluster_api_provider_nvi.Common.{◌==◌, [], ◌∷◌, none, some, ◌≡◌, refl, if◌then◌else◌}
use cluster_api_provider_nvi.Process.{
  Manager, default_flags, manager_options, new_manager, setup_controller, setup_webhook,
  cluster_controller, machine_controller, attempt, main,
}
use cluster_api_provider_nvi.Process.Course.{Course, IsSecured, plan, main-Course}

-- A manager that refuses the webhook of the machines.
abbrev refusing : Manager
refusing past (setup_webhook kind) =
    if kind == "NcxInfraMachine" then some "no certificate" else none
refusing past _ = none

main-Course_example :
    Course refusing [] (plan default_flags) (main refusing default_flags)
    × IsSecured default_flags (manager_options default_flags)
main-Course_example = main-Course refusing default_flags

refused : main refusing default_flags ≡ (
  1,
  new_manager (manager_options default_flags)
      ∷ setup_controller cluster_controller
      ∷ setup_controller machine_controller
      ∷ setup_webhook "NcxInfraCluster"
      ∷ setup_webhook "NcxInfraMachine"
      ∷ [],
)
unfolding main attempt
refused = refl
