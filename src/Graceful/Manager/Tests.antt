-- ===== src/Graceful/Manager/Tests.antt =====
-- The manager at concrete inputs.
use deploy_monster.Prelude.{ℕ, ◌≡◌, List, [], ◌∷◌, String}
use deploy_monster.Graceful.Circuit.{
  Call, allows, succeeds, fails, resets, new_circuit_breaker, default_circuit_config,
}
use deploy_monster.Graceful.Circuit
use deploy_monster.Graceful.Manager.{new_manager, run, step}
use deploy_monster.Graceful.Manager.Refinement.{forget, view, run-new_refines, view-step, moved}

abbrev traffic : List (ℕ × String × Call)
traffic =
    (1, "a", allows 1 1)
    ∷ (2, "b", fails 2 2)
    ∷ (3, "a", succeeds 3)
    ∷ (4, "b", fails 4 5)
    ∷ (5, "c", resets 5)
    ∷ []

run-new_refines_example :
    view (run (new_manager default_circuit_config) traffic) "b"
    ≡ forget
        (Circuit.run (new_circuit_breaker default_circuit_config 0) (fails 2 2 ∷ fails 4 5 ∷ []))
run-new_refines_example = run-new_refines default_circuit_config traffic "b"

view-step_example :
    view (step (new_manager default_circuit_config) (1, "a", fails 1 1)) "b"
    ≡ moved (new_manager default_circuit_config) "a" (fails 1 1) "b"
view-step_example = view-step (new_manager default_circuit_config) 1 "a" (fails 1 1) "b"
