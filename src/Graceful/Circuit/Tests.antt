-- ===== src/Graceful/Circuit/Tests.antt =====
-- A backend's breaker at concrete inputs.
use deploy_monster.Prelude.{◌≤◌, ◌≡◌, refl, List, [], ◌∷◌, arith}
use deploy_monster.Prelude.Int.{pos}
use deploy_monster.Graceful.Circuit.{
  CircuitConfig, open_, allows, succeeds, fails, Call, new_circuit_breaker, run, step,
  default_circuit_config,
}
use deploy_monster.Graceful.Circuit.Laws
use deploy_monster.Graceful.Circuit.Laws.{
  HasThresholds, Inv, run-new_circuit_breaker-Inv, Edge, not_closed_needs_failures, failures,
}

abbrev strict : CircuitConfig
strict = record { failure_threshold = pos 2; success_threshold = pos 1; timeout = pos 10 }

strict-HasThresholds : HasThresholds strict
strict-HasThresholds = record { failure_positive = omega arith; success_positive = omega arith }

abbrev trouble : List Call
trouble = fails 1 2 ∷ succeeds 3 ∷ fails 4 4 ∷ fails 5 6 ∷ allows 7 7 ∷ []

counters_after_calls : Inv (run (new_circuit_breaker strict 0) trouble)
counters_after_calls = run-new_circuit_breaker-Inv strict 0 trouble strict-HasThresholds

not_closed_needs_failures_example : 2 ≤ failures trouble
unfolding new_circuit_breaker run
not_closed_needs_failures_example = not_closed_needs_failures 2 strict 0 trouble refl (λ e. cc)

trouble_opens : (run (new_circuit_breaker strict 0) trouble).state ≡ open_
unfolding new_circuit_breaker run
trouble_opens = refl

edges_taken :
    Edge
      (new_circuit_breaker default_circuit_config 0)
      (fails 1 1)
      (step (new_circuit_breaker default_circuit_config 0) (fails 1 1)).state
edges_taken = Laws.step-Edge (new_circuit_breaker default_circuit_config 0) (fails 1 1)
