-- ===== src/Core/Breaker/Tests.antt =====
-- The breaker at concrete inputs.
use deploy_monster.Prelude.{ℕ, ◌≤◌, ◌≡◌, refl, none, some, List, [], ◌∷◌, arith}
use deploy_monster.Prelude.Int.{pos, negsuc}
use deploy_monster.Core.Breaker.{
  CircuitBreaker, closed, open_, before, after, reset_by_hand, success, failure, no_retry,
  new_circuit_breaker, before_call, execute, step, run, Event, default_circuit_breaker_config,
}
use deploy_monster.Core.Breaker.Invariant.{Inv, run-new-Inv}
use deploy_monster.Core.Breaker.Tripping.{IsTripped, failures_at, trips_at_threshold}
use deploy_monster.Core.Breaker.FailFast.{open_fails_fast}
use deploy_monster.Core.Breaker.Probing.{
  admitted, probes_bounded, probes, recovers, let_through, no_retry_wedges,
}

abbrev fresh : CircuitBreaker
fresh = record {
  name = "dns";
  state = closed;
  failures = 0;
  successes = 0;
  last_failure = 0;
  failure_threshold = 3;
  reset_timeout = 10;
  half_open_max = 2;
  half_open_calls = 0;
}

abbrev tripped : CircuitBreaker
tripped = record fresh { state = open_; failures = 3; last_failure = 7 }

abbrev some_calls : List Event
some_calls =
    before 1 ∷ after 2 3 failure ∷ before 4 ∷ after 5 6 no_retry ∷ reset_by_hand ∷ before 9 ∷ []

run-new-Inv_example : Inv (
    run
      (new_circuit_breaker "x" (record {
        failure_threshold = negsuc 0;
        reset_timeout = pos 5;
        half_open_max_calls = pos 0;
      }))
      some_calls)
run-new-Inv_example =
    run-new-Inv "x"
      (record { failure_threshold = negsuc 0; reset_timeout = pos 5; half_open_max_calls = pos 0 })
      some_calls

trips_at_threshold_example :
    ((run fresh (failures_at ((1, 1) ∷ (2, 2) ∷ []))).state ≡ closed)
    × IsTripped (step (run fresh (failures_at ((1, 1) ∷ (2, 2) ∷ []))) (after 7 8 failure)) 8
trips_at_threshold_example = trips_at_threshold fresh ((1, 1) ∷ (2, 2) ∷ []) 7 8 refl (omega arith)

tripped-Inv : Inv tripped
tripped-Inv = ground arith

-- While the breaker is open, older calls end, one with a failure.
abbrev meanwhile : List Event
meanwhile = before 8 ∷ after 9 9 success ∷ after 11 12 failure ∷ before 16 ∷ []

open_fails_fast_example :
    let cb' = run tripped meanwhile in
    (cb'.state ≡ open_)
    × (let_through tripped meanwhile ≡ 0)
    × (execute (some cb') 16 17 17 success ≡ (some cb', none))
open_fails_fast_example =
    open_fails_fast tripped meanwhile 16 17 17 success refl
      (omega arith, ((omega arith, omega arith), ((omega arith, omega arith), (omega arith, tt))))
      (omega arith)

probes_bounded_example : admitted tripped (1 ∷ 20 ∷ 21 ∷ 22 ∷ 23 ∷ []) ≤ 2
probes_bounded_example = probes_bounded tripped (1 ∷ 20 ∷ 21 ∷ 22 ∷ 23 ∷ []) tripped-Inv refl

probes_bounded_tight : admitted tripped (1 ∷ 20 ∷ 21 ∷ 22 ∷ 23 ∷ []) ≡ 2
unfolding before_call
probes_bounded_tight = refl

-- Two probes, the second of which ends long after it started.
abbrev two_probes : List (ℕ × ℕ × ℕ)
two_probes = (17, 18, 18) ∷ (20, 95, 96) ∷ []

recovers_example :
    run tripped (probes two_probes success)
    ≡ record tripped { state = closed; failures = 0; successes = 0; half_open_calls = 0 }
recovers_example =
    recovers tripped two_probes tripped-Inv refl refl refl refl
      ((omega arith, omega arith), ((omega arith, omega arith), tt))

-- An older call ends without success in between.
abbrev later_calls : List Event
later_calls = before 100 ∷ after 101 101 no_retry ∷ before 1_000_000 ∷ []

no_retry_wedges_example :
    let cb' = run tripped (probes two_probes no_retry) in
    (cb' ≡ record tripped { half_open_calls = 2 })
    × (run cb' later_calls ≡ cb')
    × (let_through cb' later_calls ≡ 0)
no_retry_wedges_example =
    no_retry_wedges tripped two_probes later_calls refl refl refl (omega arith, (omega arith, tt))
      (tt, (refl, (tt, tt)))

by_default : (new_circuit_breaker "x" default_circuit_breaker_config).failure_threshold ≡ 5
unfolding new_circuit_breaker default_circuit_breaker_config
by_default = refl
