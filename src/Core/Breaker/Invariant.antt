-- ===== src/Core/Breaker/Invariant.antt =====
-- What holds of a breaker after any interleaving of calls.
use deploy_monster.Prelude.{◌≤◌, ◌<◌, ◌≡◌, ◌⊎◌, List, [], ◌∷◌, String, arith}
use deploy_monster.Core.Breaker.{
  CircuitBreaker, CircuitBreakerConfig, closed, open_, Event, before, after, reset_by_hand, success,
  failure, no_retry, new_circuit_breaker, step, run,
}

-- The stored state is never half-open: half-open is open with the timeout passed.
pub record Inv (cb : CircuitBreaker) : Type 0 where
  pub stored : (cb.state ≡ closed) ⊎ (cb.state ≡ open_)
  pub threshold_positive : 0 < cb.failure_threshold
  pub timeout_positive : 0 < cb.reset_timeout
  pub probes_positive : 0 < cb.half_open_max
  pub closed_below : cb.state ≡ closed → cb.failures < cb.failure_threshold
  pub closed_calls : cb.state ≡ closed → cb.half_open_calls ≡ 0
  pub closed_successes : cb.state ≡ closed → cb.successes ≡ 0
  pub calls_bounded : cb.half_open_calls ≤ cb.half_open_max
  pub successes_bounded : cb.successes < cb.half_open_max

pub new_circuit_breaker-Inv :
    (name : String) (cfg : CircuitBreakerConfig) → Inv (new_circuit_breaker name cfg)
unfolding new_circuit_breaker
new_circuit_breaker-Inv name cfg = ground arith

pub step-Inv : (cb : CircuitBreaker) (e : Event) → Inv cb → Inv (step cb e)
unfolding step
step-Inv cb (before now) v = ground arith
step-Inv cb (after now later success) v = ground arith
step-Inv cb (after now later failure) v = ground arith
step-Inv cb (after now later no_retry) v = v
step-Inv cb reset_by_hand v = ground arith

run-Inv : (cb : CircuitBreaker) (es : List Event) → Inv cb → Inv (run cb es)
unfolding run
run-Inv cb [] v = v
run-Inv cb (e ∷ es) v = run-Inv (step cb e) es (step-Inv cb e v)

-- Whatever the configuration and whatever calls, results and resets follow, at whatever times: the
-- stored state is closed or open, a closed breaker is below its failure threshold with no probe
-- counted, the probes let through stay within the limit and the probe successes below it.
pub run-new-Inv :
    (name : String) (cfg : CircuitBreakerConfig) (es : List Event)
    → Inv (run (new_circuit_breaker name cfg) es)
run-new-Inv name cfg es = run-Inv _ es (new_circuit_breaker-Inv name cfg)
