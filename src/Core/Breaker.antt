-- ===== src/Core/Breaker.antt =====
-- internal/core/circuitbreaker.go: the circuit breaker around external services.
-- A reading of the clock `cb.now()` is an argument; a method returns the new breaker. The mutex makes
-- each method one step, so concurrent calls are lists of the steps of `Event`.
pub mod Invariant
pub mod Tripping
pub mod Probing
pub mod FailFast
mod Tests
use deploy_monster.Prelude.{
  ℕ, suc, ◌+◌, ◌≡◌, Bool, true, false, Option, none, some, List, [], ◌∷◌, String, ltb, leb,
  if◌then◌else◌,
}
use deploy_monster.Prelude.Int.{ℤ, pos, negsuc}

pub data CircuitState : Type 0 where
  closed open_ half_open : CircuitState

-- Times are in nanoseconds.
pub record CircuitBreakerConfig : Type 0 where
  pub failure_threshold : ℤ
  pub reset_timeout : ℤ
  pub half_open_max_calls : ℤ

unfoldable pub default_circuit_breaker_config : CircuitBreakerConfig
default_circuit_breaker_config = record {
  failure_threshold = pos 5;
  reset_timeout = pos 30_000_000_000;
  half_open_max_calls = pos 1;
}

pub record CircuitBreaker : Type 0 where
  pub name : String
  pub state : CircuitState
  pub failures : ℕ
  pub successes : ℕ
  pub last_failure : ℕ
  pub failure_threshold : ℕ
  pub reset_timeout : ℕ
  pub half_open_max : ℕ
  pub half_open_calls : ℕ

-- `if x <= 0 { x = d }`
abbrev pub positive_or : ℕ → ℤ → ℕ
positive_or d (pos n) = if ltb 0 n then n else d
positive_or d (negsuc n) = d

unfoldable pub new_circuit_breaker : String → CircuitBreakerConfig → CircuitBreaker
new_circuit_breaker name cfg = record {
  name = name;
  state = closed;
  failures = 0;
  successes = 0;
  last_failure = 0;
  failure_threshold = positive_or 5 cfg.failure_threshold;
  reset_timeout = positive_or 30_000_000_000 cfg.reset_timeout;
  half_open_max = positive_or 1 cfg.half_open_max_calls;
  half_open_calls = 0;
}

-- `now - last >= timeout`, with the subtraction moved to the other side.
effective : CircuitState → CircuitBreaker → ℕ → CircuitState
effective open_ cb now = if leb (cb.last_failure + cb.reset_timeout) now then half_open else open_
effective closed cb now = closed
effective half_open cb now = half_open

unfoldable pub current_state : CircuitBreaker → ℕ → CircuitState
unfolding effective
current_state cb now = effective cb.state cb now

-- The second part tells whether the call may go ahead; if not, it fails with ErrCircuitOpen.
admit : CircuitState → CircuitBreaker → CircuitBreaker × Bool
admit closed cb = (cb, true)
admit open_ cb = (cb, false)
admit half_open cb =
    if leb cb.half_open_max cb.half_open_calls
    then (cb, false)
    else (record cb { half_open_calls = cb.half_open_calls + 1 }, true)

unfoldable pub before_call : CircuitBreaker → ℕ → CircuitBreaker × Bool
unfolding admit current_state
before_call cb now = admit (current_state cb now) cb

unfoldable pub reset : CircuitBreaker → CircuitBreaker
reset cb = record cb { state = closed; failures = 0; successes = 0; half_open_calls = 0 }

on_success : CircuitState → CircuitBreaker → CircuitBreaker
unfolding reset
on_success half_open cb =
    let probed = record cb { successes = cb.successes + 1 } in
    if leb cb.half_open_max (cb.successes + 1) then reset probed else probed
on_success closed cb = record cb { failures = 0 }
on_success open_ cb = cb

on_failure : CircuitState → CircuitBreaker → ℕ → CircuitBreaker
on_failure closed cb now =
    let failed = record cb { failures = cb.failures + 1; last_failure = now } in
    if leb cb.failure_threshold (cb.failures + 1) then record failed { state = open_ } else failed
on_failure half_open cb now = record cb {
  failures = cb.failures + 1;
  last_failure = now;
  state = open_;
  half_open_calls = 0;
  successes = 0;
}
on_failure open_ cb now = record cb { failures = cb.failures + 1; last_failure = now }

-- What a call gave: no error, an error that counts, or one marked by ErrNoRetry.
pub data Outcome : Type 0 where
  success failure no_retry : Outcome

-- `now` is read for the state, `later` for the time of the failure.
unfoldable pub after_call : CircuitBreaker → ℕ → ℕ → Outcome → CircuitBreaker
unfolding on_success on_failure current_state
after_call cb now later success = on_success (current_state cb now) cb
after_call cb now later no_retry = cb
after_call cb now later failure = on_failure (current_state cb now) cb later

-- A call that nothing else interleaves with; `none` is the nil receiver, and a result `none` is
-- ErrCircuitOpen.
unfoldable pub execute :
    Option CircuitBreaker → ℕ → ℕ → ℕ → Outcome → Option CircuitBreaker × Option Outcome
unfolding before_call after_call
execute none start now later result = (none, some result)
execute (some cb) start now later result =
    let (cb', allowed) = before_call cb start in
    if allowed then (some (after_call cb' now later result), some result) else (some cb', none)

pub data Event : Type 0 where
  before : (now : ℕ) → Event
  after : (now later : ℕ) → Outcome → Event
  reset_by_hand : Event

unfoldable pub step : CircuitBreaker → Event → CircuitBreaker
unfolding before_call after_call reset
step cb (before now) = (before_call cb now).0
step cb (after now later result) = after_call cb now later result
step cb reset_by_hand = reset cb

unfoldable pub run : CircuitBreaker → List Event → CircuitBreaker
unfolding step
run cb [] = cb
run cb (e ∷ es) = run (step cb e) es

unfoldable pub state_of : Option CircuitBreaker → ℕ → CircuitState
unfolding current_state
state_of none now = closed
state_of (some cb) now = current_state cb now

pub record CircuitBreakerStats : Type 0 where
  pub name : String
  pub state : CircuitState
  pub failures : ℕ
  pub last_failure : ℕ

unfoldable pub stats : Option CircuitBreaker → ℕ → CircuitBreakerStats
unfolding current_state
stats none now = record { name = ""; state = closed; failures = 0; last_failure = 0 }
stats (some cb) now = record {
  name = cb.name;
  state = current_state cb now;
  failures = cb.failures;
  last_failure = cb.last_failure;
}
