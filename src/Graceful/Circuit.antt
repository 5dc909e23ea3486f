-- ===== src/Graceful/Circuit.antt =====
-- internal/deploy/graceful/circuit.go: the breaker of one backend.
-- A method is one step under the breaker's mutex; each reading of the clock is an argument. Unlike
-- the breaker of internal/core, the thresholds are used as they are configured, negative ones too.
pub mod Laws
mod Tests
use deploy_monster.Prelude.{ℕ, ◌+◌, Bool, true, false, List, [], ◌∷◌, if◌then◌else◌}
use deploy_monster.Prelude.Int.{ℤ, pos, sub_ℕ, ltb_ℤ}
use mathlib.Core.Bool.{not}

pub data CircuitState : Type 0 where
  closed open_ half_open : CircuitState

pub record CircuitConfig : Type 0 where
  pub failure_threshold : ℤ
  pub success_threshold : ℤ
  pub timeout : ℤ

unfoldable pub default_circuit_config : CircuitConfig
default_circuit_config = record {
  failure_threshold = pos 5;
  success_threshold = pos 2;
  timeout = pos 30_000_000_000;
}

pub record CircuitBreaker : Type 0 where
  pub state : CircuitState
  pub failure_count : ℕ
  pub success_count : ℕ
  pub last_fail_time : ℕ
  pub last_state_change : ℕ
  pub config : CircuitConfig

unfoldable pub new_circuit_breaker : CircuitConfig → ℕ → CircuitBreaker
new_circuit_breaker config now = record {
  state = closed;
  failure_count = 0;
  success_count = 0;
  last_fail_time = 0;
  last_state_change = now;
  config = config;
}

-- `count >= threshold`
abbrev pub reaches : ℕ → ℤ → Bool
reaches count threshold = not (ltb_ℤ (pos count) threshold)

allow_in : CircuitState → CircuitBreaker → ℕ → ℕ → CircuitBreaker × Bool
allow_in closed cb now later = (cb, true)
allow_in open_ cb now later =
    if ltb_ℤ cb.config.timeout (sub_ℕ now cb.last_fail_time)
    then (record cb { state = half_open; success_count = 0; last_state_change = later }, true)
    else (cb, false)
allow_in half_open cb now later = (cb, true)

unfoldable pub allow_request : CircuitBreaker → ℕ → ℕ → CircuitBreaker × Bool
unfolding allow_in
allow_request cb now later = allow_in cb.state cb now later

success_in : CircuitState → CircuitBreaker → ℕ → CircuitBreaker
success_in closed cb now = record cb { failure_count = 0 }
success_in half_open cb now =
    if reaches (cb.success_count + 1) cb.config.success_threshold
    then record cb { state = closed; failure_count = 0; success_count = 0; last_state_change = now }
    else record cb { success_count = cb.success_count + 1 }
success_in open_ cb now = cb

unfoldable pub record_success : CircuitBreaker → ℕ → CircuitBreaker
unfolding success_in
record_success cb now = success_in cb.state cb now

failure_in : CircuitState → CircuitBreaker → ℕ → CircuitBreaker
failure_in closed cb later =
    let failed = record cb { failure_count = cb.failure_count + 1 } in
    if reaches (cb.failure_count + 1) cb.config.failure_threshold
    then record failed { state = open_; last_state_change = later }
    else failed
failure_in half_open cb later = record cb {
  state = open_;
  success_count = 0;
  last_state_change = later;
}
failure_in open_ cb later = cb

unfoldable pub record_failure : CircuitBreaker → ℕ → ℕ → CircuitBreaker
unfolding failure_in
record_failure cb now later = failure_in cb.state (record cb { last_fail_time = now }) later

unfoldable pub reset : CircuitBreaker → ℕ → CircuitBreaker
reset cb now = record cb {
  state = closed;
  failure_count = 0;
  success_count = 0;
  last_state_change = now;
}

pub record CircuitStats : Type 0 where
  pub state : CircuitState
  pub failure_count : ℕ
  pub success_count : ℕ
  pub last_fail_time : ℕ
  pub last_state_change : ℕ

unfoldable pub stats : CircuitBreaker → CircuitStats
stats cb = record {
  state = cb.state;
  failure_count = cb.failure_count;
  success_count = cb.success_count;
  last_fail_time = cb.last_fail_time;
  last_state_change = cb.last_state_change;
}

pub data Call : Type 0 where
  allows : (now later : ℕ) → Call
  succeeds : (now : ℕ) → Call
  fails : (now later : ℕ) → Call
  resets : (now : ℕ) → Call

unfoldable pub step : CircuitBreaker → Call → CircuitBreaker
unfolding allow_request record_success record_failure reset
step cb (allows now later) = (allow_request cb now later).0
step cb (succeeds now) = record_success cb now
step cb (fails now later) = record_failure cb now later
step cb (resets now) = reset cb now

unfoldable pub run : CircuitBreaker → List Call → CircuitBreaker
unfolding step
run cb [] = cb
run cb (c ∷ cs) = run (step cb c) cs
