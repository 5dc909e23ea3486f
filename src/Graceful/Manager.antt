-- ===== src/Graceful/Manager.antt =====
-- internal/deploy/graceful/circuit.go: the breakers of all backends, made on first use.
-- A breaker is never taken out of the map, so finding or making it and calling it is one step: the
-- second look under the write lock decides. `made` is the clock when a breaker is made.
pub mod Refinement
mod Tests
use deploy_monster.Prelude.{ℕ, Bool, true, false, List, [], ◌∷◌, Option, none, some, String, map}
use deploy_monster.Prelude.Dict.{lookup, insert, get_or}
use deploy_monster.Graceful.Circuit.{
  CircuitBreaker, CircuitConfig, CircuitState, CircuitStats, closed, open_, half_open,
  new_circuit_breaker, Call, allows, succeeds, fails, resets, stats,
}
use deploy_monster.Graceful.Circuit

pub record CircuitBreakerManager : Type 0 where
  pub breakers : List (String × CircuitBreaker)
  pub config : CircuitConfig

unfoldable pub new_manager : CircuitConfig → CircuitBreakerManager
new_manager config = record { breakers = []; config = config }

put : CircuitBreakerManager → String → CircuitBreaker → CircuitBreakerManager
put m backend cb = record m { breakers = insert backend cb m.breakers }

find_or_new : CircuitBreakerManager → String → ℕ → CircuitBreaker
find_or_new m backend made = get_or (lookup backend m.breakers) (new_circuit_breaker m.config made)

unfoldable pub allow_request :
    CircuitBreakerManager → String → (made now later : ℕ) → CircuitBreakerManager × Bool
unfolding put find_or_new
allow_request m backend made now later =
    let (cb, allowed) = Circuit.allow_request (find_or_new m backend made) now later in
    (put m backend cb, allowed)

success_of : CircuitBreakerManager → String → ℕ → Option CircuitBreaker → CircuitBreakerManager
unfolding put
success_of m backend now none = m
success_of m backend now (some cb) = put m backend (Circuit.record_success cb now)

unfoldable pub record_success : CircuitBreakerManager → String → ℕ → CircuitBreakerManager
unfolding success_of
record_success m backend now = success_of m backend now (lookup backend m.breakers)

unfoldable pub record_failure :
    CircuitBreakerManager → String → (made now later : ℕ) → CircuitBreakerManager
unfolding put find_or_new
record_failure m backend made now later =
    put m backend (Circuit.record_failure (find_or_new m backend made) now later)

reset_of : CircuitBreakerManager → String → ℕ → Option CircuitBreaker → CircuitBreakerManager
unfolding put
reset_of m backend now none = m
reset_of m backend now (some cb) = put m backend (Circuit.reset cb now)

unfoldable pub reset : CircuitBreakerManager → String → ℕ → CircuitBreakerManager
unfolding reset_of
reset m backend now = reset_of m backend now (lookup backend m.breakers)

state_of : Option CircuitBreaker → CircuitState
state_of none = closed
state_of (some cb) = cb.state

unfoldable pub state : CircuitBreakerManager → String → CircuitState
unfolding state_of
state m backend = state_of (lookup backend m.breakers)

unfoldable pub stats_of : CircuitBreakerManager → String → Option CircuitStats
stats_of m backend = elim (lookup backend m.breakers) [ none ↦ none | some cb ↦ some (stats cb) ]

unfoldable pub all_stats : CircuitBreakerManager → List (String × CircuitStats)
all_stats m = map (λ b. (b.0, stats b.1)) m.breakers

is_open_state : CircuitState → Bool
is_open_state open_ = true
is_open_state closed = false
is_open_state half_open = false

unfoldable pub is_open : CircuitBreakerManager → String → Bool
unfolding is_open_state state
is_open m backend = is_open_state (state m backend)

-- Asking for availability is a request: it can move the breaker to half-open.
unfoldable pub is_available :
    CircuitBreakerManager → String → (made now later : ℕ) → CircuitBreakerManager × Bool
unfolding allow_request
is_available m backend made now later = allow_request m backend made now later

-- A call for a backend; `made` is used where it makes a breaker.
unfoldable pub step : CircuitBreakerManager → ℕ × String × Call → CircuitBreakerManager
unfolding allow_request record_success record_failure reset
step m (made, backend, allows now later) = (allow_request m backend made now later).0
step m (made, backend, succeeds now) = record_success m backend now
step m (made, backend, fails now later) = record_failure m backend made now later
step m (made, backend, resets now) = reset m backend now

unfoldable pub run : CircuitBreakerManager → List (ℕ × String × Call) → CircuitBreakerManager
unfolding step
run m [] = m
run m (c ∷ cs) = run (step m c) cs
