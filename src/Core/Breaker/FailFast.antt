-- ===== src/Core/Breaker/FailFast.antt =====
-- What the calls through an open breaker get before its timeout has passed.
use deploy_monster.Prelude.{ℕ, ◌+◌, ◌≤◌, ◌<◌, ◌≡◌, refl, false, none, some, List, [], ◌∷◌, arith}
use deploy_monster.Prelude.Find.{All}
use deploy_monster.Core.Breaker.{
  CircuitBreaker, open_, Event, before, after, reset_by_hand, Outcome, success, failure, no_retry,
  before_call, execute, step, run,
}
use deploy_monster.Core.Breaker.Probing.{lets_through, let_through}

-- A call starts, or an older one ends, before `until`; the time of a failure, read at the end of a
-- call, is not before `from`.
abbrev pub IsEarly : (from until : ℕ) → Event → Type 0
IsEarly from until (before now) = now < until
IsEarly from until (after now later result) = (now < until) × (from ≤ later)
IsEarly from until reset_by_hand = ⊥

-- The breaker is open, for `timeout` from `from` at least.
abbrev IsShut : (from timeout : ℕ) → CircuitBreaker → Type 0
IsShut from timeout cb =
    (cb.state ≡ open_) × (from ≤ cb.last_failure) × (cb.reset_timeout ≡ timeout)

step-IsShut :
    (from timeout : ℕ) (cb : CircuitBreaker) (e : Event)
    → IsShut from timeout cb
    → IsEarly from (from + timeout) e
    → IsShut from timeout (step cb e) × (lets_through cb e ≡ false)
unfolding step before_call
step-IsShut from timeout cb (before now) (o, late, same) early =
    ((ground arith, ground arith, ground arith), ground arith)
step-IsShut from timeout cb (after now later success) (o, late, same) (early, new) =
    ((ground arith, ground arith, ground arith), refl)
step-IsShut from timeout cb (after now later failure) (o, late, same) (early, new) =
    ((ground arith, ground arith, ground arith), refl)
step-IsShut from timeout cb (after now later no_retry) (o, late, same) early =
    ((o, late, same), refl)
step-IsShut from timeout cb reset_by_hand shut early = absurd early

run-IsShut :
    (from timeout : ℕ) (cb : CircuitBreaker) (es : List Event)
    → IsShut from timeout cb
    → All (IsEarly from (from + timeout)) es
    → IsShut from timeout (run cb es) × (let_through cb es ≡ 0)
unfolding run
run-IsShut from timeout cb [] shut all = (shut, refl)
run-IsShut from timeout cb (e ∷ es) shut (early, all) =
    let (still, refused) = step-IsShut from timeout cb e shut early in
    let (at_end, none_through) = run-IsShut from timeout (step cb e) es still all in
    (at_end, rw refused none_through)

-- Until the timeout of an open breaker has passed, whatever calls start and with whatever result
-- older calls end, no call is let through and the breaker stays open, unless there is a Reset or the
-- clock goes back behind its last failure; a call through it in that time does not reach the service,
-- fails with ErrCircuitOpen and changes nothing.
pub open_fails_fast :
    (cb : CircuitBreaker) (es : List Event) (start now later : ℕ) (result : Outcome)
    → cb.state ≡ open_
    → All (IsEarly cb.last_failure (cb.last_failure + cb.reset_timeout)) es
    → start < cb.last_failure + cb.reset_timeout
    → let cb' = run cb es in
      (cb'.state ≡ open_)
      × (let_through cb es ≡ 0)
      × (execute (some cb') start now later result ≡ (some cb', none))
unfolding execute before_call
open_fails_fast cb es start now later result o all early =
    let ((o', late, same), none_through) =
      run-IsShut cb.last_failure cb.reset_timeout cb es (o, omega arith, refl) all in
    (o', none_through, ground arith)
