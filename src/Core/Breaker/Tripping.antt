-- ===== src/Core/Breaker/Tripping.antt =====
-- When the breaker opens.
use deploy_monster.Prelude.{ℕ, suc, ◌+◌, ◌<◌, ◌≡◌, refl, List, [], ◌∷◌, arith}
use deploy_monster.Core.Breaker.{CircuitBreaker, closed, open_, Event, after, failure, step, run}

-- Retryable failures only, at any times.
abbrev pub failures_at : List (ℕ × ℕ) → List Event
failures_at [] = []
failures_at ((now, later) ∷ ts) = after now later failure ∷ failures_at ts

abbrev pub count {ℓ} : {A : Type ℓ} → List A → ℕ
count [] = 0
count (x ∷ xs) = suc (count xs)

step_counts :
    (cb : CircuitBreaker) (now later : ℕ)
    → cb.state ≡ closed
    → cb.failures + 1 < cb.failure_threshold
    → let cb' = step cb (after now later failure) in
      (cb'.state ≡ closed)
      × (cb'.failures ≡ cb.failures + 1)
      × (cb'.failure_threshold ≡ cb.failure_threshold)
unfolding step
step_counts cb now later c h = ground arith

step_trips :
    (cb : CircuitBreaker) (now later : ℕ)
    → cb.state ≡ closed
    → cb.failures + 1 ≡ cb.failure_threshold
    → ((step cb (after now later failure)).state ≡ open_)
      × ((step cb (after now later failure)).last_failure ≡ later)
unfolding step
step_trips cb now later c h = ground arith

-- A closed breaker stays closed through fewer failures than are missing to its threshold.
pub run_below_threshold :
    (cb : CircuitBreaker) (ts : List (ℕ × ℕ))
    → cb.state ≡ closed
    → cb.failures + count ts < cb.failure_threshold
    → ((run cb (failures_at ts)).state ≡ closed)
      × ((run cb (failures_at ts)).failures ≡ cb.failures + count ts)
      × ((run cb (failures_at ts)).failure_threshold ≡ cb.failure_threshold)
unfolding run
run_below_threshold cb [] c h = (c, omega arith, refl)
run_below_threshold cb ((now, later) ∷ ts) c h =
    let (c', n, t) = step_counts cb now later c (omega arith) in
    let (r, m, u) = run_below_threshold (step cb (after now later failure)) ts c' (omega arith) in
    (r, omega arith, cc)

abbrev pub IsTripped : CircuitBreaker → ℕ → Type 0
IsTripped cb later = (cb.state ≡ open_) × (cb.last_failure ≡ later)

-- From a closed breaker, retryable failures in a row leave it closed as long as the count stays
-- below the threshold, and the one that reaches the threshold opens it at its own time.
pub trips_at_threshold :
    (cb : CircuitBreaker) (ts : List (ℕ × ℕ)) (now later : ℕ)
    → cb.state ≡ closed
    → cb.failures + count ts + 1 ≡ cb.failure_threshold
    → ((run cb (failures_at ts)).state ≡ closed)
      × IsTripped (step (run cb (failures_at ts)) (after now later failure)) later
trips_at_threshold cb ts now later c h =
    let (r, m, u) = run_below_threshold cb ts c (omega arith) in
    (r, step_trips (run cb (failures_at ts)) now later r (omega arith))
