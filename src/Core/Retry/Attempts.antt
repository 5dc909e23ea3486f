-- ===== src/Core/Retry/Attempts.antt =====
-- How often the operation is called, and what comes out.
use mathlib.Core.Path.{subst}
use deploy_monster.Prelude.{
  ℕ, zero, suc, ◌+◌, ◌≤◌, ◌<◌, ◌≡◌, refl, Bool, true, false, List, [], ◌∷◌, arith, ◌==◌, Bool-cases,
  inl, inr, ==_iff,
}
use deploy_monster.Prelude.Int.{ℤ, pos, negsuc}
use deploy_monster.Core.Retry.{
  Attempt, succeeded, no_retry, failed, RetryConfig, Outcome, Trace, done, gave_up, exhausted,
  context_done, after_failure, round, rounds, retry, attempts_of, delay_of,
}

pub attempts_of_positive : (n : ℤ) → 0 < attempts_of n
unfolding attempts_of
attempts_of_positive (pos n) = ground arith
attempts_of_positive (negsuc n) = omega arith

module _ (op : ℕ → Attempt) (canceled : ℕ → Bool) where
  -- What an outcome says of the last call.
  abbrev pub Explains : (attempts last : ℕ) → Outcome → Type 0
  Explains attempts last done = op last ≡ succeeded
  Explains attempts last (gave_up error) = op last ≡ no_retry error
  Explains attempts last (exhausted n error) =
      (n ≡ attempts) × (suc last ≡ attempts) × (op last ≡ failed error)
  Explains attempts last context_done =
      (error : ℕ) × (op last ≡ failed error) × (suc last < attempts) × (canceled last ≡ true)

  -- A call that failed, with a delay behind it that was waited for.
  abbrev pub GoesOn : ℕ → Type 0
  GoesOn k = (error : ℕ) × (op k ≡ failed error) × (canceled k ≡ false)

  -- The trace of the rounds from `i` on, of which the last is known.
  abbrev Story : (attempts i : ℕ) → Trace → Type 0
  Story attempts i t =
      (last : ℕ) × (i + t.calls ≡ suc last)
      × (i ≤ last)
      × (last < attempts)
      × Explains attempts last t.outcome
      × ((k : ℕ) → i ≤ k → k < last → GoesOn k)

  -- A round that ends the loop.
  here :
      (attempts i : ℕ) (o : Outcome) (delays : List ℤ)
      → i < attempts
      → Explains attempts i o
      → Story attempts i (record { outcome = o; calls = 1; delays = delays })
  here attempts i o delays bound why =
      (i, omega arith, omega arith, bound, why, λ k low high. absurd (omega arith))

  -- A round behind which the loop goes on.
  there :
      (attempts i : ℕ) (rest : Trace) (delay : ℤ)
      → GoesOn i
      → Story attempts (suc i) rest
      → Story attempts i (record rest { calls = rest.calls + 1; delays = delay ∷ rest.delays })
  there attempts i rest delay on (last, calls, low, high, why, before) = (
    last,
    omega arith,
    omega arith,
    high,
    why,
    λ k above below. elim (Bool-cases (i == k)) [
      | inl same ↦ subst GoesOn ((==_iff i k).0 same) on
      | inr other ↦ before k (ground arith) below
    ],
  )

  round-Story :
      (cfg : RetryConfig) (attempts i left : ℕ) (stopped : Bool) (rest : Trace) (a : Attempt)
      → i + suc left ≡ attempts
      → op i ≡ a
      → canceled i ≡ stopped
      → (0 < left → Story attempts (suc i) rest)
      → Story attempts i (round cfg attempts i (left == 0) stopped rest a)
  unfolding round after_failure
  round-Story cfg attempts i left stopped rest succeeded total is ctx later =
      here attempts i done [] (omega arith) is
  round-Story cfg attempts i left stopped rest (no_retry error) total is ctx later =
      here attempts i (gave_up error) [] (omega arith) is
  round-Story cfg attempts i zero stopped rest (failed error) total is ctx later =
      here attempts i (exhausted attempts error) [] (omega arith) (refl, omega arith, is)
  round-Story cfg attempts i (suc left) true rest (failed error) total is ctx later =
      let more : (suc left == 0) ≡ false = ground arith in
      rw more (
        here attempts i context_done (delay_of cfg i ∷ []) (omega arith)
          (error, is, omega arith, ctx))
  round-Story cfg attempts i (suc left) false rest (failed error) total is ctx later =
      let more : (suc left == 0) ≡ false = ground arith in
      rw more (there attempts i rest (delay_of cfg i) (error, is, ctx) (later (omega arith)))

  rounds-Story :
      (cfg : RetryConfig) (attempts i left : ℕ)
      → i + left ≡ attempts
      → 0 < left
      → Story attempts i (rounds op canceled cfg attempts i left)
  unfolding rounds
  rounds-Story cfg attempts i zero total some_left = absurd (omega arith)
  rounds-Story cfg attempts i (suc left) total some_left =
      round-Story cfg attempts i left (canceled i) _ (op i) total refl refl
        (λ more. rounds-Story cfg attempts (suc i) left (omega arith) more)

  -- The operation is called at least once and at most as often as configured, once if that is not
  -- positive. Every call before the last failed with an error that may be tried again, and its
  -- delay ran out. The last call explains the outcome: it succeeded; its error may not be tried
  -- again, and is given back; it is the last of the allowed calls, and its error is given; or it
  -- failed with an error that may be tried again, more calls were allowed, and the context was done
  -- in the delay behind it.
  pub retry_outcome :
      (cfg : RetryConfig)
      → let t = retry op canceled cfg in
        let attempts = attempts_of cfg.max_attempts in
        (last : ℕ) × (t.calls ≡ suc last)
        × (last < attempts)
        × Explains attempts last t.outcome
        × ((k : ℕ) → k < last → GoesOn k)
  unfolding retry
  retry_outcome cfg =
      let attempts = attempts_of cfg.max_attempts in
      let (last, calls, low, high, why, before) =
        rounds-Story cfg attempts 0 attempts (omega arith)
          (attempts_of_positive cfg.max_attempts) in
      (last, omega arith, high, why, λ k below. before k (omega arith) below)
