-- ===== src/Core/Retry/Delays.antt =====
-- The delays between the attempts.
use native.Mathlib.Nat.{mod-eq_of_lt}
use deploy_monster.Prelude.{
  ℕ, zero, suc, ◌+◌, ◌-◌, ◌*◌, ◌%◌, ◌^◌, ◌≤◌, ◌<◌, ◌≡◌, refl, sym, ap, ◌∙◌, Bool, true, false, List,
  [], ◌∷◌, some, length, get_elem?, arith, ◌==◌, if◌then◌else◌, Bool-cases, inl, inr,
}
use deploy_monster.Prelude.Int.{ℤ, pos, ltb_ℤ, ◌≤ℤ◌}
use deploy_monster.Prelude.Find.{All}
use deploy_monster.Core.Retry.Attempts.{attempts_of_positive}
use deploy_monster.Core.Retry.{
  Attempt, succeeded, no_retry, failed, RetryConfig, Outcome, done, gave_up, exhausted,
  context_done, Trace, shifted_delay, delay_of, after_failure, round, rounds, retry, attempts_of,
}

delay_of-max : (cfg : RetryConfig) (i : ℕ) → delay_of cfg i ≤ℤ cfg.max_delay
unfolding delay_of
delay_of-max cfg i = elim (Bool-cases (ltb_ℤ cfg.max_delay (shifted_delay cfg i))) [
  | inl over ↦ rw over (omega arith)
  | inr under ↦ rw under (ground arith)
]

factor_le : (a b : ℕ) → 0 < b → a ≤ a * b
factor_le a zero h = absurd (omega arith)
factor_le a (suc b) h = omega arith

power_positive : (i : ℕ) → 0 < 2 ^ i
power_positive zero = omega arith
power_positive (suc i) = let ih = power_positive i in omega arith

-- Two numbers whose product fits in a word.
product_fits : (d p : ℕ) → 0 < p → d * p < 2 ^ 63 → d % 2 ^ 64 * (p % 2 ^ 64) % 2 ^ 64 ≡ d * p
product_fits zero p positive small = ground arith
product_fits (suc d) p positive small =
    let first = factor_le (suc d) p positive in
    let second = factor_le p (suc d) (omega arith) in
    let small_d : suc d % 2 ^ 64 ≡ suc d = mod-eq_of_lt (omega arith) in
    let small_p : p % 2 ^ 64 ≡ p = mod-eq_of_lt (omega arith) in
    let small_product : suc d * p % 2 ^ 64 ≡ suc d * p = mod-eq_of_lt (omega arith) in
    ap (λ x. x * (p % 2 ^ 64) % 2 ^ 64) small_d
    ∙ ap (λ x. suc d * x % 2 ^ 64) small_p
    ∙ small_product

-- Without overflow the bits are those of the product.
shifted_exact :
    (cfg : RetryConfig) (d i : ℕ)
    → cfg.initial_delay ≡ pos d
    → d * 2 ^ i < 2 ^ 63
    → shifted_delay cfg i ≡ pos (d * 2 ^ i)
unfolding shifted_delay
shifted_exact cfg d i initial small =
    rw initial
      let exact : d % 2 ^ 64 * (2 ^ i % 2 ^ 64) % 2 ^ 64 ≡ d * 2 ^ i =
          product_fits d (2 ^ i) (power_positive i) small in
        (rw exact (ground arith))

module _ (op : ℕ → Attempt) (canceled : ℕ → Bool) where
  pub AreCapped : RetryConfig → Trace → Type 0
  AreCapped cfg t = All (λ d. d ≤ℤ cfg.max_delay) t.delays

  round-AreCapped :
      (cfg : RetryConfig) (attempts i : ℕ) (last stopped : Bool) (rest : Trace) (a : Attempt)
      → AreCapped cfg rest
      → AreCapped cfg (round cfg attempts i last stopped rest a)
  unfolding AreCapped round after_failure
  round-AreCapped cfg attempts i last stopped rest succeeded h = tt
  round-AreCapped cfg attempts i last stopped rest (no_retry error) h = tt
  round-AreCapped cfg attempts i true stopped rest (failed error) h = tt
  round-AreCapped cfg attempts i false true rest (failed error) h = (delay_of-max cfg i, tt)
  round-AreCapped cfg attempts i false false rest (failed error) h = (delay_of-max cfg i, h)

  rounds-AreCapped :
      (cfg : RetryConfig) (attempts i left : ℕ)
      → AreCapped cfg (rounds op canceled cfg attempts i left)
  unfolding rounds AreCapped
  rounds-AreCapped cfg attempts i zero = tt
  rounds-AreCapped cfg attempts i (suc left) =
      round-AreCapped cfg attempts i _ (canceled i) _ (op i)
        (rounds-AreCapped cfg attempts (suc i) left)

  -- Delays that begin behind the `i`th call.
  abbrev Follow : RetryConfig → ℕ → List ℤ → Type 0
  Follow cfg i [] = Unit
  Follow cfg i (x ∷ delays) = (x ≡ delay_of cfg i) × Follow cfg (suc i) delays

  Follow-at :
      (cfg : RetryConfig) (delays : List ℤ) (i k : ℕ)
      → Follow cfg i delays
      → k < length delays
      → get_elem? delays k ≡ some (delay_of cfg (i + k))
  Follow-at cfg [] i k follow short = absurd (omega arith)
  Follow-at cfg (x ∷ delays) i zero (same, follow) short =
      let here : i + 0 ≡ i = omega arith in rw here (ap some same)
  Follow-at cfg (x ∷ delays) i (suc k) (same, follow) short =
      let there : i + suc k ≡ suc i + k = omega arith in
      rw there (Follow-at cfg delays (suc i) k follow (omega arith))

  -- A delay behind every call but the last, and behind that one if the context is done there.
  abbrev pub pauses : Outcome → ℕ → ℕ
  pauses done calls = calls - 1
  pauses (gave_up error) calls = calls - 1
  pauses (exhausted n error) calls = calls - 1
  pauses context_done calls = calls

  pauses-suc : (o : Outcome) (calls : ℕ) → 0 < calls → pauses o (calls + 1) ≡ suc (pauses o calls)
  pauses-suc done calls called = omega arith
  pauses-suc (gave_up error) calls called = omega arith
  pauses-suc (exhausted n error) calls called = omega arith
  pauses-suc context_done calls called = omega arith

  -- What the delays of a trace are.
  abbrev Paced : RetryConfig → ℕ → Trace → Type 0
  Paced cfg i t =
      (0 < t.calls) × (length t.delays ≡ pauses t.outcome t.calls) × Follow cfg i t.delays

  round-Paced :
      (cfg : RetryConfig) (attempts i : ℕ) (last stopped : Bool) (rest : Trace) (a : Attempt)
      → (last ≡ false → Paced cfg (suc i) rest)
      → Paced cfg i (round cfg attempts i last stopped rest a)
  unfolding round after_failure
  round-Paced cfg attempts i last stopped rest succeeded h = (omega arith, refl, tt)
  round-Paced cfg attempts i last stopped rest (no_retry error) h = (omega arith, refl, tt)
  round-Paced cfg attempts i true stopped rest (failed error) h = (omega arith, refl, tt)
  round-Paced cfg attempts i false true rest (failed error) h = (omega arith, refl, (refl, tt))
  round-Paced cfg attempts i false false rest (failed error) h =
      let (called, many, follow) = h refl in
      let more = pauses-suc rest.outcome rest.calls called in
      (omega arith, ap suc many ∙ sym more, (refl, follow))

  rounds-Paced :
      (cfg : RetryConfig) (attempts i left : ℕ)
      → Paced cfg i (rounds op canceled cfg attempts i (suc left))
  unfolding rounds
  rounds-Paced cfg attempts i zero =
      round-Paced cfg attempts i true (canceled i) (rounds op canceled cfg attempts (suc i) zero)
        (op i) (λ more. absurd (ground arith))
  rounds-Paced cfg attempts i (suc left) =
      let more : (suc left == 0) ≡ false = ground arith in
      rw more (
        round-Paced cfg attempts i false (canceled i)
          (rounds op canceled cfg attempts (suc i) (suc left)) (op i)
          (λ more. rounds-Paced cfg attempts (suc i) left))

  some_rounds-Paced :
      (cfg : RetryConfig) (attempts n : ℕ)
      → 0 < n
      → Paced cfg 0 (rounds op canceled cfg attempts 0 n)
  some_rounds-Paced cfg attempts zero some_left = absurd (omega arith)
  some_rounds-Paced cfg attempts (suc left) some_left = rounds-Paced cfg attempts 0 left

  -- Retry waits behind every call but the last, and behind that one only if the context is done
  -- there; no delay is above `MaxDelay`. As long as doubling does not leave the range of an int64,
  -- the delay in place `k`, the one behind call `k`, both from 0 on, is `InitialDelay * 2^k` or
  -- `MaxDelay`, whichever is less.
  pub retry_delays :
      (cfg : RetryConfig)
      → let t = retry op canceled cfg in
        All (λ x. x ≤ℤ cfg.max_delay) t.delays
        × (length t.delays ≡ pauses t.outcome t.calls)
        × ((d k : ℕ)
            → cfg.initial_delay ≡ pos d
            → d * 2 ^ k < 2 ^ 63
            → k < length t.delays
            → get_elem? t.delays k
              ≡ some (
                  if ltb_ℤ cfg.max_delay (pos (d * 2 ^ k)) then cfg.max_delay else pos (d * 2 ^ k)))
  unfolding AreCapped delay_of retry
  retry_delays cfg =
      let (called, many, follow) =
        some_rounds-Paced cfg (attempts_of cfg.max_attempts) (attempts_of cfg.max_attempts)
          (attempts_of_positive cfg.max_attempts) in
      (
        rounds-AreCapped cfg (attempts_of cfg.max_attempts) 0 (attempts_of cfg.max_attempts),
        many,
        λ d k initial small short.
            let exact = shifted_exact cfg d k initial small in
            let from_start : 0 + k ≡ k = omega arith in
            Follow-at cfg (retry op canceled cfg).delays 0 k follow short
            ∙ ap (λ j. some (delay_of cfg j)) from_start
            ∙ ap (λ x. some (if ltb_ℤ cfg.max_delay x then cfg.max_delay else x)) exact,
      )
