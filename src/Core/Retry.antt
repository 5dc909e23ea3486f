-- ===== src/Core/Retry.antt =====
-- internal/core/retry.go: repeating an operation with a delay that doubles.
-- What the operation gives at its `i`th call is `op i`, and whether the context is done before the
-- delay behind that call is over is `canceled i`.
pub mod Attempts
pub mod Delays
mod Tests
use deploy_monster.Prelude.{
  ℕ, zero, suc, ◌+◌, ◌-◌, ◌*◌, ◌%◌, ◌^◌, Bool, List, [], ◌∷◌, if◌then◌else◌, ltb, ◌==◌,
}
use deploy_monster.Prelude.Int.{ℤ, pos, negsuc, ltb_ℤ}

-- No error, an error wrapped by ErrNoRetry, or another error; errors are numbered.
pub data Attempt : Type 0 where
  succeeded : Attempt
  no_retry failed : (error : ℕ) → Attempt

pub record RetryConfig : Type 0 where
  pub max_attempts : ℤ
  pub initial_delay : ℤ
  pub max_delay : ℤ

unfoldable pub default_retry_config : RetryConfig
default_retry_config = record {
  max_attempts = pos 3;
  initial_delay = pos 200_000_000;
  max_delay = pos 5_000_000_000;
}

-- Nil, the error that ErrNoRetry wrapped, "operation failed after n attempts" or ctx.Err().
pub data Outcome : Type 0 where
  done : Outcome
  gave_up : (error : ℕ) → Outcome
  exhausted : (attempts error : ℕ) → Outcome
  context_done : Outcome

-- The outcome, with the calls made and the delays begun.
pub record Trace : Type 0 where
  pub outcome : Outcome
  pub calls : ℕ
  pub delays : List ℤ

-- `if attempts <= 0 { attempts = 1 }`
unfoldable pub attempts_of : ℤ → ℕ
attempts_of (pos n) = if n == 0 then 1 else n
attempts_of (negsuc n) = 1

-- An int64 as the number of its bits, and back.
abbrev pub bits : ℤ → ℕ
bits (pos n) = n % 2 ^ 64
bits (negsuc n) = 2 ^ 64 - 1 - n % 2 ^ 64

abbrev pub int64 : ℕ → ℤ
int64 m = if ltb m (2 ^ 63) then pos m else negsuc (2 ^ 64 - 1 - m)

-- `cfg.InitialDelay * time.Duration(1<<uint(i))`, which wraps, cut at `cfg.MaxDelay`.
unfoldable pub shifted_delay : RetryConfig → ℕ → ℤ
shifted_delay cfg i = int64 (bits cfg.initial_delay * (2 ^ i % 2 ^ 64) % 2 ^ 64)

unfoldable pub delay_of : RetryConfig → ℕ → ℤ
unfolding shifted_delay
delay_of cfg i =
    if ltb_ℤ cfg.max_delay (shifted_delay cfg i) then cfg.max_delay else shifted_delay cfg i

-- The end of a round that failed, with what the rounds behind it give.
after_failure : RetryConfig → (attempts i error : ℕ) → (last canceled : Bool) → Trace → Trace
unfolding delay_of
after_failure cfg attempts i error last canceled rest =
    if last
    then record { outcome = exhausted attempts error; calls = 1; delays = [] }
    else if canceled
    then record { outcome = context_done; calls = 1; delays = delay_of cfg i ∷ [] }
    else record rest { calls = rest.calls + 1; delays = delay_of cfg i ∷ rest.delays }

round : RetryConfig → (attempts i : ℕ) → (last canceled : Bool) → Trace → Attempt → Trace
unfolding after_failure
round cfg attempts i last canceled rest succeeded = record {
  outcome = done;
  calls = 1;
  delays = [];
}
round cfg attempts i last canceled rest (no_retry error) = record {
  outcome = gave_up error;
  calls = 1;
  delays = [];
}
round cfg attempts i last canceled rest (failed error) =
    after_failure cfg attempts i error last canceled rest

module _ (op : ℕ → Attempt) (canceled : ℕ → Bool) where
  -- The loop from `i` on, with the rounds that are left; there is always one.
  unfoldable pub rounds : RetryConfig → (attempts i left : ℕ) → Trace
  unfolding round
  rounds cfg attempts i zero = record { outcome = exhausted attempts 0; calls = 0; delays = [] }
  rounds cfg attempts i (suc left) =
      round cfg attempts i (left == 0) (canceled i) (rounds cfg attempts (suc i) left) (op i)

  unfoldable pub retry : RetryConfig → Trace
  unfolding rounds attempts_of
  retry cfg = rounds cfg (attempts_of cfg.max_attempts) 0 (attempts_of cfg.max_attempts)
