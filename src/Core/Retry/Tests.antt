-- ===== src/Core/Retry/Tests.antt =====
-- Runs of Retry.
use Prim.Native.Nat.{◌*◌, ◌^◌}
use deploy_monster.Prelude.{
  ℕ, zero, suc, ◌<◌, ◌≡◌, refl, Bool, true, false, [], ◌∷◌, some, length, get_elem?, if◌then◌else◌,
}
use deploy_monster.Prelude.Int.{pos, negsuc, ltb_ℤ, ◌≤ℤ◌}
use deploy_monster.Prelude.Find.{All}
use deploy_monster.Core.Retry.{
  Attempt, succeeded, failed, default_retry_config, done, retry, attempts_of, delay_of,
  context_done,
}
use deploy_monster.Core.Retry.Attempts.{Explains, GoesOn, retry_outcome}
use deploy_monster.Core.Retry.Delays.{pauses, retry_delays}

-- Two failures, then success.
abbrev third_time : ℕ → Attempt
third_time zero = failed 7
third_time (suc zero) = failed 8
third_time (suc (suc i)) = succeeded

abbrev patient : ℕ → Bool
patient i = false

third_succeeds :
    retry third_time patient default_retry_config
    ≡ record { outcome = done; calls = 3; delays = pos 200_000_000 ∷ pos 400_000_000 ∷ [] }
unfolding retry default_retry_config
third_succeeds = refl

retry_outcome_example :
    let t = retry third_time patient default_retry_config in
    (last : ℕ) × (t.calls ≡ suc last)
    × (last < attempts_of default_retry_config.max_attempts)
    × Explains third_time patient (attempts_of default_retry_config.max_attempts) last t.outcome
    × ((k : ℕ) → k < last → GoesOn third_time patient k)
retry_outcome_example = retry_outcome third_time patient default_retry_config

retry_delays_example :
    let t = retry third_time patient default_retry_config in
    All (λ x. x ≤ℤ default_retry_config.max_delay) t.delays
    × (length t.delays ≡ pauses third_time patient t.outcome t.calls)
    × ((d k : ℕ)
        → default_retry_config.initial_delay ≡ pos d
        → d * 2 ^ k < 2 ^ 63
        → k < length t.delays
        → get_elem? t.delays k
          ≡ some (
              if ltb_ℤ default_retry_config.max_delay (pos (d * 2 ^ k))
              then default_retry_config.max_delay
              else pos (d * 2 ^ k)))
retry_delays_example = retry_delays third_time patient default_retry_config

-- A success is a success although the context is done meanwhile; a failure is not tried again then.
context_is_done :
    ((retry (λ i. succeeded) (λ i. true) default_retry_config).outcome ≡ done)
    × ((retry third_time (λ i. true) default_retry_config).outcome ≡ context_done)
unfolding retry default_retry_config
context_is_done = (refl, refl)

-- Behind the 37th call the product leaves the int64, and the delay is negative: no pause at all.
overflow : delay_of default_retry_config 36 ≡ negsuc 4_702_848_726_509_551_615
unfolding delay_of default_retry_config
overflow = refl

-- With an initial delay that is a multiple of 2^16, from the 49th call on it is 0.
vanishes : delay_of (record default_retry_config { initial_delay = pos 65_536_000 }) 48 ≡ pos 0
unfolding delay_of default_retry_config
vanishes = refl
