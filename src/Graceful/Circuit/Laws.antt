-- ===== src/Graceful/Circuit/Laws.antt =====
-- What holds of a backend's breaker after any calls.
use mathlib.Core.Path.{subst}
use deploy_monster.Prelude.{
  ℕ, ◌+◌, ◌≤◌, ◌<◌, suc, ◌∙◌, ap, sym, inl, inr, ◌≢◌, Bool-cases, ◌≡◌, refl, true, false, List, [],
  ◌∷◌, arith,
}
use deploy_monster.Prelude.Int.{ℤ, pos, negsuc, sub_ℕ, ltb_ℤ}
use deploy_monster.Graceful.Circuit.{
  CircuitBreaker, CircuitConfig, closed, open_, half_open, Call, allows, succeeds, fails, resets,
  new_circuit_breaker, step, run, reaches, CircuitState, allow_in, success_in, failure_in,
}

abbrev pub IsPositive : ℤ → Type 0
IsPositive (pos n) = 0 < n
IsPositive (negsuc n) = ⊥

pub record HasThresholds (c : CircuitConfig) : Type 0 where
  pub failure_positive : IsPositive c.failure_threshold
  pub success_positive : IsPositive c.success_threshold

pub record Inv (cb : CircuitBreaker) : Type 0 where
  pub closed_below :
      cb.state ≡ closed → reaches cb.failure_count cb.config.failure_threshold ≡ false
  pub closed_successes : cb.state ≡ closed → cb.success_count ≡ 0
  pub open_successes : cb.state ≡ open_ → cb.success_count ≡ 0
  pub probing_below :
      cb.state ≡ half_open → reaches cb.success_count cb.config.success_threshold ≡ false

reaches_zero : (t : ℤ) → IsPositive t → reaches 0 t ≡ false
reaches_zero (pos n) h = ground arith
reaches_zero (negsuc n) h = absurd h

step-config : (cb : CircuitBreaker) (c : Call) → (step cb c).config ≡ cb.config
unfolding step
step-config cb (allows now later) = ground arith
step-config cb (succeeds now) = ground arith
step-config cb (fails now later) = ground arith
step-config cb (resets now) = refl

step-Inv : (cb : CircuitBreaker) (c : Call) → HasThresholds cb.config → Inv cb → Inv (step cb c)
unfolding step
step-Inv cb (allows now later) h v =
    ground (arith, reaches_zero _ h.failure_positive, reaches_zero _ h.success_positive)
step-Inv cb (succeeds now) h v =
    ground (arith, reaches_zero _ h.failure_positive, reaches_zero _ h.success_positive)
step-Inv cb (fails now later) h v =
    ground (arith, reaches_zero _ h.failure_positive, reaches_zero _ h.success_positive)
step-Inv cb (resets now) h v =
    ground (arith, reaches_zero _ h.failure_positive, reaches_zero _ h.success_positive)

run-Inv :
    (cb : CircuitBreaker) (cs : List Call) → HasThresholds cb.config → Inv cb → Inv (run cb cs)
unfolding run
run-Inv cb [] h v = v
run-Inv cb (c ∷ cs) h v =
    run-Inv (step cb c) cs (subst HasThresholds (sym (step-config cb c)) h) (step-Inv cb c h v)

-- With positive thresholds, whatever calls follow the creation at whatever times: a closed breaker
-- is below its failure threshold, a half-open one below its success threshold, and successes are
-- counted in the half-open state only.
pub run-new_circuit_breaker-Inv :
    (config : CircuitConfig) (now : ℕ) (cs : List Call)
    → HasThresholds config
    → Inv (run (new_circuit_breaker config now) cs)
unfolding new_circuit_breaker
run-new_circuit_breaker-Inv config now cs h =
    run-Inv _ cs h (ground (arith, reaches_zero _ h.failure_positive))

-- The transition diagram: from a state, by a call, to a state.
pub data Edge (cb : CircuitBreaker) : Call → CircuitState → Type 0 where
  stay : {c : Call} {s : CircuitState} → s ≡ cb.state → Edge cb c s
  trip :
      {now later : ℕ}
      → cb.state ≡ closed
      → reaches (cb.failure_count + 1) cb.config.failure_threshold ≡ true
      → Edge cb (fails now later) open_
  try_again :
      {now later : ℕ}
      → cb.state ≡ open_
      → ltb_ℤ cb.config.timeout (sub_ℕ now cb.last_fail_time) ≡ true
      → Edge cb (allows now later) half_open
  recover :
      {now : ℕ}
      → cb.state ≡ half_open
      → reaches (cb.success_count + 1) cb.config.success_threshold ≡ true
      → Edge cb (succeeds now) closed
  fall_back : {now later : ℕ} → cb.state ≡ half_open → Edge cb (fails now later) open_
  force : {now : ℕ} → Edge cb (resets now) closed

abbrev pub target : CircuitBreaker → Call → CircuitState
target cb c = (step cb c).state

allows-Edge :
    (cb : CircuitBreaker) (now later : ℕ) (s : CircuitState)
    → cb.state ≡ s
    → Edge cb (allows now later) (allow_in s cb now later).0.state
unfolding allow_in
allows-Edge cb now later closed e = stay refl
allows-Edge cb now later half_open e = stay refl
allows-Edge cb now later open_ e =
    elim (Bool-cases (ltb_ℤ cb.config.timeout (sub_ℕ now cb.last_fail_time))) [
      | inl t ↦ rw t (try_again e t)
      | inr f ↦ rw f (stay refl)
    ]

succeeds-Edge :
    (cb : CircuitBreaker) (now : ℕ) (s : CircuitState)
    → cb.state ≡ s
    → Edge cb (succeeds now) (success_in s cb now).state
unfolding success_in
succeeds-Edge cb now closed e = stay refl
succeeds-Edge cb now open_ e = stay refl
succeeds-Edge cb now half_open e =
    elim (Bool-cases (reaches (cb.success_count + 1) cb.config.success_threshold)) [
      | inl t ↦ rw t (recover e t)
      | inr f ↦ rw f (stay refl)
    ]

fails-Edge :
    (cb : CircuitBreaker) (now later : ℕ) (s : CircuitState)
    → cb.state ≡ s
    → Edge cb (fails now later) (failure_in s (record cb { last_fail_time = now }) later).state
unfolding failure_in
fails-Edge cb now later open_ e = stay refl
fails-Edge cb now later half_open e = fall_back e
fails-Edge cb now later closed e =
    elim (Bool-cases (reaches (cb.failure_count + 1) cb.config.failure_threshold)) [
      | inl t ↦ rw t (trip e t)
      | inr f ↦ rw f (stay refl)
    ]

-- Every call keeps the state or moves along one of five edges: closed to open by the failure that
-- reaches the threshold, open to half-open by a request after the timeout, half-open to closed by
-- the success that reaches the threshold, half-open to open by a failure, anything to closed by a
-- reset.
pub step-Edge : (cb : CircuitBreaker) (c : Call) → Edge cb c (step cb c).state
unfolding step
step-Edge cb (allows now later) = allows-Edge cb now later cb.state refl
step-Edge cb (succeeds now) = succeeds-Edge cb now cb.state refl
step-Edge cb (fails now later) = fails-Edge cb now later cb.state refl
step-Edge cb (resets now) = force

abbrev pub failures : List Call → ℕ
failures [] = 0
failures (fails now later ∷ cs) = suc (failures cs)
failures (c ∷ cs) = failures cs

-- How many failures the breaker has used up, out of a threshold of `n`.
abbrev spent : ℕ → CircuitState → ℕ → ℕ
spent n closed count = count
spent n _ count = n

spent-step :
    (n : ℕ) (cb : CircuitBreaker) (c : Call) (cs : List Call)
    → cb.config.failure_threshold ≡ pos n
    → spent n (step cb c).state (step cb c).failure_count + failures cs
      ≤ spent n cb.state cb.failure_count + failures (c ∷ cs)
unfolding step
spent-step n cb (allows now later) cs e = ground arith
spent-step n cb (succeeds now) cs e = ground arith
spent-step n cb (fails now later) cs e = ground arith
spent-step n cb (resets now) cs e = ground arith

spent-run :
    (n : ℕ) (cb : CircuitBreaker) (cs : List Call)
    → cb.config.failure_threshold ≡ pos n
    → spent n (run cb cs).state (run cb cs).failure_count
      ≤ spent n cb.state cb.failure_count + failures cs
unfolding run
spent-run n cb [] e = omega arith
spent-run n cb (c ∷ cs) e = omega (
  arith,
  spent-step n cb c cs e,
  spent-run n (step cb c) cs (ap (λ k. k.failure_threshold) (step-config cb c) ∙ e),
)

-- A breaker with failure threshold `n` that is not closed has seen at least `n` failures since it
-- was made, whatever other calls came between.
pub not_closed_needs_failures :
    (n : ℕ) (config : CircuitConfig) (now : ℕ) (cs : List Call)
    → config.failure_threshold ≡ pos n
    → (run (new_circuit_breaker config now) cs).state ≢ closed
    → n ≤ failures cs
unfolding new_circuit_breaker
not_closed_needs_failures n config now cs e h =
    ground (arith, spent-run n (new_circuit_breaker config now) cs e)
