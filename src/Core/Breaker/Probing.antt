-- ===== src/Core/Breaker/Probing.antt =====
-- The half-open phase: how many probes it lets through, and how it ends.
use deploy_monster.Prelude.{
  ℕ, suc, ◌+◌, ◌≤◌, ◌<◌, ◌≡◌, refl, sym, Bool, false, List, [], ◌∷◌, arith, ◌∙◌, ap, if◌then◌else◌,
  length,
}
use deploy_monster.Prelude.Find.{All}
use deploy_monster.Core.Breaker.{
  CircuitBreaker, closed, open_, Event, before, after, reset_by_hand, Outcome, success, no_retry,
  before_call, step, run,
}
use deploy_monster.Core.Breaker.Invariant.{Inv}

-- How many of the calls that start at these times are let through.
abbrev pub admitted : CircuitBreaker → List ℕ → ℕ
admitted cb [] = 0
admitted cb (now ∷ ts) =
    let rest = admitted (before_call cb now).0 ts in
    if (before_call cb now).1 then suc rest else rest

before_open :
    (cb : CircuitBreaker) (now : ℕ)
    → cb.state ≡ open_
    → cb.half_open_calls ≤ cb.half_open_max
    → let cb' = (before_call cb now).0 in
      (cb'.state ≡ open_)
      × (cb'.half_open_max ≡ cb.half_open_max)
      × (cb'.half_open_calls ≤ cb'.half_open_max)
      × (cb'.half_open_calls
          ≡ (if (before_call cb now).1 then cb.half_open_calls + 1 else cb.half_open_calls))
unfolding before_call
before_open cb now o h = ground arith

admitted_le :
    (cb : CircuitBreaker) (ts : List ℕ)
    → cb.state ≡ open_
    → cb.half_open_calls ≤ cb.half_open_max
    → admitted cb ts + cb.half_open_calls ≤ cb.half_open_max
admitted_le cb [] o h = omega arith
admitted_le cb (now ∷ ts) o h =
    let (o', m, b, n) = before_open cb now o h in
    ground (arith, admitted_le (before_call cb now).0 ts o' b)

-- However many calls start, and whenever, while no call ends: an open breaker lets through at most
-- the configured number of probes.
pub probes_bounded :
    (cb : CircuitBreaker) (ts : List ℕ)
    → Inv cb
    → cb.state ≡ open_
    → admitted cb ts ≤ cb.half_open_max
probes_bounded cb ts v o = omega (arith, admitted_le cb ts o v.calls_bounded)

-- Calls one after the other: each starts at its first time, and ends with the result; its last two
-- times are those of the end, as in `after`.
abbrev pub probes : List (ℕ × ℕ × ℕ) → Outcome → List Event
probes [] result = []
probes ((start, now, later) ∷ ts) result = before start ∷ after now later result ∷ probes ts result

-- A call that starts, and ends, when the timeout of the breaker has passed.
abbrev pub IsProbe : CircuitBreaker → ℕ × ℕ × ℕ → Type 0
IsProbe cb (start, now, later) =
    (cb.last_failure + cb.reset_timeout ≤ start) × (cb.last_failure + cb.reset_timeout ≤ now)

probe_success :
    (cb : CircuitBreaker) (start now later : ℕ)
    → cb.state ≡ open_
    → IsProbe cb (start, now, later)
    → cb.half_open_calls < cb.half_open_max
    → cb.successes + 1 < cb.half_open_max
    → step (step cb (before start)) (after now later success)
      ≡ record cb { half_open_calls = cb.half_open_calls + 1; successes = cb.successes + 1 }
unfolding step
probe_success cb start now later o (t, u) h s = ground arith

probe_last :
    (cb : CircuitBreaker) (start now later : ℕ)
    → cb.state ≡ open_
    → IsProbe cb (start, now, later)
    → cb.half_open_calls < cb.half_open_max
    → cb.successes + 1 ≡ cb.half_open_max
    → step (step cb (before start)) (after now later success)
      ≡ record cb { state = closed; failures = 0; successes = 0; half_open_calls = 0 }
unfolding step
probe_last cb start now later o (t, u) h s = ground arith

-- All probes but the last leave the breaker open.
closes_after :
    (ts : List (ℕ × ℕ × ℕ)) (cb : CircuitBreaker)
    → cb.state ≡ open_
    → All (IsProbe cb) ts
    → cb.half_open_calls ≡ cb.successes
    → 0 < length ts
    → cb.successes + length ts ≡ cb.half_open_max
    → run cb (probes ts success)
      ≡ record cb { state = closed; failures = 0; successes = 0; half_open_calls = 0 }
unfolding run
closes_after [] cb o t e some_left h = absurd (omega arith)
closes_after ((start, now, later) ∷ []) cb o (t, all) e some_left h =
    probe_last cb start now later o t (omega arith) (omega arith)
closes_after ((start, now, later) ∷ u ∷ ts) cb o (t, all) e some_left h =
    ap (λ c. run c (probes (u ∷ ts) success))
      (probe_success cb start now later o t (omega arith) (omega arith))
    ∙ closes_after (u ∷ ts)
        (record cb { half_open_calls = cb.half_open_calls + 1; successes = cb.successes + 1 }) o all
        (omega arith) (omega arith) (omega arith)

-- Once the timeout of an open breaker with no probe counted has passed, as many successful probes
-- as are configured, one after the other at any times from then on, close it with all counters at
-- zero.
pub recovers :
    (cb : CircuitBreaker) (ts : List (ℕ × ℕ × ℕ))
    → Inv cb
    → cb.state ≡ open_
    → cb.half_open_calls ≡ 0
    → cb.successes ≡ 0
    → length ts ≡ cb.half_open_max
    → All (IsProbe cb) ts
    → run cb (probes ts success)
      ≡ record cb { state = closed; failures = 0; successes = 0; half_open_calls = 0 }
recovers cb ts v o c s n all =
    closes_after ts cb o all (omega arith) (omega (arith, v.probes_positive)) (omega arith)

probe_no_retry :
    (cb : CircuitBreaker) (start now later : ℕ)
    → cb.state ≡ open_
    → cb.last_failure + cb.reset_timeout ≤ start
    → cb.half_open_calls < cb.half_open_max
    → step (step cb (before start)) (after now later no_retry)
      ≡ record cb { half_open_calls = cb.half_open_calls + 1 }
unfolding step
probe_no_retry cb start now later o t h = ground arith

uses_up :
    (ts : List (ℕ × ℕ × ℕ)) (cb : CircuitBreaker)
    → cb.state ≡ open_
    → All (λ t. cb.last_failure + cb.reset_timeout ≤ t.0) ts
    → cb.half_open_calls + length ts ≡ cb.half_open_max
    → run cb (probes ts no_retry) ≡ record cb { half_open_calls = cb.half_open_max }
unfolding run
uses_up [] cb o all h = ground arith
uses_up ((start, now, later) ∷ ts) cb o (t, all) h =
    ap (λ c. run c (probes ts no_retry)) (probe_no_retry cb start now later o t (omega arith))
    ∙ uses_up ts (record cb { half_open_calls = cb.half_open_calls + 1 }) o all (omega arith)

-- Calls that start, or that were let through before and end with an error marked by ErrNoRetry.
abbrev pub IsFutile : Event → Type 0
IsFutile (before now) = Unit
IsFutile (after now later result) = result ≡ no_retry
IsFutile reset_by_hand = ⊥

-- Which of the events let a call through.
abbrev pub lets_through : CircuitBreaker → Event → Bool
lets_through cb (before now) = (before_call cb now).1
lets_through cb (after now later result) = false
lets_through cb reset_by_hand = false

abbrev pub let_through : CircuitBreaker → List Event → ℕ
let_through cb [] = 0
let_through cb (e ∷ es) =
    let rest = let_through (step cb e) es in if lets_through cb e then suc rest else rest

futile_step :
    (cb : CircuitBreaker) (e : Event)
    → cb.state ≡ open_
    → cb.half_open_calls ≡ cb.half_open_max
    → IsFutile e
    → (step cb e ≡ cb) × (lets_through cb e ≡ false)
unfolding step before_call
futile_step cb (before now) o h f = (ground arith, ground arith)
futile_step cb (after now later result) o h f = (rw f (ground arith), refl)
futile_step cb reset_by_hand o h f = absurd f

wedged :
    (cb : CircuitBreaker) (es : List Event)
    → cb.state ≡ open_
    → cb.half_open_calls ≡ cb.half_open_max
    → All IsFutile es
    → (run cb es ≡ cb) × (let_through cb es ≡ 0)
unfolding run
wedged cb [] o h all = (refl, refl)
wedged cb (e ∷ es) o h (f, all) =
    let (same, shut) = futile_step cb e o h f in
    let (still, none_through) = wedged cb es o h all in
    (ap (λ c. run c es) same ∙ still, rw shut (ap (λ c. let_through c es) same ∙ none_through))

-- When each of the configured probes of an open breaker with no probe counted, one after the other
-- once its timeout has passed, ends with an error marked by ErrNoRetry, they stay counted and the
-- breaker stays open. However many calls start after that, and whenever, none is let through, as long
-- as there is no Reset and no older call ends except with such an error; and none of this changes the
-- breaker.
pub no_retry_wedges :
    (cb : CircuitBreaker) (ts : List (ℕ × ℕ × ℕ)) (es : List Event)
    → cb.state ≡ open_
    → cb.half_open_calls ≡ 0
    → length ts ≡ cb.half_open_max
    → All (λ t. cb.last_failure + cb.reset_timeout ≤ t.0) ts
    → All IsFutile es
    → let cb' = run cb (probes ts no_retry) in
      (cb' ≡ record cb { half_open_calls = cb.half_open_max })
      × (run cb' es ≡ cb')
      × (let_through cb' es ≡ 0)
no_retry_wedges cb ts es o c n all futile =
    let e = uses_up ts cb o all (omega arith) in
    let (same, shut) = wedged (record cb { half_open_calls = cb.half_open_max }) es o refl futile in
    (e, ap (λ c. run c es) e ∙ same ∙ sym e, ap (λ c. let_through c es) e ∙ shut)
