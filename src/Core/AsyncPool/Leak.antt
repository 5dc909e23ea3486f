-- ===== src/Core/AsyncPool/Leak.antt =====
-- A second try never gives its token back.
use deploy_monster.Prelude.{
  ℕ, ◌+◌, ◌≤◌, ◌≡◌, Bool, true, not, ◌&&◌, List, [], ◌∷◌, ◌++◌, none, some, arith, get_elem?,
  Option-cases, Bool-cases, inl, inr,
}
use deploy_monster.Prelude.Find.{count_if}
use deploy_monster.Prelude.Counting.{one_if, count_if-set, count_if-add}
use deploy_monster.Core.AsyncPool.{
  Phase, running, leaving, leaving_again, gone, gone_again, retrying, backing_off, reacquiring,
  AsyncPool, new_async_pool, dispatch, at, goto, returns, fails, panics, context_done, timer_fires,
  reacquire, retry_returns, retry_fails, done, Move, return, fail, panic, cancel, fire, retake,
  return_again, fail_again, end, Action, publishes, moves, move, move_of, step, run, run_from,
}
use deploy_monster.Core.AsyncPool.Slots.{
  works, took_again, holds, is_live, run-Inv, new_async_pool-Inv,
}

-- The second tries so far.
abbrev pub second_tries : AsyncPool → ℕ
second_tries q = count_if took_again q.handlers

module _ {ℓ} {A : Type ℓ} (p r : A → Bool) where
  count_if-le : ((x : A) → p x ≡ true → r x ≡ true) → (xs : List A) → count_if p xs ≤ count_if r xs
  unfolding count_if
  count_if-le sub [] = omega arith
  count_if-le sub (x ∷ xs) = ground (arith, count_if-le sub xs, sub x)

-- A goroutine goes on to a phase at which its second try is not forgotten.
abbrev Remembers : AsyncPool → AsyncPool → ℕ → Phase → Type 0
Remembers q q' i h =
    (p : Phase) × (q'.handlers ≡ goto q i p) × (one_if (took_again h) ≤ one_if (took_again p))

done-Remembers : (q q' : AsyncPool) (i : ℕ) (h : Phase) → done q i h ≡ some q' → Remembers q q' i h
unfolding done
done-Remembers q q' i h e = elim (Bool-cases (at leaving h)) [
  | inl here ↦ (gone, ground arith, ground arith)
  | inr other ↦ (gone_again, ground arith, ground arith)
]

move-Remembers :
    (q q' : AsyncPool) (mv : Move) (i : ℕ) (h : Phase)
    → move q mv i h ≡ some q'
    → Remembers q q' i h
unfolding move returns fails panics context_done timer_fires reacquire retry_returns retry_fails
move-Remembers q q' return i h e = (leaving, ground arith, ground arith)
move-Remembers q q' fail i h e = (backing_off, ground arith, ground arith)
move-Remembers q q' panic i h e = (leaving, ground arith, ground arith)
move-Remembers q q' cancel i h e = (leaving, ground arith, ground arith)
move-Remembers q q' fire i h e = (reacquiring, ground arith, ground arith)
move-Remembers q q' retake i h e = (retrying, ground arith, ground arith)
move-Remembers q q' return_again i h e = (leaving_again, ground arith, ground arith)
move-Remembers q q' fail_again i h e = (leaving_again, ground arith, ground arith)
move-Remembers q q' end i h e = done-Remembers q q' i h e

step-le : (q q' : AsyncPool) (a : Action) → step q a ≡ some q' → second_tries q ≤ second_tries q'
unfolding step move_of dispatch
step-le q q' publishes e =
    let added = count_if-add took_again q.handlers running in
    let same : q'.handlers ≡ q.handlers ++ (running ∷ []) = ground arith in rw same (omega arith)
step-le q q' (moves mv i) e = elim (Option-cases (get_elem? q.handlers i)) [
  | inl missing ↦ absurd (ground arith)
  | inr (h, at_i) ↦
      let (p, same, kept) = move-Remembers q q' mv i h (ground arith) in
      let counts = count_if-set took_again q.handlers i h p at_i in rw same (omega arith)
]

run-le :
    (actions : List Action) (q q' : AsyncPool)
    → run q actions ≡ some q'
    → second_tries q ≤ second_tries q'
unfolding run run_from
run-le [] q q' e = let same : q ≡ q' = ground arith in rw same (omega arith)
run-le (a ∷ rest) q q' e = elim (Option-cases (step q a)) [
  | inl refused ↦ absurd (ground arith)
  | inr (mid, here) ↦
      let first = step-le q mid a here in
      let later = run-le rest mid q' (ground arith) in omega arith
]

held_parts :
    (hs : List Phase)
    → count_if holds hs ≡ count_if works hs + count_if (λ h. took_again h && not (works h)) hs
unfolding count_if
held_parts [] = omega arith
held_parts (h ∷ hs) = let ih = held_parts hs in ground arith

-- In every interleaving: the tokens in the channel are those of the goroutines that are in a try and
-- one for every second try that is over; there are never more than the size of the channel, and
-- the WaitGroup counts the goroutines that have not ended.
pub run-new_async_pool-Inv :
    (size : ℕ) (actions : List Action) (q : AsyncPool)
    → run (new_async_pool size) actions ≡ some q
    → (q.tokens
        ≡ count_if works q.handlers + count_if (λ h. took_again h && not (works h)) q.handlers)
      × (q.tokens ≤ size)
      × (q.wg ≡ count_if is_live q.handlers)
run-new_async_pool-Inv size actions q e =
    let inv = run-Inv size actions (new_async_pool size) q (new_async_pool-Inv size) e in
    let held = inv.held in
    let bounded = inv.bounded in
    let cap = inv.same_cap in
    let parts = held_parts q.handlers in (omega arith, omega arith, inv.live)

-- Once as many second tries have begun as the channel has places, in whatever interleaving, no
-- publisher ever gets past an asynchronous subscription again: each of those tries keeps its token
-- after its end, so the channel is full for good.
pub leak_blocks :
    (size : ℕ) (before later : List Action) (q q' : AsyncPool)
    → run (new_async_pool size) before ≡ some q
    → size ≤ second_tries q
    → run q later ≡ some q'
    → dispatch q' ≡ none
unfolding dispatch
leak_blocks size before later q q' e full e' =
    let inv = run-Inv size before (new_async_pool size) q (new_async_pool-Inv size) e in
    let inv' = run-Inv size later q q' inv e' in
    let more = run-le later q q' e' in
    let least = count_if-le took_again holds (λ h t. ground arith) q'.handlers in
    let held = inv'.held in let cap = inv'.same_cap in ground arith
