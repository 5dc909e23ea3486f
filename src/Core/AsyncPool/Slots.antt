-- ===== src/Core/AsyncPool/Slots.antt =====
-- Which goroutines hold the tokens of the pool.
use mathlib.Core.Path.{subst}
use deploy_monster.Prelude.{
  ℕ, ◌+◌, ◌-◌, ◌≤◌, ◌≡◌, refl, Bool, true, false, ◌||◌, ◌&&◌, List, [], ◌∷◌, some, arith, ltb, leb,
  ◌==◌, get_elem?, Option-cases, inl, inr,
}
use deploy_monster.Prelude.Find.{count_if}
use deploy_monster.Prelude.Counting.{one_if, count_if-set, count_if-add}
use deploy_monster.Prelude.Guards.{if_some, either_some}
use deploy_monster.Core.AsyncPool.{
  Phase, running, leaving, leaving_again, gone, gone_again, retrying, backing_off, reacquiring,
  phase_index, AsyncPool, new_async_pool, dispatch, at, goto, returns, fails, panics, context_done,
  timer_fires, reacquire, retry_returns, retry_fails, done, Move, return, fail, panic, cancel, fire,
  retake, return_again, fail_again, end, Action, publishes, moves, move, move_of, step, run,
  run_from,
}

-- A goroutine in one of its tries.
abbrev pub works : Phase → Bool
works h = phase_index h == 0 || phase_index h == 3

-- A goroutine that has taken a token for a second try, whether it is over or not.
abbrev pub took_again : Phase → Bool
took_again h = phase_index h == 3 || (phase_index h == 4 || phase_index h == 6)

-- A goroutine whose token is in the channel.
abbrev pub holds : Phase → Bool
holds h = phase_index h == 0 || took_again h

abbrev pub is_live : Phase → Bool
is_live h = leb (phase_index h) 5

pub record Inv (n : ℕ) (q : AsyncPool) : Type 0 where
  pub same_cap : q.cap ≡ n
  pub held : q.tokens ≡ count_if holds q.handlers
  pub bounded : q.tokens ≤ q.cap
  pub live : q.wg ≡ count_if is_live q.handlers

abbrev moved : AsyncPool → ℕ → Phase → (tokens wg errors : ℕ) → AsyncPool
moved q i p tokens wg errors = record q {
  tokens = tokens;
  wg = wg;
  error_count = errors;
  handlers = goto q i p;
}

-- What a move has to show: the token and the count of the goroutine change with its phase.
moved-Inv :
    (n : ℕ) (q : AsyncPool) (i : ℕ) (h p : Phase) (tokens wg errors : ℕ)
    → Inv n q
    → get_elem? q.handlers i ≡ some h
    → tokens + one_if (holds h) ≡ q.tokens + one_if (holds p)
    → tokens ≤ q.cap
    → wg + one_if (is_live h) ≡ q.wg + one_if (is_live p)
    → Inv n (moved q i p tokens wg errors)
moved-Inv n q i h p tokens wg errors inv at_i t bound w =
    let holders = count_if-set holds q.handlers i h p at_i in
    let lives = count_if-set is_live q.handlers i h p at_i in
    let held = inv.held in
    let live = inv.live in
    record { same_cap = inv.same_cap; held = omega arith; bounded = bound; live = omega arith }

-- A move by which a token goes out of the channel.
gives_back-Inv :
    (n : ℕ) (q : AsyncPool) (i : ℕ) (h p : Phase) (errors : ℕ)
    → Inv n q
    → get_elem? q.handlers i ≡ some h
    → holds h ≡ true
    → holds p ≡ false
    → is_live h ≡ is_live p
    → Inv n (moved q i p (q.tokens - 1) q.wg errors)
gives_back-Inv n q i h p errors inv at_i out free same =
    let holders = count_if-set holds q.handlers i h p at_i in
    let held = inv.held in
    let bounded = inv.bounded in
    moved-Inv n q i h p (q.tokens - 1) q.wg errors inv at_i (ground arith) (omega arith)
      (rw same refl)

-- A move by which none does.
keeps-Inv :
    (n : ℕ) (q : AsyncPool) (i : ℕ) (h p : Phase) (errors : ℕ)
    → Inv n q
    → get_elem? q.handlers i ≡ some h
    → holds h ≡ holds p
    → is_live h ≡ is_live p
    → Inv n (moved q i p q.tokens q.wg errors)
keeps-Inv n q i h p errors inv at_i same live =
    moved-Inv n q i h p q.tokens q.wg errors inv at_i (rw same refl) inv.bounded (rw live refl)

reacquire-Inv :
    (n : ℕ) (q : AsyncPool) (i : ℕ) (h : Phase)
    → Inv n q
    → get_elem? q.handlers i ≡ some h
    → (at reacquiring h && ltb q.tokens q.cap) ≡ true
    → Inv n (moved q i retrying (q.tokens + 1) q.wg q.error_count)
reacquire-Inv n q i h inv at_i g =
    moved-Inv n q i h retrying (q.tokens + 1) q.wg q.error_count inv at_i (ground arith)
      (ground arith) (ground arith)

ends-Inv :
    (n : ℕ) (q : AsyncPool) (i : ℕ) (h p : Phase)
    → Inv n q
    → get_elem? q.handlers i ≡ some h
    → holds h ≡ holds p
    → is_live h ≡ true
    → is_live p ≡ false
    → Inv n (moved q i p q.tokens (q.wg - 1) q.error_count)
ends-Inv n q i h p inv at_i same before after =
    let lives = count_if-set is_live q.handlers i h p at_i in
    let live = inv.live in
    moved-Inv n q i h p q.tokens (q.wg - 1) q.error_count inv at_i (rw same refl) inv.bounded
      (ground arith)

done-Inv :
    (n : ℕ) (q q' : AsyncPool) (i : ℕ) (h : Phase)
    → Inv n q
    → get_elem? q.handlers i ≡ some h
    → done q i h ≡ some q'
    → Inv n q'
unfolding done
done-Inv n q q' i h inv at_i e = elim (either_some (at leaving h) (at leaving_again h) e) [
  | inl (g, same) ↦
      subst (Inv n) same (ends-Inv n q i h gone inv at_i (ground arith) (ground arith) refl)
  | inr (g, same) ↦
      subst (Inv n) same (ends-Inv n q i h gone_again inv at_i (ground arith) (ground arith) refl)
]

move-Inv :
    (n : ℕ) (q q' : AsyncPool) (mv : Move) (i : ℕ) (h : Phase)
    → Inv n q
    → get_elem? q.handlers i ≡ some h
    → move q mv i h ≡ some q'
    → Inv n q'
unfolding move returns fails panics context_done timer_fires reacquire retry_returns retry_fails
move-Inv n q q' return i h inv at_i e =
    let (g, same) = if_some _ e in
    subst (Inv n) same
      (gives_back-Inv n q i h leaving q.error_count inv at_i (ground arith) refl (ground arith))
move-Inv n q q' fail i h inv at_i e =
    let (g, same) = if_some _ e in
    subst (Inv n) same
      (gives_back-Inv n q i h backing_off q.error_count inv at_i (ground arith) refl (ground arith))
move-Inv n q q' panic i h inv at_i e =
    let (g, same) = if_some _ e in
    subst (Inv n) same (
      gives_back-Inv n q i h leaving (q.error_count + 1) inv at_i (ground arith) refl
        (ground arith))
move-Inv n q q' cancel i h inv at_i e =
    let (g, same) = if_some _ e in
    subst (Inv n) same
      (keeps-Inv n q i h leaving (q.error_count + 1) inv at_i (ground arith) (ground arith))
move-Inv n q q' fire i h inv at_i e =
    let (g, same) = if_some _ e in
    subst (Inv n) same
      (keeps-Inv n q i h reacquiring q.error_count inv at_i (ground arith) (ground arith))
move-Inv n q q' retake i h inv at_i e =
    let (g, same) = if_some _ e in subst (Inv n) same (reacquire-Inv n q i h inv at_i g)
move-Inv n q q' return_again i h inv at_i e =
    let (g, same) = if_some _ e in
    subst (Inv n) same
      (keeps-Inv n q i h leaving_again q.error_count inv at_i (ground arith) (ground arith))
move-Inv n q q' fail_again i h inv at_i e =
    let (g, same) = if_some _ e in
    subst (Inv n) same
      (keeps-Inv n q i h leaving_again (q.error_count + 1) inv at_i (ground arith) (ground arith))
move-Inv n q q' end i h inv at_i e = done-Inv n q q' i h inv at_i e

dispatch-Inv : (n : ℕ) (q q' : AsyncPool) → Inv n q → dispatch q ≡ some q' → Inv n q'
unfolding dispatch
dispatch-Inv n q q' inv e =
    let (g, same) = if_some _ e in
    let holders = count_if-add holds q.handlers running in
    let lives = count_if-add is_live q.handlers running in
    let held = inv.held in
    let live = inv.live in
    subst (Inv n) same (record {
      same_cap = inv.same_cap;
      held = omega arith;
      bounded = ground arith;
      live = omega arith;
    })

pub step-Inv : (n : ℕ) (q q' : AsyncPool) (a : Action) → Inv n q → step q a ≡ some q' → Inv n q'
unfolding step move_of
step-Inv n q q' publishes inv e = dispatch-Inv n q q' inv e
step-Inv n q q' (moves mv i) inv e = elim (Option-cases (get_elem? q.handlers i)) [
  | inl missing ↦ absurd (ground arith)
  | inr (h, at_i) ↦ move-Inv n q q' mv i h inv at_i (ground arith)
]

pub run-Inv :
    (n : ℕ) (actions : List Action) (q q' : AsyncPool)
    → Inv n q
    → run q actions ≡ some q'
    → Inv n q'
unfolding run run_from
run-Inv n [] q q' inv e = subst (Inv n) (if_some true e).1 inv
run-Inv n (a ∷ rest) q q' inv e = elim (Option-cases (step q a)) [
  | inl refused ↦ absurd (ground arith)
  | inr (mid, here) ↦ run-Inv n rest mid q' (step-Inv n q mid a inv here) (ground arith)
]

pub new_async_pool-Inv : (n : ℕ) → Inv n (new_async_pool n)
unfolding new_async_pool count_if
new_async_pool-Inv n = record { same_cap = refl; held = refl; bounded = omega arith; live = refl }
