-- ===== src/Build/TenantQueue/Limits.antt =====
-- The limits of the queue, in every interleaving.
use text.Mathlib.TextEquality.{eq_iff}
use mathlib.Core.Path.{subst}
use deploy_monster.Prelude.{
  ℕ, ◌+◌, ◌≤◌, ◌≡◌, refl, ◌∙◌, true, false, List, [], ◌∷◌, ◌++◌, some, String, arith, get_elem?,
  Option-cases, inl, inr,
}
use deploy_monster.Prelude.Int.{ℤ}
use deploy_monster.Prelude.Dict.{lookup}
use deploy_monster.Prelude.Find.{count_if}
use deploy_monster.Build.TenantQueue.{
  Submitted, Job, TenantQueue, new_tenant_queue, tenant_in_flight, submit, tenant_slot, shutdown,
  take_tenant, take_global, stop, cancel, finish, release_tenant, done, move, step, run, Action,
  submits, moves, shuts_down, Move, takes_tenant, takes_global, stops, cancels, finishes, releases,
  ends, give_up, at_least_one, move_of, run_from, global_in_flight,
}
use deploy_monster.Prelude.Counting.{one_if, count_if-add}
use deploy_monster.Build.TenantQueue.Counting.{
  holds_global, holds_tenant, is_live, tokens, tokens-insert,
}
use deploy_monster.Build.TenantQueue.Moves.{Inv, move-Inv}
use deploy_monster.Prelude.Guards.{if_some, either_way}

-- A job that Submit adds holds nothing yet.
added-Inv :
    (q : TenantQueue) (j : Job) (tenants : List (String × ℕ)) (wg : ℕ)
    → Inv q
    → holds_global j ≡ false
    → ((t : String) → holds_tenant t j ≡ false)
    → ((t : String) → tokens t tenants ≡ tokens t q.tenants)
    → wg ≡ q.wg + one_if (is_live j)
    → Inv (record q { tenants = tenants; wg = wg; jobs = q.jobs ++ (j ∷ []) })
added-Inv q j tenants wg inv no_global no_tenant same w =
    let globals = count_if-add holds_global q.jobs j in
    let lives = count_if-add is_live q.jobs j in
    let old_global = inv.global_held in
    let old_live = inv.live_counted in
    record {
      global_cap_positive = inv.global_cap_positive;
      per_tenant_positive = inv.per_tenant_positive;
      global_held = ground arith;
      global_bounded = inv.global_bounded;
      tenant_held = λ t.
          let held = inv.tenant_held t in
          let holders = count_if-add (holds_tenant t) q.jobs j in
          let none_held = no_tenant t in let kept = same t in ground arith;
      tenant_bounded = λ t. let bound = inv.tenant_bounded t in let kept = same t in ground arith;
      live_counted = ground arith;
    }

submit-Inv : (q : TenantQueue) (tenant : String) → Inv q → Inv (submit q tenant)
unfolding submit tenant_slot
submit-Inv q tenant inv =
    either_way Inv q.closed
      (added-Inv q _ q.tenants q.wg inv refl (λ t. ground arith) (λ t. refl) (ground arith))
      (added-Inv q _ _ (q.wg + 1) inv refl (λ t. ground arith)
        (λ t.
          let put = tokens-insert tenant t (tokens tenant q.tenants) q.tenants in
          let same = eq_iff tenant t in ground arith)
        (ground arith))

step-Inv : (q q' : TenantQueue) (a : Action) → Inv q → step q a ≡ some q' → Inv q'
unfolding step move_of shutdown
step-Inv q q' (submits tenant) inv h = subst Inv (if_some true h).1 (submit-Inv q tenant inv)
step-Inv q q' (moves mv i) inv h = elim (Option-cases (get_elem? q.jobs i)) [
  | inl missing ↦ absurd (ground arith)
  | inr (j, at_i) ↦ move-Inv q q' mv i j inv at_i (ground arith)
]
step-Inv q q' shuts_down inv h = subst Inv (if_some true h).1 (record {
  global_cap_positive = inv.global_cap_positive;
  per_tenant_positive = inv.per_tenant_positive;
  global_held = inv.global_held;
  global_bounded = inv.global_bounded;
  tenant_held = inv.tenant_held;
  tenant_bounded = inv.tenant_bounded;
  live_counted = inv.live_counted;
})

pub run-Inv :
    (actions : List Action) (q q' : TenantQueue) → Inv q → run q actions ≡ some q' → Inv q'
unfolding run run_from
run-Inv [] q q' inv h = subst Inv (if_some true h).1 inv
run-Inv (a ∷ rest) q q' inv h = elim (Option-cases (step q a)) [
  | inl refused ↦ absurd (ground arith)
  | inr (mid, e) ↦ run-Inv rest mid q' (step-Inv q mid a inv e) (ground arith)
]

pub new_tenant_queue-Inv : (g p : ℤ) → Inv (new_tenant_queue g p)
unfolding new_tenant_queue count_if lookup
new_tenant_queue-Inv g p = record {
  global_cap_positive = ground arith;
  per_tenant_positive = ground arith;
  global_held = refl;
  global_bounded = ground arith;
  tenant_held = λ t. refl;
  tenant_bounded = λ t. ground arith;
  live_counted = refl;
}

-- The limits themselves never change.
abbrev SameCaps : TenantQueue → TenantQueue → Type 0
SameCaps q q' = (q'.global_cap ≡ q.global_cap) × (q'.per_tenant ≡ q.per_tenant)

give_up-SameCaps :
    (q q' : TenantQueue) (i : ℕ) (j : Job) (why : Submitted)
    → give_up q i j why ≡ some q'
    → SameCaps q q'
give_up-SameCaps q q' i j why h = (ground arith, ground arith)

move-SameCaps :
    (q q' : TenantQueue) (mv : Move) (i : ℕ) (j : Job) → move q mv i j ≡ some q' → SameCaps q q'
unfolding move take_tenant take_global stop cancel finish release_tenant done
move-SameCaps q q' takes_tenant i j h = (ground arith, ground arith)
move-SameCaps q q' takes_global i j h = (ground arith, ground arith)
move-SameCaps q q' stops i j h = give_up-SameCaps q q' i j Submitted.queue_closed (ground arith)
move-SameCaps q q' cancels i j h = give_up-SameCaps q q' i j Submitted.canceled h
move-SameCaps q q' finishes i j h = (ground arith, ground arith)
move-SameCaps q q' releases i j h = (ground arith, ground arith)
move-SameCaps q q' ends i j h = (ground arith, ground arith)

step-SameCaps : (q q' : TenantQueue) (a : Action) → step q a ≡ some q' → SameCaps q q'
unfolding step move_of shutdown submit tenant_slot
step-SameCaps q q' (submits tenant) h = (ground arith, ground arith)
step-SameCaps q q' (moves mv i) h = elim (Option-cases (get_elem? q.jobs i)) [
  | inl missing ↦ absurd (ground arith)
  | inr (j, at_i) ↦ move-SameCaps q q' mv i j (ground arith)
]
step-SameCaps q q' shuts_down h = (ground arith, ground arith)

run-SameCaps :
    (actions : List Action) (q q' : TenantQueue) → run q actions ≡ some q' → SameCaps q q'
unfolding run run_from
run-SameCaps [] q q' h = (ground arith, ground arith)
run-SameCaps (a ∷ rest) q q' h = elim (Option-cases (step q a)) [
  | inl refused ↦ absurd (ground arith)
  | inr (mid, e) ↦
      let (g, p) = step-SameCaps q mid a e in
      let (g', p') = run-SameCaps rest mid q' (ground arith) in (g' ∙ g, p' ∙ p)
]

-- From a new queue and in every interleaving of submissions, moves of the jobs and Shutdown: no more
-- jobs run at a time than the global limit, and no more jobs of one tenant run or hold its slots
-- than the limit for a tenant; the tokens in the channels are those that jobs hold, and the
-- WaitGroup counts the jobs that have not ended.
pub run-new_tenant_queue-Inv :
    (global_cap per_tenant : ℤ) (actions : List Action) (q : TenantQueue)
    → run (new_tenant_queue global_cap per_tenant) actions ≡ some q
    → (count_if holds_global q.jobs ≤ at_least_one global_cap)
      × ((t : String) → count_if (holds_tenant t) q.jobs ≤ at_least_one per_tenant)
      × (global_in_flight q ≡ count_if holds_global q.jobs)
      × ((t : String) → tenant_in_flight q t ≡ count_if (holds_tenant t) q.jobs)
      × (q.wg ≡ count_if is_live q.jobs)
unfolding tenant_in_flight global_in_flight new_tenant_queue
run-new_tenant_queue-Inv global_cap per_tenant actions q h =
    let inv =
      run-Inv actions (new_tenant_queue global_cap per_tenant) q
        (new_tenant_queue-Inv global_cap per_tenant) h in
    let (same_global, same_tenant) =
      run-SameCaps actions (new_tenant_queue global_cap per_tenant) q h in
    let held = inv.global_held in
    let bounded = inv.global_bounded in
    (
      omega arith,
      λ t. let mine = inv.tenant_held t in let bound = inv.tenant_bounded t in omega arith,
      held,
      inv.tenant_held,
      inv.live_counted,
    )
