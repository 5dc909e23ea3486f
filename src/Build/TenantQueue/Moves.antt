-- ===== src/Build/TenantQueue/Moves.antt =====
-- What the tokens of the queue are, and that every move of a job keeps them so.
use text.Mathlib.TextEquality.{eq_iff}
use mathlib.Core.Path.{subst}
use deploy_monster.Prelude.{
  ℕ, ◌+◌, ◌-◌, ◌≤◌, ◌<◌, ◌≡◌, refl, true, ◌&&◌, List, Option, some, String, arith, ltb, get_elem?,
  inl, inr,
}
use deploy_monster.Prelude.Dict.{insert}
use deploy_monster.Prelude.Guards.{if_some, either_some}
use deploy_monster.Prelude.Find.{count_if}
use deploy_monster.Build.TenantQueue.{
  Phase, Submitted, Job, TenantQueue, tenant_in_flight, take_tenant, take_global, stop, cancel,
  finish, release_tenant, done, move, Move, takes_tenant, takes_global, stops, cancels, finishes,
  releases, ends, goto, at, give_up,
}
use deploy_monster.Prelude.Counting.{one_if, count_if-set}
use deploy_monster.Build.TenantQueue.Counting.{
  holds_global, holds_tenant, is_live, tokens, tokens-insert,
}

pub record Inv (q : TenantQueue) : Type 0 where
  pub global_cap_positive : 0 < q.global_cap
  pub per_tenant_positive : 0 < q.per_tenant
  pub global_held : q.global ≡ count_if holds_global q.jobs
  pub global_bounded : q.global ≤ q.global_cap
  pub tenant_held : (t : String) → tokens t q.tenants ≡ count_if (holds_tenant t) q.jobs
  pub tenant_bounded : (t : String) → tokens t q.tenants ≤ q.per_tenant
  pub live_counted : q.wg ≡ count_if is_live q.jobs

-- What the counts are when a job has gone on to a phase.
goto_counts :
    (q : TenantQueue) (i : ℕ) (j : Job) (p : Phase) (result : Option Submitted)
    → get_elem? q.jobs i ≡ some j
    → let j' : Job = record j { phase = p; result = result } in
      let jobs = goto q i j p result in
      (count_if holds_global jobs + one_if (holds_global j)
        ≡ count_if holds_global q.jobs + one_if (holds_global j'))
      × (count_if is_live jobs + one_if (is_live j) ≡ count_if is_live q.jobs + one_if (is_live j'))
      × ((t : String)
          → count_if (holds_tenant t) jobs + one_if (holds_tenant t j)
            ≡ count_if (holds_tenant t) q.jobs + one_if (holds_tenant t j'))
goto_counts q i j p result at_i =
    let j' : Job = record j { phase = p; result = result } in
    (
      count_if-set holds_global q.jobs i j j' at_i,
      count_if-set is_live q.jobs i j j' at_i,
      λ t. count_if-set (holds_tenant t) q.jobs i j j' at_i,
    )

-- The queue behind a move: a job at another phase, and the counters set.
abbrev moved :
    TenantQueue → ℕ → Job → Phase → Option Submitted → ℕ → List (String × ℕ) → ℕ → TenantQueue
moved q i j p result global tenants wg = record q {
  global = global;
  tenants = tenants;
  wg = wg;
  jobs = goto q i j p result;
}

-- A move keeps the invariant if it changes each counter by what the job takes or gives back.
moved-Inv :
    (q : TenantQueue) (i : ℕ) (j : Job) (p : Phase) (result : Option Submitted) (global : ℕ)
    (tenants : List (String × ℕ)) (wg : ℕ)
    → Inv q
    → get_elem? q.jobs i ≡ some j
    → let j' : Job = record j { phase = p; result = result } in
      (global + one_if (holds_global j) ≡ q.global + one_if (holds_global j'))
      → global ≤ q.global_cap
      → ((t : String)
          → tokens t tenants + one_if (holds_tenant t j)
            ≡ tokens t q.tenants + one_if (holds_tenant t j'))
      → ((t : String) → tokens t tenants ≤ q.per_tenant)
      → wg + one_if (is_live j) ≡ q.wg + one_if (is_live j')
      → Inv (moved q i j p result global tenants wg)
moved-Inv q i j p result global tenants wg inv at_i g g_bound ts t_bound w =
    let (globals, lives, holders) = goto_counts q i j p result at_i in
    let old_global = inv.global_held in
    let old_live = inv.live_counted in
    record {
      global_cap_positive = inv.global_cap_positive;
      per_tenant_positive = inv.per_tenant_positive;
      global_held = omega arith;
      global_bounded = g_bound;
      tenant_held = λ t.
          let change = ts t in
          let held = inv.tenant_held t in let holder = holders t in omega arith;
      tenant_bounded = t_bound;
      live_counted = omega arith;
    }

take_tenant-Inv :
    (q : TenantQueue) (i : ℕ) (j : Job)
    → Inv q
    → get_elem? q.jobs i ≡ some j
    → (at Phase.await_tenant j && ltb (tenant_in_flight q j.tenant) q.per_tenant) ≡ true
    → Inv (
        moved q i j Phase.await_global j.result q.global
          (insert j.tenant (tenant_in_flight q j.tenant + 1) q.tenants)
          q.wg)
unfolding tenant_in_flight
take_tenant-Inv q i j inv at_i h =
    moved-Inv q i j Phase.await_global j.result q.global _ q.wg inv at_i (ground arith)
      inv.global_bounded
      (λ t.
        let put = tokens-insert j.tenant t (tokens j.tenant q.tenants + 1) q.tenants in
        let same = eq_iff j.tenant t in ground arith)
      (λ t.
        let put = tokens-insert j.tenant t (tokens j.tenant q.tenants + 1) q.tenants in
        let bound = inv.tenant_bounded t in ground arith)
      (ground arith)

take_global-Inv :
    (q : TenantQueue) (i : ℕ) (j : Job)
    → Inv q
    → get_elem? q.jobs i ≡ some j
    → (at Phase.await_global j && ltb q.global q.global_cap) ≡ true
    → Inv (moved q i j Phase.running (some Submitted.scheduled) (q.global + 1) q.tenants q.wg)
take_global-Inv q i j inv at_i h =
    moved-Inv q i j Phase.running (some Submitted.scheduled) (q.global + 1) q.tenants q.wg inv at_i
      (ground arith) (ground arith) (λ t. ground arith) inv.tenant_bounded (ground arith)

-- A job that goes on without a token changing hands.
pass_on-Inv :
    (q : TenantQueue) (i : ℕ) (j : Job) (p : Phase) (result : Option Submitted)
    → Inv q
    → get_elem? q.jobs i ≡ some j
    → let j' : Job = record j { phase = p; result = result } in
      (holds_global j ≡ holds_global j')
      → ((t : String) → holds_tenant t j ≡ holds_tenant t j')
      → is_live j ≡ is_live j'
      → Inv (moved q i j p result q.global q.tenants q.wg)
pass_on-Inv q i j p result inv at_i g t w =
    moved-Inv q i j p result q.global q.tenants q.wg inv at_i (rw g refl) inv.global_bounded
      (λ tenant. rw (t tenant) refl) inv.tenant_bounded (rw w refl)

finish-Inv :
    (q : TenantQueue) (i : ℕ) (j : Job)
    → Inv q
    → get_elem? q.jobs i ≡ some j
    → at Phase.running j ≡ true
    → Inv (moved q i j Phase.leaving_tenant j.result (q.global - 1) q.tenants q.wg)
finish-Inv q i j inv at_i h =
    let (globals, lives, holders) = goto_counts q i j Phase.leaving_tenant j.result at_i in
    let held = inv.global_held in
    let bounded = inv.global_bounded in
    moved-Inv q i j Phase.leaving_tenant j.result (q.global - 1) q.tenants q.wg inv at_i
      (ground arith) (ground arith) (λ t. ground arith) inv.tenant_bounded (ground arith)

release_tenant-Inv :
    (q : TenantQueue) (i : ℕ) (j : Job)
    → Inv q
    → get_elem? q.jobs i ≡ some j
    → at Phase.leaving_tenant j ≡ true
    → Inv (
        moved q i j Phase.leaving j.result q.global
          (insert j.tenant (tenant_in_flight q j.tenant - 1) q.tenants)
          q.wg)
unfolding tenant_in_flight
release_tenant-Inv q i j inv at_i h =
    let (globals, lives, holders) = goto_counts q i j Phase.leaving j.result at_i in
    moved-Inv q i j Phase.leaving j.result q.global _ q.wg inv at_i (ground arith)
      inv.global_bounded
      (λ t.
        let put = tokens-insert j.tenant t (tokens j.tenant q.tenants - 1) q.tenants in
        let same = eq_iff j.tenant t in
        let held = inv.tenant_held t in let holder = holders t in ground arith)
      (λ t.
        let put = tokens-insert j.tenant t (tokens j.tenant q.tenants - 1) q.tenants in
        let same = eq_iff j.tenant t in let bound = inv.tenant_bounded t in ground arith)
      (ground arith)

done-Inv :
    (q : TenantQueue) (i : ℕ) (j : Job)
    → Inv q
    → get_elem? q.jobs i ≡ some j
    → at Phase.leaving j ≡ true
    → Inv (moved q i j Phase.gone j.result q.global q.tenants (q.wg - 1))
done-Inv q i j inv at_i h =
    let (globals, lives, holders) = goto_counts q i j Phase.gone j.result at_i in
    let held = inv.live_counted in
    moved-Inv q i j Phase.gone j.result q.global q.tenants (q.wg - 1) inv at_i (ground arith)
      inv.global_bounded (λ t. ground arith) inv.tenant_bounded (ground arith)

give_up-Inv :
    (q q' : TenantQueue) (i : ℕ) (j : Job) (why : Submitted)
    → Inv q
    → get_elem? q.jobs i ≡ some j
    → give_up q i j why ≡ some q'
    → Inv q'
give_up-Inv q q' i j why inv at_i h =
    elim (either_some (at Phase.await_tenant j) (at Phase.await_global j) h) [
      | inl (here, e) ↦ subst Inv e (
          pass_on-Inv q i j Phase.leaving (some why) inv at_i (ground arith) (λ t. ground arith)
            (ground arith))
      | inr (here, e) ↦ subst Inv e (
          pass_on-Inv q i j Phase.leaving_tenant (some why) inv at_i (ground arith)
            (λ t. ground arith) (ground arith))
    ]

pub move-Inv :
    (q q' : TenantQueue) (mv : Move) (i : ℕ) (j : Job)
    → Inv q
    → get_elem? q.jobs i ≡ some j
    → move q mv i j ≡ some q'
    → Inv q'
unfolding move take_tenant take_global stop cancel finish release_tenant done
move-Inv q q' takes_tenant i j inv at_i h =
    let (guard, e) = if_some _ h in subst Inv e (take_tenant-Inv q i j inv at_i guard)
move-Inv q q' takes_global i j inv at_i h =
    let (guard, e) = if_some _ h in subst Inv e (take_global-Inv q i j inv at_i guard)
move-Inv q q' stops i j inv at_i h =
    give_up-Inv q q' i j Submitted.queue_closed inv at_i (ground arith)
move-Inv q q' cancels i j inv at_i h = give_up-Inv q q' i j Submitted.canceled inv at_i h
move-Inv q q' finishes i j inv at_i h =
    let (guard, e) = if_some _ h in subst Inv e (finish-Inv q i j inv at_i guard)
move-Inv q q' releases i j inv at_i h =
    let (guard, e) = if_some _ h in subst Inv e (release_tenant-Inv q i j inv at_i guard)
move-Inv q q' ends i j inv at_i h =
    let (guard, e) = if_some _ h in subst Inv e (done-Inv q i j inv at_i guard)
