-- ===== src/Build/TenantQueue/Ending.antt =====
-- Every move takes a job further, so the moves that given jobs can make are bounded, and at their end
-- the queue is empty.
use deploy_monster.Prelude.{
  ℕ, zero, suc, ◌+◌, ◌-◌, ◌*◌, ◌≤◌, ◌<◌, ◌≡◌, refl, List, [], ◌∷◌, Option, none, some, arith,
  get_elem?, set, Option-cases, inl, inr, length, Bool-cases, map, ◌⊎◌, String, ◌==◌,
}
use deploy_monster.Build.TenantQueue.{
  Phase, Job, phase_index, TenantQueue, take_tenant, take_global, stop, cancel, finish,
  release_tenant, done, move, move_of, step, run, run_from, Action, moves, Move, takes_tenant,
  takes_global, stops, cancels, finishes, releases, ends, at, goto, give_up, Submitted,
  new_tenant_queue, global_in_flight, tenant_in_flight,
}
use deploy_monster.Prelude.Int.{ℤ}
use deploy_monster.Prelude.Find.{count_if}
use deploy_monster.Prelude.Counting.{count_if-le}
use deploy_monster.Build.TenantQueue.Counting.{holds_global, holds_tenant, is_live}
use deploy_monster.Build.TenantQueue.Moves.{Inv}
use deploy_monster.Build.TenantQueue.Limits.{run-Inv, new_tenant_queue-Inv}
use deploy_monster.Build.TenantQueue.Draining.{CanWork, busy-CanWork}

-- The phases that the jobs have before them.
unfoldable pub left : List Job → ℕ
left [] = 0
left (j ∷ js) = (5 - phase_index j.phase) + left js

left-set :
    (js : List Job) (i : ℕ) (j j' : Job)
    → get_elem? js i ≡ some j
    → phase_index j.phase < phase_index j'.phase
    → phase_index j'.phase ≤ 5
    → left (set js i j') < left js
unfolding left
left-set [] i j j' at_i further last = absurd (cc)
left-set (k ∷ js) zero j j' at_i further last = ground arith
left-set (k ∷ js) (suc i) j j' at_i further last =
    let ih = left-set js i j j' at_i further last in omega arith

-- The job of a move goes on to a later phase.
abbrev GoesOn : TenantQueue → TenantQueue → ℕ → Job → Type 0
GoesOn q q' i j =
    (p : Phase) × (r : Option Submitted) × (q'.jobs ≡ goto q i j p r)
    × (phase_index j.phase < phase_index p)
    × (phase_index p ≤ 5)

give_up-GoesOn :
    (q q' : TenantQueue) (i : ℕ) (j : Job) (why : Submitted)
    → give_up q i j why ≡ some q'
    → GoesOn q q' i j
give_up-GoesOn q q' i j why h = elim (Bool-cases (at Phase.await_tenant j)) [
  | inl first ↦ (Phase.leaving, some why, ground arith, ground arith, omega arith)
  | inr later ↦ (Phase.leaving_tenant, some why, ground arith, ground arith, omega arith)
]

move-GoesOn :
    (q q' : TenantQueue) (mv : Move) (i : ℕ) (j : Job) → move q mv i j ≡ some q' → GoesOn q q' i j
unfolding move take_tenant take_global stop cancel finish release_tenant done
move-GoesOn q q' takes_tenant i j h =
    (Phase.await_global, j.result, ground arith, ground arith, omega arith)
move-GoesOn q q' takes_global i j h =
    (Phase.running, some Submitted.scheduled, ground arith, ground arith, omega arith)
move-GoesOn q q' stops i j h = give_up-GoesOn q q' i j Submitted.queue_closed (ground arith)
move-GoesOn q q' cancels i j h = give_up-GoesOn q q' i j Submitted.canceled h
move-GoesOn q q' finishes i j h =
    (Phase.leaving_tenant, j.result, ground arith, ground arith, omega arith)
move-GoesOn q q' releases i j h = (Phase.leaving, j.result, ground arith, ground arith, omega arith)
move-GoesOn q q' ends i j h = (Phase.gone, j.result, ground arith, ground arith, omega arith)

-- A run of the moves alone.
abbrev pub all_moves : List (Move × ℕ) → List Action
all_moves ms = map (λ m. moves m.0 m.1) ms

move-left :
    (q q' : TenantQueue) (mv : Move) (i : ℕ) (o : Option Job)
    → get_elem? q.jobs i ≡ o
    → move_of q mv i o ≡ some q'
    → left q'.jobs < left q.jobs
unfolding move_of
move-left q q' mv i none at_i h = absurd (cc)
move-left q q' mv i (some j) at_i h =
    let (p, r, same, further, last) = move-GoesOn q q' mv i j h in
    rw same (left-set q.jobs i j (record j { phase = p; result = r }) at_i further last)

left_bound : (js : List Job) → left js ≤ 5 * length js
unfolding left
left_bound [] = omega arith
left_bound (j ∷ js) = let ih = left_bound js in omega arith

moves-left :
    (ms : List (Move × ℕ)) (q q' : TenantQueue)
    → run q (all_moves ms) ≡ some q'
    → length ms ≤ left q.jobs
unfolding run run_from step
moves-left [] q q' h = omega arith
moves-left ((mv, i) ∷ rest) q q' h = elim (Option-cases (move_of q mv i (get_elem? q.jobs i))) [
  | inl refused ↦ absurd (ground arith)
  | inr (mid, e) ↦
      let less = move-left q mid mv i (get_elem? q.jobs i) refl e in
      let ih = moves-left rest mid q' (ground arith) in omega arith
]

-- Every job has ended, and every token is given back.
abbrev pub IsDrained : TenantQueue → Type 0
IsDrained q =
    (count_if is_live q.jobs ≡ 0)
    × (q.wg ≡ 0)
    × (global_in_flight q ≡ 0)
    × ((t : String) → tenant_in_flight q t ≡ 0)

idle-IsDrained : (q : TenantQueue) → Inv q → q.wg ≡ 0 → IsDrained q
unfolding global_in_flight tenant_in_flight
idle-IsDrained q inv idle =
    let counted = inv.live_counted in
    let globals = count_if-le holds_global is_live q.jobs (λ j h. ground arith) in
    let held = inv.global_held in
    (
      omega arith,
      idle,
      omega arith,
      λ t.
          let mine = inv.tenant_held t in
          let holders = count_if-le (holds_tenant t) is_live q.jobs (λ j h. ground arith) in
          omega arith,
    )

-- From every state that is reached from a new queue, the jobs can make together at most five moves
-- for each job, in whatever order. While they make them, some job can go on without a canceled
-- context or Shutdown, until every job has ended and all tokens, the global ones and those of every
-- tenant, are given back. So without new submissions every run that goes on as long as it can
-- drains the queue.
pub moves_drain :
    (global_cap per_tenant : ℤ) (actions : List Action) (q : TenantQueue) (ms : List (Move × ℕ))
    (q' : TenantQueue)
    → run (new_tenant_queue global_cap per_tenant) actions ≡ some q
    → run q (all_moves ms) ≡ some q'
    → (length ms ≤ 5 * length q.jobs) × (CanWork q' ⊎ IsDrained q')
moves_drain global_cap per_tenant actions q ms q' reached h =
    let start = new_tenant_queue global_cap per_tenant in
    let inv = run-Inv actions start q (new_tenant_queue-Inv global_cap per_tenant) reached in
    let inv' = run-Inv (all_moves ms) q q' inv h in
    let most = moves-left ms q q' h in
    let bound = left_bound q.jobs in
    (
      omega arith,
      elim (Bool-cases (q'.wg == 0)) [
        | inl idle ↦ inr (idle-IsDrained q' inv' (ground arith))
        | inr busy ↦ inl (busy-CanWork q' inv' (ground arith))
      ],
    )
