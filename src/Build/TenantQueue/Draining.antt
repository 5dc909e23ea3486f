-- ===== src/Build/TenantQueue/Draining.antt =====
-- The queue never blocks for good: a job that has not ended, or one that it waits for, can go on, and
-- no job goes on for ever.
use deploy_monster.Prelude.{
  ℕ, ◌<◌, ◌≡◌, refl, Bool, true, false, ◌&&◌, List, none, some, arith, if◌then◌else◌, leb, ltb,
  get_elem?, Bool-cases, inl, inr,
}
use deploy_monster.Prelude.Int.{ℤ}
use deploy_monster.Build.TenantQueue.{
  Phase, Job, phase_index, TenantQueue, new_tenant_queue, tenant_in_flight, take_tenant,
  take_global, finish, release_tenant, done, move, move_of, step, run, Action, moves, Move,
  takes_tenant, takes_global, stops, cancels, finishes, releases, ends, at,
}
use deploy_monster.Prelude.Counting.{count_if-place}
use deploy_monster.Build.TenantQueue.Counting.{holds_global, holds_tenant, is_live, tokens}
use deploy_monster.Build.TenantQueue.Moves.{Inv}
use deploy_monster.Build.TenantQueue.Limits.{run-Inv, new_tenant_queue-Inv}

-- The moves that need neither a canceled context nor Shutdown.
unfoldable pub is_work : Move → Bool
is_work takes_tenant = true
is_work takes_global = true
is_work stops = false
is_work cancels = false
is_work finishes = true
is_work releases = true
is_work ends = true

-- A job can make such a move.
abbrev pub CanWork : TenantQueue → Type 0
CanWork q =
    (mv : Move) × (i : ℕ) × (q' : TenantQueue) × (is_work mv ≡ true)
    × (step q (moves mv i) ≡ some q')

works :
    (q q' : TenantQueue) (mv : Move) (i : ℕ) (j : Job)
    → get_elem? q.jobs i ≡ some j
    → is_work mv ≡ true
    → move q mv i j ≡ some q'
    → CanWork q
unfolding step move_of
works q q' mv i j at_i work e = (mv, i, q', work, rw at_i e)

guarded : {A : Type 0} (b : Bool) {x : A} → b ≡ true → (if b then some x else none) ≡ some x
guarded true h = refl
guarded false h = absurd (cc)

running_works :
    (q : TenantQueue) (i : ℕ) (j : Job)
    → get_elem? q.jobs i ≡ some j
    → holds_global j ≡ true
    → CanWork q
unfolding is_work move finish
running_works q i j at_i h = works q _ finishes i j at_i refl (guarded (at Phase.running j) h)

holder_works :
    (q : TenantQueue) (i : ℕ) (j : Job)
    → Inv q
    → get_elem? q.jobs i ≡ some j
    → (leb 1 (phase_index j.phase) && leb (phase_index j.phase) 3) ≡ true
    → CanWork q
unfolding is_work move take_global release_tenant
holder_works q i j inv at_i h = elim (Bool-cases (at Phase.await_global j)) [
  | inl waits ↦ elim (Bool-cases (ltb q.global q.global_cap)) [
    | inl free ↦
        works q _ takes_global i j at_i refl
          (guarded (at Phase.await_global j && ltb q.global q.global_cap) (rw (waits, free) refl))
    | inr full ↦
        let held = inv.global_held in
        let positive = inv.global_cap_positive in
        let (k, r, at_k, runs) = count_if-place holds_global q.jobs (ground arith) in
        running_works q k r at_k runs
  ]
  | inr elsewhere ↦ elim (Bool-cases (holds_global j)) [
    | inl runs ↦ running_works q i j at_i runs
    | inr idle ↦
        works q _ releases i j at_i refl (guarded (at Phase.leaving_tenant j) (ground arith))
  ]
]

live_works :
    (q : TenantQueue) (i : ℕ) (j : Job)
    → Inv q
    → get_elem? q.jobs i ≡ some j
    → is_live j ≡ true
    → CanWork q
unfolding is_work move take_tenant tenant_in_flight done
live_works q i j inv at_i h =
    elim (Bool-cases (leb 1 (phase_index j.phase) && leb (phase_index j.phase) 3)) [
      | inl holds ↦ holder_works q i j inv at_i holds
      | inr apart ↦ elim (Bool-cases (at Phase.leaving j)) [
        | inl last ↦ works q _ ends i j at_i refl (guarded (at Phase.leaving j) last)
        | inr first ↦ elim (Bool-cases (ltb (tokens j.tenant q.tenants) q.per_tenant)) [
          | inl free ↦ works q _ takes_tenant i j at_i refl (
              guarded (at Phase.await_tenant j && ltb (tokens j.tenant q.tenants) q.per_tenant)
                (ground arith))
          | inr full ↦
              let held = inv.tenant_held j.tenant in
              let positive = inv.per_tenant_positive in
              let (k, r, at_k, holds) =
                count_if-place (holds_tenant j.tenant) q.jobs (ground arith) in
              holder_works q k r inv at_k (ground arith)
        ]
      ]
    ]

pub busy-CanWork : (q : TenantQueue) → Inv q → 0 < q.wg → CanWork q
busy-CanWork q inv busy =
    let counted = inv.live_counted in
    let (i, j, at_i, live) = count_if-place is_live q.jobs (omega arith) in
    live_works q i j inv at_i live

-- In every state that is reached from a new queue: as long as a job has not ended, some job can go
-- on, and needs neither a canceled context nor Shutdown for it. Waiting for the global slot while
-- holding that of the tenant is no deadlock.
pub never_blocks :
    (global_cap per_tenant : ℤ) (actions : List Action) (q : TenantQueue)
    → run (new_tenant_queue global_cap per_tenant) actions ≡ some q
    → 0 < q.wg
    → CanWork q
never_blocks global_cap per_tenant actions q h busy =
    let start = new_tenant_queue global_cap per_tenant in
    busy-CanWork q (run-Inv actions start q (new_tenant_queue-Inv global_cap per_tenant) h) busy
