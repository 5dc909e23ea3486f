-- ===== src/Build/TenantQueue/Tests.antt =====
-- A queue with two slots and one for each tenant, under three builds of two tenants.
use deploy_monster.Prelude.{
  ℕ, ◌+◌, ◌*◌, ◌≤◌, ◌<◌, ◌≡◌, refl, Bool, true, List, [], ◌∷◌, ◌++◌, Option, none, some, String,
  arith, ◌⊎◌, length, if◌then◌else◌,
}
use deploy_monster.Prelude.Int.{pos}
use deploy_monster.Prelude.Find.{count_if}
use deploy_monster.Build.TenantQueue.{
  Phase, Submitted, Job, TenantQueue, new_tenant_queue, at_least_one, tenant_in_flight,
  global_in_flight, step, run, Action, submits, moves, shuts_down, Move, takes_tenant, takes_global,
  stops, finishes, releases, ends,
}
use deploy_monster.Build.TenantQueue.Counting.{holds_global, holds_tenant, is_live}
use deploy_monster.Build.TenantQueue.Limits.{run-new_tenant_queue-Inv}
use deploy_monster.Build.TenantQueue.Draining.{CanWork, never_blocks}
use deploy_monster.Build.TenantQueue.Ending.{all_moves, IsDrained, moves_drain}

abbrev empty_queue : TenantQueue
empty_queue = new_tenant_queue (pos 2) (pos 1)

abbrev busy : List Action
busy =
    submits "acme"
    ∷ submits "acme"
    ∷ submits "umbrella"
    ∷ moves takes_tenant 0
    ∷ moves takes_global 0
    ∷ moves takes_tenant 2
    ∷ moves takes_global 2
    ∷ []

abbrev job : String → Phase → Option Submitted → Job
job tenant phase result = record { tenant = tenant; phase = phase; result = result }

abbrev busy_queue : TenantQueue
busy_queue = record {
  global_cap = 2;
  per_tenant = 1;
  global = 2;
  tenants = ("acme", 1) ∷ ("umbrella", 1) ∷ [];
  closed = Bool.false;
  wg = 3;
  jobs =
      job "acme" Phase.running (some Submitted.scheduled)
      ∷ job "acme" Phase.await_tenant none
      ∷ job "umbrella" Phase.running (some Submitted.scheduled)
      ∷ [];
}

busy_reached : run empty_queue busy ≡ some busy_queue
unfolding run new_tenant_queue deploy_monster.Prelude.Dict.lookup deploy_monster.Prelude.Dict.insert
busy_reached = refl

-- The second build of acme waits although a job of umbrella got its slot after it.
second_waits : step busy_queue (moves takes_tenant 1) ≡ none
unfolding step deploy_monster.Prelude.Dict.lookup
second_waits = refl

run-new_tenant_queue-Inv_example :
    (count_if holds_global busy_queue.jobs ≤ at_least_one (pos 2))
    × ((t : String) → count_if (holds_tenant t) busy_queue.jobs ≤ at_least_one (pos 1))
    × (global_in_flight busy_queue ≡ count_if holds_global busy_queue.jobs)
    × ((t : String) → tenant_in_flight busy_queue t ≡ count_if (holds_tenant t) busy_queue.jobs)
    × (busy_queue.wg ≡ count_if is_live busy_queue.jobs)
run-new_tenant_queue-Inv_example =
    run-new_tenant_queue-Inv (pos 2) (pos 1) busy busy_queue busy_reached

never_blocks_example : CanWork busy_queue
never_blocks_example = never_blocks (pos 2) (pos 1) busy busy_queue busy_reached (omega arith)

abbrev ending : List (Move × ℕ)
ending =
    (finishes, 0)
    ∷ (releases, 0)
    ∷ (takes_tenant, 1)
    ∷ (ends, 0)
    ∷ (takes_global, 1)
    ∷ (finishes, 2)
    ∷ []

abbrev later_queue : TenantQueue
later_queue = record {
  global_cap = 2;
  per_tenant = 1;
  global = 1;
  tenants = ("acme", 1) ∷ ("umbrella", 1) ∷ [];
  closed = Bool.false;
  wg = 2;
  jobs =
      job "acme" Phase.gone (some Submitted.scheduled)
      ∷ job "acme" Phase.running (some Submitted.scheduled)
      ∷ job "umbrella" Phase.leaving_tenant (some Submitted.scheduled)
      ∷ [];
}

later_reached : run busy_queue (all_moves ending) ≡ some later_queue
unfolding run deploy_monster.Prelude.Dict.lookup deploy_monster.Prelude.Dict.insert
later_reached = refl

moves_drain_example :
    (length ending ≤ 5 * length busy_queue.jobs) × (CanWork later_queue ⊎ IsDrained later_queue)
moves_drain_example =
    moves_drain (pos 2) (pos 1) busy busy_queue ending later_queue busy_reached later_reached

-- After Shutdown a build that waits gives up, and no new one is taken.
after_shutdown :
    run busy_queue (shuts_down ∷ moves stops 1 ∷ submits "acme" ∷ [])
    ≡ some (record busy_queue {
      closed = true;
      jobs =
          job "acme" Phase.running (some Submitted.scheduled)
          ∷ job "acme" Phase.leaving (some Submitted.queue_closed)
          ∷ job "umbrella" Phase.running (some Submitted.scheduled)
          ∷ job "acme" Phase.gone (some Submitted.queue_closed)
          ∷ [];
    })
unfolding run
after_shutdown = refl
