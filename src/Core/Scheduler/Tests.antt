-- ===== src/Core/Scheduler/Tests.antt =====
-- A job that is due at two ticks, and a stop.
use deploy_monster.Prelude.{
  ℕ, ◌≤◌, ◌≡◌, refl, true, false, List, [], ◌∷◌, Option, none, some, length,
}
use deploy_monster.Prelude.Int.{pos}
use deploy_monster.Prelude.Find.{count_if}
use deploy_monster.Prelude.Bytes.{bytes}
use deploy_monster.Core.Scheduler.{
  Clock, Scheduler, Dispatch, new_scheduler, parse_hhmm, Action, adds, adds_again, starts, stops,
  ticks, returns, leaves, run,
}
use deploy_monster.Core.Scheduler.Single.{runs, is_live, run-new_scheduler-IsSingle}

abbrev clock : Clock
clock = record {
  parse_duration = λ s. some (pos 5);
  atoi = λ s. some (pos 7);
  on_day = λ now h m. pos 0;
}

abbrev actions : List Action
actions =
    starts
    ∷ adds "a" "backup" (bytes "@every 5ns") false (pos 0)
    ∷ ticks (pos 4)
    ∷ ticks (pos 5)
    ∷ ticks (pos 9)
    ∷ returns 0 (pos 10)
    ∷ leaves 0
    ∷ ticks (pos 15)
    ∷ stops
    ∷ ticks (pos 30)
    ∷ []

abbrev ran : Option Scheduler → List Dispatch
ran none = []
ran (some s) = s.dispatches

two_runs :
    ran (run clock new_scheduler actions)
    ≡ record { place = 0; noted = true; over = true }
      ∷ record { place = 0; noted = false; over = false }
      ∷ []
unfolding run new_scheduler
two_runs = refl

seven : parse_hhmm clock (bytes "07:07") ≡ some 427
unfolding parse_hhmm
seven = refl

-- A job that is added again while it runs, under another ID, is not dispatched a second time.
two_names :
    ran (
      run clock new_scheduler (
        adds "a" "backup" (bytes "@every 5ns") false (pos 0)
        ∷ ticks (pos 5)
        ∷ adds_again "b" 0 (pos 6)
        ∷ ticks (pos 20)
        ∷ []))
    ≡ record { place = 0; noted = false; over = false } ∷ []
unfolding run new_scheduler
two_names = refl

-- The job is in its handler when Stop is called.
abbrev few : List Action
few = starts ∷ adds "a" "backup" (bytes "@every 5ns") false (pos 0) ∷ ticks (pos 5) ∷ stops ∷ []

abbrev stopped_busy : Scheduler
stopped_busy = record {
  objects =
      record {
        name = "backup";
        schedule = bytes "@every 5ns";
        last_run = pos 0;
        next_run = pos 5;
        running = true;
        enabled = true;
      }
      ∷ [];
  jobs = ("a", 0) ∷ [];
  dispatches = record { place = 0; noted = false; over = false } ∷ [];
  started = true;
  stopped = true;
  looping = true;
  wg = 2;
}

handler_under_way : run clock new_scheduler few ≡ some stopped_busy
unfolding run new_scheduler
handler_under_way = refl

run-new_scheduler-IsSingle_example :
    ((j : ℕ) → count_if (runs j) stopped_busy.dispatches ≤ 1)
    × (stopped_busy.wg ≡ 0
        → (stopped_busy.looping ≡ false) × (count_if is_live stopped_busy.dispatches ≡ 0))
    × (stopped_busy.stopped ≡ true
        → (more : List Action) (s' : Scheduler) → run clock stopped_busy more ≡ some s'
        → length s'.dispatches ≡ length stopped_busy.dispatches)
run-new_scheduler-IsSingle_example =
    run-new_scheduler-IsSingle clock few stopped_busy handler_under_way
