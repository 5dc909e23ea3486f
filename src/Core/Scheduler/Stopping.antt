-- ===== src/Core/Scheduler/Stopping.antt =====
-- What a scheduler still does after Stop.
use mathlib.Core.Path.{subst}
use deploy_monster.Prelude.{
  ℕ, ◌≡◌, refl, sym, ap, ◌∙◌, String, true, ◌||◌, List, [], ◌∷◌, Option, none, some, arith,
  get_elem?, length, length-set, Bool-cases, Option-cases, inl, inr,
}
use deploy_monster.Prelude.Int.{ℤ}
use deploy_monster.Prelude.Guards.{if_some, by_test}
use deploy_monster.Core.Scheduler.{
  Clock, CronJob, Dispatch, Scheduler, add, add_again, job_leaves, remove, start, stop, loop_ends,
  tick, ended, job_ends, Action, adds, adds_again, leaves, removes, starts, stops, loop_returns,
  ticks, returns, step, run, run_from,
}

-- Stop is for good, and nothing is dispatched behind it.
abbrev IsStill : Scheduler → Scheduler → Type 0
IsStill s s' = (s'.stopped ≡ true) × (length s'.dispatches ≡ length s.dispatches)

ended-Stopped :
    (clock : Clock) (s s' : Scheduler) (i : ℕ) (d : Dispatch) (now : ℤ) (found : Option CronJob)
    → s.stopped ≡ true
    → ended clock s i d now found ≡ some s'
    → IsStill s s'
unfolding ended
ended-Stopped clock s s' i d now none h e = absurd (cc)
ended-Stopped clock s s' i d now (some job) h e =
    subst (IsStill s) (if_some true e).1 (h, length-set s.dispatches i (record d { noted = true }))

job_leaves-Stopped :
    (s s' : Scheduler) (i : ℕ) (found : Option Dispatch)
    → s.stopped ≡ true
    → job_leaves s i found ≡ some s'
    → IsStill s s'
unfolding job_leaves
job_leaves-Stopped s s' i none h e = absurd (cc)
job_leaves-Stopped s s' i (some d) h e =
    subst (IsStill s) (if_some _ e).1 (h, length-set s.dispatches i (record d { over = true }))

add_again-Stopped :
    (clock : Clock) (s s' : Scheduler) (id : String) (place : ℕ) (now : ℤ) (found : Option CronJob)
    → s.stopped ≡ true
    → add_again clock s id place now found ≡ some s'
    → IsStill s s'
unfolding add_again
add_again-Stopped clock s s' id place now none h e = absurd (cc)
add_again-Stopped clock s s' id place now (some job) h e =
    subst (IsStill s) (if_some true e).1 (h, refl)

step-Stopped :
    (clock : Clock) (s s' : Scheduler) (a : Action)
    → s.stopped ≡ true
    → step clock s a ≡ some s'
    → IsStill s s'
unfolding step add remove start stop tick loop_ends job_ends
step-Stopped clock s s' (adds id name schedule running now) h e =
    subst (IsStill s) (if_some true e).1 (h, refl)
step-Stopped clock s s' (adds_again id place now) h e =
    add_again-Stopped clock s s' id place now (get_elem? s.objects place) h e
step-Stopped clock s s' (removes id) h e = subst (IsStill s) (if_some true e).1 (h, refl)
step-Stopped clock s s' starts h e =
    subst (IsStill s) (if_some true e).1
      (by_test (IsStill s) (s.started || s.stopped) (λ _. (h, refl)) (λ _. (h, refl)))
step-Stopped clock s s' stops h e = subst (IsStill s) (if_some true e).1 (refl, refl)
step-Stopped clock s s' loop_returns h e = subst (IsStill s) (if_some _ e).1 (h, refl)
step-Stopped clock s s' (ticks now) h e =
    subst (IsStill s) (if_some true e).1
      (by_test (IsStill s) s.stopped (λ _. (h, refl)) (λ no. absurd (cc)))
step-Stopped clock s s' (returns i now) h e = elim (Option-cases (get_elem? s.dispatches i)) [
  | inl missing ↦ absurd (ground arith)
  | inr (d, at_i) ↦ elim (Bool-cases (d.noted || d.over)) [
    | inl past ↦ absurd (ground arith)
    | inr live ↦ ended-Stopped clock s s' i d now (get_elem? s.objects d.place) h (ground arith)
  ]
]
step-Stopped clock s s' (leaves i) h e = job_leaves-Stopped s s' i (get_elem? s.dispatches i) h e

pub run-Stopped :
    (clock : Clock) (actions : List Action) (s s' : Scheduler)
    → s.stopped ≡ true
    → run clock s actions ≡ some s'
    → length s'.dispatches ≡ length s.dispatches
unfolding run run_from
run-Stopped clock [] s s' h e = ap (λ x. length x.dispatches) (sym (if_some true e).1)
run-Stopped clock (a ∷ rest) s s' h e = elim (Option-cases (step clock s a)) [
  | inl stuck ↦ absurd (ground arith)
  | inr (mid, here) ↦
      let (still, same) = step-Stopped clock s mid a h here in
      run-Stopped clock rest mid s' still (ground arith) ∙ same
]
