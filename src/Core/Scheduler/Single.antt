-- ===== src/Core/Scheduler/Single.antt =====
-- A job object never runs twice at a time, and the wait group is that of the loop and of the handlers
-- that run.
use mathlib.Core.Path.{subst}
use deploy_monster.Prelude.{
  ℕ, zero, suc, ◌+◌, ◌≤◌, ◌≡◌, refl, sym, ap, ◌∙◌, Bool, true, false, not, ◌&&◌, ◌||◌, List, [],
  ◌∷◌, ◌++◌, Option, none, some, String, arith, if◌then◌else◌, ◌==◌, get_elem?, set, length,
  Bool-cases, Option-cases, ==_iff, inl, inr,
}
use deploy_monster.Prelude.Int.{ℤ, ltb_ℤ}
use deploy_monster.Prelude.Bytes.{Bytes}
use deploy_monster.Prelude.Find.{count_if}
use deploy_monster.Prelude.Counting.{one_if, count_if-set, count_if-add, count_if-at}
use deploy_monster.Prelude.Guards.{if_some, by_test}
use deploy_monster.Core.Scheduler.{
  Clock, CronJob, Dispatch, Scheduler, new_scheduler, add, add_again, remove, start, stop,
  loop_ends, dispatch_found, dispatch_due, tick, ended, job_ends, job_leaves, Action, adds,
  adds_again, removes, starts, stops, loop_returns, ticks, returns, leaves, step, run, run_from,
}
use deploy_monster.Core.Scheduler.Stopping.{run-Stopped}

-- A goroutine in the handler of the job at place `j`, and any that is not over.
abbrev pub runs : ℕ → Dispatch → Bool
runs j d = d.place == j && (not d.noted && not d.over)

abbrev pub is_live : Dispatch → Bool
is_live d = not d.over

abbrev pub is_running : Option CronJob → Bool
is_running none = false
is_running (some job) = job.running

running-set :
    (objects : List CronJob) (i j : ℕ) (old new : CronJob)
    → get_elem? objects i ≡ some old
    → is_running (get_elem? (set objects i new) j)
      ≡ (if i == j then new.running else is_running (get_elem? objects j))
running-set [] i j old new h = absurd (cc)
running-set (x ∷ xs) zero zero old new h = ground arith
running-set (x ∷ xs) zero (suc j) old new h = ground arith
running-set (x ∷ xs) (suc i) zero old new h = ground arith
running-set (x ∷ xs) (suc i) (suc j) old new h = running-set xs i j old new h ∙ ground arith

running-add :
    (objects : List CronJob) (j : ℕ) (new : CronJob)
    → one_if (is_running (get_elem? objects j))
      ≤ one_if (is_running (get_elem? (objects ++ (new ∷ [])) j))
running-add [] zero new = omega arith
running-add [] (suc j) new = omega arith
running-add (x ∷ xs) zero new = omega arith
running-add (x ∷ xs) (suc j) new = running-add xs j new

running_at :
    (objects : List CronJob) (i j : ℕ) (job : CronJob)
    → (i == j) ≡ true
    → get_elem? objects i ≡ some job
    → is_running (get_elem? objects j) ≡ job.running
running_at objects i j job same h =
    ap is_running (subst (λ x. get_elem? objects x ≡ some job) ((==_iff i j).0 same) h)

pub record Inv (s : Scheduler) : Type 0 where
  pub single :
      (j : ℕ) → count_if (runs j) s.dispatches ≤ one_if (is_running (get_elem? s.objects j))
  pub waited : s.wg ≡ one_if s.looping + count_if is_live s.dispatches
  pub once : s.looping ≡ true → s.started ≡ true

added_single :
    (s : Scheduler) (new : CronJob)
    → Inv s
    → (j : ℕ)
    → count_if (runs j) s.dispatches ≤ one_if (is_running (get_elem? (s.objects ++ (new ∷ [])) j))
added_single s new v j =
    let before = v.single j in let after = running-add s.objects j new in omega arith

-- Another job at a place, with the flag of the one before.
kept_single :
    (s : Scheduler) (place : ℕ) (job new : CronJob)
    → get_elem? s.objects place ≡ some job
    → new.running ≡ job.running
    → Inv s
    → (j : ℕ)
    → count_if (runs j) s.dispatches ≤ one_if (is_running (get_elem? (set s.objects place new) j))
kept_single s place job new at_place kept v j =
    let before = v.single j in
    let after = running-set s.objects place j job new at_place in
    elim (Bool-cases (place == j)) [
      | inl mine ↦ let was = running_at s.objects place j job mine at_place in ground arith
      | inr other ↦ ground arith
    ]

add-Inv :
    (clock : Clock) (s : Scheduler) (id name : String) (schedule : Bytes) (running : Bool) (now : ℤ)
    → Inv s
    → Inv (add clock s id name schedule running now)
unfolding add
add-Inv clock s id name schedule running now v = record {
  single = added_single s _ v;
  waited = v.waited;
  once = v.once;
}

add_again-Inv :
    (clock : Clock) (s s' : Scheduler) (id : String) (place : ℕ) (now : ℤ) (found : Option CronJob)
    → get_elem? s.objects place ≡ found
    → add_again clock s id place now found ≡ some s'
    → Inv s
    → Inv s'
unfolding add_again
add_again-Inv clock s s' id place now none at_place e v = absurd (cc)
add_again-Inv clock s s' id place now (some job) at_place e v =
    let (_, same) = if_some true e in
    subst Inv same (record {
      single = kept_single s place job _ at_place refl v;
      waited = v.waited;
      once = v.once;
    })

dispatch_found-Inv :
    (now : ℤ) (place : ℕ) (s : Scheduler) (found : Option CronJob)
    → get_elem? s.objects place ≡ found
    → Inv s
    → Inv (dispatch_found now place s found)
unfolding dispatch_found
dispatch_found-Inv now place s none at_place v = v
dispatch_found-Inv now place s (some job) at_place v =
    by_test Inv (not job.enabled || (job.running || ltb_ℤ now job.next_run)) (λ waits. v)
      (λ due.
        let new : Dispatch = record { place = place; noted = false; over = false } in
        let idle : job.running ≡ false = ground arith in
        record {
          single = λ j.
              let counted = count_if-add (runs j) s.dispatches new in
              let before = v.single j in
              let after =
                running-set s.objects place j job (record job { running = true }) at_place in
              elim (Bool-cases (place == j)) [
                | inl mine ↦
                    let was = running_at s.objects place j job mine at_place in ground arith
                | inr other ↦ ground arith
              ];
          waited =
              let counted = count_if-add is_live s.dispatches new in
              let waited = v.waited in omega arith;
          once = v.once;
        })

dispatch_due-Inv :
    (now : ℤ) (jobs : List (String × ℕ)) (s : Scheduler) → Inv s → Inv (dispatch_due now jobs s)
unfolding dispatch_due
dispatch_due-Inv now [] s v = v
dispatch_due-Inv now ((id, place) ∷ jobs) s v =
    dispatch_due-Inv now jobs _ (dispatch_found-Inv now place s (get_elem? s.objects place) refl v)

start-Inv : (s : Scheduler) → Inv s → Inv (start s)
unfolding start
start-Inv s v =
    by_test Inv (s.started || s.stopped) (λ _. v)
      (λ first.
        let waited = v.waited in
        let once = v.once in record { single = v.single; waited = ground arith; once = λ _. refl })

ended_single :
    (s : Scheduler) (i : ℕ) (d : Dispatch) (job new : CronJob)
    → get_elem? s.dispatches i ≡ some d
    → (d.noted || d.over) ≡ false
    → get_elem? s.objects d.place ≡ some job
    → new.running ≡ false
    → Inv s
    → (j : ℕ)
    → count_if (runs j) (set s.dispatches i (record d { noted = true }))
      ≤ one_if (is_running (get_elem? (set s.objects d.place new) j))
ended_single s i d job new at_i live at_place idle v j =
    let counted = count_if-set (runs j) s.dispatches i d (record d { noted = true }) at_i in
    let there = count_if-at (runs j) s.dispatches i d at_i in
    let before = v.single j in
    let after = running-set s.objects d.place j job new at_place in
    elim (Bool-cases (d.place == j)) [ inl mine ↦ ground arith | inr other ↦ ground arith ]

ended-Inv :
    (clock : Clock) (s s' : Scheduler) (i : ℕ) (d : Dispatch) (now : ℤ) (found : Option CronJob)
    → get_elem? s.dispatches i ≡ some d
    → (d.noted || d.over) ≡ false
    → get_elem? s.objects d.place ≡ found
    → ended clock s i d now found ≡ some s'
    → Inv s
    → Inv s'
unfolding ended
ended-Inv clock s s' i d now none at_i live at_place e v = absurd (cc)
ended-Inv clock s s' i d now (some job) at_i live at_place e v =
    let (_, same) = if_some true e in
    subst Inv same (record {
      single = ended_single s i d job _ at_i live at_place refl v;
      waited =
          let counted = count_if-set is_live s.dispatches i d (record d { noted = true }) at_i in
          let waited = v.waited in ground arith;
      once = v.once;
    })

job_leaves-Inv :
    (s s' : Scheduler) (i : ℕ) (d : Dispatch)
    → get_elem? s.dispatches i ≡ some d
    → job_leaves s i (some d) ≡ some s'
    → Inv s
    → Inv s'
unfolding job_leaves
job_leaves-Inv s s' i d at_i e v =
    let (here, same) = if_some _ e in
    subst Inv same (record {
      single = λ j.
          let counted = count_if-set (runs j) s.dispatches i d (record d { over = true }) at_i in
          let before = v.single j in ground arith;
      waited =
          let counted = count_if-set is_live s.dispatches i d (record d { over = true }) at_i in
          let there = count_if-at is_live s.dispatches i d at_i in
          let waited = v.waited in ground arith;
      once = v.once;
    })

step-Inv :
    (clock : Clock) (s s' : Scheduler) (a : Action) → step clock s a ≡ some s' → Inv s → Inv s'
unfolding step remove stop tick loop_ends job_ends job_leaves
step-Inv clock s s' (adds id name schedule running now) e v =
    subst Inv (if_some true e).1 (add-Inv clock s id name schedule running now v)
step-Inv clock s s' (adds_again id place now) e v =
    add_again-Inv clock s s' id place now (get_elem? s.objects place) refl e v
step-Inv clock s s' (removes id) e v =
    subst Inv (if_some true e).1 (record { single = v.single; waited = v.waited; once = v.once })
step-Inv clock s s' starts e v = subst Inv (if_some true e).1 (start-Inv s v)
step-Inv clock s s' stops e v =
    subst Inv (if_some true e).1 (record { single = v.single; waited = v.waited; once = v.once })
step-Inv clock s s' loop_returns e v =
    let (here, same) = if_some _ e in
    let waited = v.waited in
    subst Inv same (record { single = v.single; waited = ground arith; once = λ h. absurd (cc) })
step-Inv clock s s' (ticks now) e v =
    subst Inv (if_some true e).1
      (by_test Inv s.stopped (λ _. v) (λ _. dispatch_due-Inv now s.jobs s v))
step-Inv clock s s' (returns i now) e v = elim (Option-cases (get_elem? s.dispatches i)) [
  | inl missing ↦ absurd (ground arith)
  | inr (d, at_i) ↦ elim (Bool-cases (d.noted || d.over)) [
    | inl past ↦ absurd (ground arith)
    | inr live ↦
        ended-Inv clock s s' i d now (get_elem? s.objects d.place) at_i live refl (ground arith) v
  ]
]
step-Inv clock s s' (leaves i) e v = elim (Option-cases (get_elem? s.dispatches i)) [
  | inl missing ↦ absurd (ground arith)
  | inr (d, at_i) ↦ job_leaves-Inv s s' i d at_i (ap (job_leaves s i) (sym at_i) ∙ e) v
]

run-Inv :
    (clock : Clock) (actions : List Action) (s s' : Scheduler)
    → run clock s actions ≡ some s'
    → Inv s
    → Inv s'
unfolding run run_from
run-Inv clock [] s s' e v = subst Inv (if_some true e).1 v
run-Inv clock (a ∷ rest) s s' e v = elim (Option-cases (step clock s a)) [
  | inl stuck ↦ absurd (ground arith)
  | inr (mid, here) ↦ run-Inv clock rest mid s' (ground arith) (step-Inv clock s mid a here v)
]

-- After any interleaving of additions, removals, ticks, ends of handlers, Start and Stop from a new
-- scheduler: each job object is in at most one running handler; when the wait group is at zero, where
-- Stop returns, neither the loop nor a handler runs; and once it is stopped, no further handler is
-- dispatched, whatever is done with it.
pub run-new_scheduler-IsSingle :
    (clock : Clock) (actions : List Action) (s : Scheduler)
    → run clock new_scheduler actions ≡ some s
    → ((j : ℕ) → count_if (runs j) s.dispatches ≤ 1)
      × (s.wg ≡ 0 → (s.looping ≡ false) × (count_if is_live s.dispatches ≡ 0))
      × (s.stopped ≡ true
          → (more : List Action) (s' : Scheduler) → run clock s more ≡ some s'
          → length s'.dispatches ≡ length s.dispatches)
unfolding new_scheduler count_if
run-new_scheduler-IsSingle clock actions s e =
    let v =
      run-Inv clock actions new_scheduler s e
        (record { single = λ j. omega arith; waited = refl; once = λ h. absurd (cc) }) in
    let waited = v.waited in
    (
      λ j. let same = v.single j in ground arith,
      λ h. (ground arith, ground arith),
      λ h more s' e'. run-Stopped clock more s s' h e',
    )
