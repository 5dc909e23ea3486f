-- ===== src/Core/Scheduler.antt =====
-- internal/core/scheduler.go: recurring jobs. A job is an object, whose place is a number; a goroutine
-- of runJob keeps the place of its job, whatever becomes of the table. What a mutex guards is one step,
-- and a run is any interleaving of steps. Times and durations are nanoseconds; the functions of
-- package time, strconv.Atoi and the day of a moment are parameters.
pub mod Stopping
pub mod Single
mod Tests
use deploy_monster.Prelude.{
  ℕ, ◌+◌, ◌-◌, ◌*◌, ◌/◌, ◌%◌, Bool, true, false, not, ◌&&◌, ◌||◌, List, [], ◌∷◌, ◌++◌, Option, none,
  some, String, if◌then◌else◌, ◌==◌, get_elem?, set, length, drop,
}
use deploy_monster.Prelude.Int.{ℤ, pos, ◌+ℤ◌, pos_part, ltb_ℤ}
use deploy_monster.Prelude.Bytes.{Bytes, bytes, has_prefix, contains, trim_space}
use deploy_monster.Prelude.Dict.{lookup, insert, delete}

-- time.ParseDuration, strconv.Atoi, and the moment of an hour and a minute on the day of a moment.
pub record Clock : Type 0 where
  pub parse_duration : Bytes → Option ℤ
  pub atoi : Bytes → Option ℤ
  pub on_day : ℤ → (hour minute : ℕ) → ℤ

pub record CronJob : Type 0 where
  pub name : String
  pub schedule : Bytes
  pub last_run : ℤ
  pub next_run : ℤ
  pub running : Bool
  pub enabled : Bool

-- A goroutine of runJob, with the place of its job: in the handler, behind the deferred update of the
-- job, which it has then noted, or behind `wg.Done()`, over.
pub record Dispatch : Type 0 where
  pub place : ℕ
  pub noted : Bool
  pub over : Bool

-- `objects` are the jobs that were ever added; `wg` counts the loop and the handlers.
pub record Scheduler : Type 0 where
  pub objects : List CronJob
  pub jobs : List (String × ℕ)
  pub dispatches : List Dispatch
  pub started : Bool
  pub stopped : Bool
  pub looping : Bool
  pub wg : ℕ

unfoldable pub new_scheduler : Scheduler
new_scheduler = record {
  objects = [];
  jobs = [];
  dispatches = [];
  started = false;
  stopped = false;
  looping = false;
  wg = 0;
}

-- The text before the first `:` and the one behind it.
cut_more : ℕ → Option (Bytes × Bytes) → Option (Bytes × Bytes)
cut_more c none = none
cut_more c (some (front, back)) = some (c ∷ front, back)

cut_colon : Bytes → Option (Bytes × Bytes)
unfolding cut_more
cut_colon [] = none
cut_colon (c ∷ s) = let later = cut_colon s in if c == b':' then some ([], s) else cut_more c later

-- Whether `0 <= n` and `n <= most`.
abbrev within : ℤ → ℤ → Bool
within most n = not (ltb_ℤ n (pos 0)) && not (ltb_ℤ most n)

minutes_of : Option ℤ → Option ℤ → Option ℕ
minutes_of none m = none
minutes_of (some h) none = none
minutes_of (some h) (some m) =
    if within (pos 23) h && within (pos 59) m then some (pos_part h * 60 + pos_part m) else none

module _ (clock : Clock) where
  parts_of : Option (Bytes × Bytes) → Option ℕ
  unfolding minutes_of trim_space
  parts_of none = none
  parts_of (some (front, back)) =
      minutes_of (clock.atoi (trim_space front)) (clock.atoi (trim_space back))

  -- parseHHMM; none stands for the error.
  unfoldable pub parse_hhmm : Bytes → Option ℕ
  unfolding parts_of cut_colon
  parse_hhmm s = parts_of (cut_colon s)

  abbrev hour : ℤ
  hour = pos (60 * 60 * 1000000000)

  interval_from : ℤ → Option ℤ → ℤ
  unfolding ◌+ℤ◌
  interval_from now none = now +ℤ hour
  interval_from now (some duration) = now +ℤ duration

  day_from : ℤ → Option ℕ → ℤ
  unfolding ◌+ℤ◌
  day_from now none = now +ℤ hour
  day_from now (some total) =
      let next = clock.on_day now (total / 60) (total % 60) in
      if ltb_ℤ now next then next else next +ℤ pos (24 * 60 * 60 * 1000000000)

  -- calcNextRun
  unfoldable pub calc_next_run : ℤ → Bytes → ℤ
  unfolding interval_from day_from parse_hhmm has_prefix contains trim_space
  calc_next_run now schedule =
      if has_prefix schedule (bytes "@every ")
      then interval_from now (clock.parse_duration (trim_space (drop 7 schedule)))
      else if contains schedule (bytes ":")
      then day_from now (parse_hhmm schedule)
      else now +ℤ hour

  -- Add of a job that was not added before, with the flag Running that its caller has set.
  unfoldable pub add : Scheduler → String → String → Bytes → Bool → ℤ → Scheduler
  unfolding insert calc_next_run
  add s id name schedule running now = record s {
    objects =
        s.objects
        ++ (record {
          name = name;
          schedule = schedule;
          last_run = pos 0;
          next_run = calc_next_run now schedule;
          running = running;
          enabled = true;
        }
            ∷ []);
    jobs = insert id (length s.objects) s.jobs;
  }

module _ (clock : Clock) where
  -- Add of a job that was added before, with any ID: the same object, and what its flag is now.
  unfoldable pub add_again : Scheduler → String → ℕ → ℤ → Option CronJob → Option Scheduler
  unfolding insert calc_next_run
  add_again s id place now none = none
  add_again s id place now (some job) = some (record s {
    objects =
        set s.objects place
          (record job { next_run = calc_next_run clock now job.schedule; enabled = true });
    jobs = insert id place s.jobs;
  })

unfoldable pub remove : Scheduler → String → Scheduler
unfolding delete
remove s id = record s { jobs = delete id s.jobs }

unfoldable pub start : Scheduler → Scheduler
start s =
    if s.started || s.stopped then s else record s { started = true; looping = true; wg = s.wg + 1 }

-- `Stop`, up to the wait.
unfoldable pub stop : Scheduler → Scheduler
stop s = record s { stopped = true }

-- The end of `loop`, which sees the signal of `Stop`.
unfoldable pub loop_ends : Scheduler → Option Scheduler
loop_ends s =
    if s.looping && s.stopped then some (record s { looping = false; wg = s.wg - 1 }) else none

-- The body of the loop of tick, for the job at a place.
unfoldable pub dispatch_found : ℤ → ℕ → Scheduler → Option CronJob → Scheduler
dispatch_found now place s none = s
dispatch_found now place s (some job) =
    if not job.enabled || (job.running || ltb_ℤ now job.next_run) then s else record s {
      objects = set s.objects place (record job { running = true });
      dispatches = s.dispatches ++ (record { place = place; noted = false; over = false } ∷ []);
      wg = s.wg + 1;
    }

unfoldable pub dispatch_due : ℤ → List (String × ℕ) → Scheduler → Scheduler
unfolding dispatch_found
dispatch_due now [] s = s
dispatch_due now ((id, place) ∷ jobs) s =
    dispatch_due now jobs (dispatch_found now place s (get_elem? s.objects place))

unfoldable pub tick : Scheduler → ℤ → Scheduler
unfolding dispatch_due
tick s now = if s.stopped then s else dispatch_due now s.jobs s

module _ (clock : Clock) where
  ended : Scheduler → ℕ → Dispatch → ℤ → Option CronJob → Option Scheduler
  unfolding calc_next_run
  ended s i d now none = none
  ended s i d now (some job) = some (record s {
    objects = set s.objects d.place (record job {
      running = false;
      last_run = now;
      next_run = calc_next_run clock now job.schedule;
    });
    dispatches = set s.dispatches i (record d { noted = true });
  })

  -- The deferred update of the job under the mutex, behind the handler or its panic.
  unfoldable pub job_ends : Scheduler → ℕ → ℤ → Option Dispatch → Option Scheduler
  unfolding ended
  job_ends s i now none = none
  job_ends s i now (some d) =
      if d.noted || d.over then none else ended s i d now (get_elem? s.objects d.place)

-- `defer s.wg.Done()` of runJob, which comes after that.
unfoldable pub job_leaves : Scheduler → ℕ → Option Dispatch → Option Scheduler
job_leaves s i none = none
job_leaves s i (some d) =
    if d.noted && not d.over
    then some
        (record s { dispatches = set s.dispatches i (record d { over = true }); wg = s.wg - 1 })
    else none

pub data Action : Type 0 where
  adds : (id name : String) → Bytes → (running : Bool) → ℤ → Action
  adds_again : (id : String) → ℕ → ℤ → Action
  removes : String → Action
  starts stops loop_returns : Action
  ticks : ℤ → Action
  returns : ℕ → ℤ → Action
  leaves : ℕ → Action

unfoldable pub step : Clock → Scheduler → Action → Option Scheduler
unfolding add add_again remove start stop tick loop_ends job_ends job_leaves
step clock s (adds id name schedule running now) = some (add clock s id name schedule running now)
step clock s (adds_again id place now) = add_again clock s id place now (get_elem? s.objects place)
step clock s (removes id) = some (remove s id)
step clock s starts = some (start s)
step clock s stops = some (stop s)
step clock s loop_returns = loop_ends s
step clock s (ticks now) = some (tick s now)
step clock s (returns i now) = job_ends clock s i now (get_elem? s.dispatches i)
step clock s (leaves i) = job_leaves s i (get_elem? s.dispatches i)

run_from : (Scheduler → Option Scheduler) → Option Scheduler → Option Scheduler
run_from next none = none
run_from next (some s) = next s

unfoldable pub run : Clock → Scheduler → List Action → Option Scheduler
unfolding step run_from
run clock s [] = some s
run clock s (a ∷ rest) = run_from (λ s'. run clock s' rest) (step clock s a)
