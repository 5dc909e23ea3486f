-- ===== src/Build/TenantQueue.antt =====
-- internal/build/tenant_queue.go: the gate of the builds, with a limit for each tenant and one for
-- all together. A buffered channel used as a semaphore is the number of its tokens; the goroutines
-- of Submit and of the jobs are the jobs of the state, each with the point that it has reached, and
-- a run is any interleaving of their moves, of new submissions and of Shutdown.
pub mod Counting
pub mod Moves
pub mod Limits
pub mod Draining
pub mod Ending
mod Tests
use text.Mathlib.Text.{◌==◌ as str_eq}
use deploy_monster.Prelude.{
  ℕ, ◌+◌, ◌-◌, Bool, true, false, ◌&&◌, List, [], ◌∷◌, ◌++◌, Option, none, some, String,
  if◌then◌else◌, ltb, leb, ◌==◌, get_elem?, set,
}
use deploy_monster.Prelude.Int.{ℤ, pos, negsuc}
use deploy_monster.Prelude.Dict.{lookup, insert, get_or}

-- Where the goroutine of a job stands: at the first select of Submit, at the second, in `fn`, before
-- it gives the tenant slot back, before `wg.Done()`, at its end.
pub data Phase : Type 0 where
  await_tenant await_global running leaving_tenant leaving gone : Phase

-- The phases in the order in which a job can pass them.
abbrev pub phase_index : Phase → ℕ
phase_index await_tenant = 0
phase_index await_global = 1
phase_index running = 2
phase_index leaving_tenant = 3
phase_index leaving = 4
phase_index gone = 5

-- What Submit gives: nil, ErrTenantQueueClosed or ctx.Err().
pub data Submitted : Type 0 where
  scheduled queue_closed canceled : Submitted

pub record Job : Type 0 where
  pub tenant : String
  pub phase : Phase
  pub result : Option Submitted

pub record TenantQueue : Type 0 where
  pub global_cap : ℕ
  pub per_tenant : ℕ
  pub global : ℕ
  pub tenants : List (String × ℕ)
  pub closed : Bool
  pub wg : ℕ
  pub jobs : List Job

-- `if x < 1 { x = 1 }`
abbrev pub at_least_one : ℤ → ℕ
at_least_one (pos n) = if ltb n 1 then 1 else n
at_least_one (negsuc n) = 1

unfoldable pub new_tenant_queue : ℤ → ℤ → TenantQueue
new_tenant_queue global_cap per_tenant = record {
  global_cap = at_least_one global_cap;
  per_tenant = at_least_one per_tenant;
  global = 0;
  tenants = [];
  closed = false;
  wg = 0;
  jobs = [];
}

-- The tokens in the channel of a tenant; a tenant without a channel has none.
unfoldable pub tenant_in_flight : TenantQueue → String → ℕ
tenant_in_flight q tenant = get_or (lookup tenant q.tenants) 0

unfoldable pub global_in_flight : TenantQueue → ℕ
global_in_flight q = q.global

-- `tenantSlot`: the channel is made on first use.
unfoldable pub tenant_slot : TenantQueue → String → TenantQueue
tenant_slot q tenant = record q {
  tenants = insert tenant (get_or (lookup tenant q.tenants) 0) q.tenants;
}

-- The part of Submit under the lock.
unfoldable pub submit : TenantQueue → String → TenantQueue
unfolding tenant_slot
submit q tenant =
    if q.closed
    then record q {
      jobs = q.jobs ++ (record { tenant = tenant; phase = gone; result = some queue_closed } ∷ []);
    }
    else record (tenant_slot q tenant) {
      wg = q.wg + 1;
      jobs = q.jobs ++ (record { tenant = tenant; phase = await_tenant; result = none } ∷ []);
    }

unfoldable pub shutdown : TenantQueue → TenantQueue
shutdown q = record q { closed = true }

-- Whether a job stands at a phase.
abbrev pub at : Phase → Job → Bool
at p j = phase_index j.phase == phase_index p

-- The `i`th job goes on to a phase, Submit having given a result or not.
abbrev pub goto : TenantQueue → ℕ → Job → Phase → Option Submitted → List Job
goto q i j p result = set q.jobs i (record j { phase = p; result = result })

-- `tslot <- struct{}{}`, which waits while the channel is full.
unfoldable pub take_tenant : TenantQueue → ℕ → Job → Option TenantQueue
unfolding tenant_in_flight
take_tenant q i j =
    if at await_tenant j && ltb (tenant_in_flight q j.tenant) q.per_tenant
    then some (record q {
      tenants = insert j.tenant (tenant_in_flight q j.tenant + 1) q.tenants;
      jobs = goto q i j await_global j.result;
    })
    else none

-- `q.global <- struct{}{}`; then the job is started and Submit returns nil.
unfoldable pub take_global : TenantQueue → ℕ → Job → Option TenantQueue
take_global q i j =
    if at await_global j && ltb q.global q.global_cap
    then some (record q { global = q.global + 1; jobs = goto q i j running (some scheduled) })
    else none

-- `<-q.stopCh` or `<-ctx.Done()` in a select of Submit: the second gives the tenant slot back.
abbrev give_up : TenantQueue → ℕ → Job → Submitted → Option TenantQueue
give_up q i j why =
    if at await_tenant j
    then some (record q { jobs = goto q i j leaving (some why) })
    else if at await_global j
    then some (record q { jobs = goto q i j leaving_tenant (some why) })
    else none

unfoldable pub stop : TenantQueue → ℕ → Job → Option TenantQueue
stop q i j = if q.closed then give_up q i j queue_closed else none

unfoldable pub cancel : TenantQueue → ℕ → Job → Option TenantQueue
cancel q i j = give_up q i j canceled

-- `fn` has returned or panicked: `<-q.global`.
unfoldable pub finish : TenantQueue → ℕ → Job → Option TenantQueue
finish q i j =
    if at running j
    then some (record q { global = q.global - 1; jobs = goto q i j leaving_tenant j.result })
    else none

-- `<-tslot`
unfoldable pub release_tenant : TenantQueue → ℕ → Job → Option TenantQueue
unfolding tenant_in_flight
release_tenant q i j =
    if at leaving_tenant j
    then some (record q {
      tenants = insert j.tenant (tenant_in_flight q j.tenant - 1) q.tenants;
      jobs = goto q i j leaving j.result;
    })
    else none

-- `q.wg.Done()`
unfoldable pub done : TenantQueue → ℕ → Job → Option TenantQueue
done q i j =
    if at leaving j
    then some (record q { wg = q.wg - 1; jobs = goto q i j gone j.result })
    else none

pub data Move : Type 0 where
  takes_tenant takes_global stops cancels finishes releases ends : Move

pub data Action : Type 0 where
  submits : String → Action
  moves : Move → ℕ → Action
  shuts_down : Action

-- A move of a job; `none` where the job cannot make it now.
unfoldable pub move : TenantQueue → Move → ℕ → Job → Option TenantQueue
unfolding take_tenant take_global stop cancel finish release_tenant done
move q takes_tenant i j = take_tenant q i j
move q takes_global i j = take_global q i j
move q stops i j = stop q i j
move q cancels i j = cancel q i j
move q finishes i j = finish q i j
move q releases i j = release_tenant q i j
move q ends i j = done q i j

move_of : TenantQueue → Move → ℕ → Option Job → Option TenantQueue
unfolding move
move_of q mv i none = none
move_of q mv i (some j) = move q mv i j

unfoldable pub step : TenantQueue → Action → Option TenantQueue
unfolding submit move_of shutdown
step q (submits tenant) = some (submit q tenant)
step q (moves mv i) = move_of q mv i (get_elem? q.jobs i)
step q shuts_down = some (shutdown q)

run_from : (TenantQueue → Option TenantQueue) → Option TenantQueue → Option TenantQueue
run_from next none = none
run_from next (some q) = next q

unfoldable pub run : TenantQueue → List Action → Option TenantQueue
unfolding step run_from
run q [] = some q
run q (a ∷ rest) = run_from (λ q'. run q' rest) (step q a)
