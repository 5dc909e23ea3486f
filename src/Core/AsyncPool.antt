-- ===== src/Core/AsyncPool.antt =====
-- internal/core/events.go: the goroutines in which Publish runs asynchronous handlers, with the
-- semaphore `asyncSem` as the number of its tokens. A run is any interleaving of the moves of the
-- publishers and of the goroutines. The outer goroutine of PublishAsync holds no token.
pub mod Slots
pub mod Leak
mod Tests
use deploy_monster.Prelude.{
  ℕ, ◌+◌, ◌-◌, Bool, true, false, ◌&&◌, List, [], ◌∷◌, ◌++◌, Option, none, some, if◌then◌else◌, ltb,
  ◌==◌, get_elem?, set,
}

-- Where a goroutine stands: in the handler; in the pause behind its error; before it takes a token
-- for the second try; in the second try; before `asyncWG.Done()` and at its end, with a second try
-- or without.
pub data Phase : Type 0 where
  running backing_off reacquiring retrying leaving_again leaving gone_again gone : Phase

abbrev pub phase_index : Phase → ℕ
phase_index running = 0
phase_index backing_off = 1
phase_index reacquiring = 2
phase_index retrying = 3
phase_index leaving_again = 4
phase_index leaving = 5
phase_index gone_again = 6
phase_index gone = 7

pub record AsyncPool : Type 0 where
  pub cap : ℕ
  pub tokens : ℕ
  pub wg : ℕ
  pub error_count : ℕ
  pub handlers : List Phase

abbrev pub default_async_workers : ℕ
default_async_workers = 64

unfoldable pub new_async_pool : ℕ → AsyncPool
new_async_pool cap = record { cap = cap; tokens = 0; wg = 0; error_count = 0; handlers = [] }

abbrev pub at : Phase → Phase → Bool
at p h = phase_index h == phase_index p

-- `asyncSem <- struct{}{}` in the loop of Publish, which waits while the channel is full.
unfoldable pub dispatch : AsyncPool → Option AsyncPool
dispatch q =
    if ltb q.tokens q.cap
    then some
        (record q { tokens = q.tokens + 1; wg = q.wg + 1; handlers = q.handlers ++ (running ∷ []) })
    else none

abbrev pub goto : AsyncPool → ℕ → Phase → List Phase
goto q i p = set q.handlers i p

-- The handler returns nil; the deferred function gives the token back.
unfoldable pub returns : AsyncPool → ℕ → Phase → Option AsyncPool
returns q i h =
    if at running h
    then some (record q { tokens = q.tokens - 1; handlers = goto q i leaving })
    else none

-- The handler fails: `<-eb.asyncSem; slotReleased = true`.
unfoldable pub fails : AsyncPool → ℕ → Phase → Option AsyncPool
fails q i h =
    if at running h
    then some (record q { tokens = q.tokens - 1; handlers = goto q i backing_off })
    else none

-- `<-ctx.Done()` in the pause.
unfoldable pub context_done : AsyncPool → ℕ → Phase → Option AsyncPool
context_done q i h =
    if at backing_off h
    then some (record q { error_count = q.error_count + 1; handlers = goto q i leaving })
    else none

-- `<-timer.C`
unfoldable pub timer_fires : AsyncPool → ℕ → Phase → Option AsyncPool
timer_fires q i h =
    if at backing_off h then some (record q { handlers = goto q i reacquiring }) else none

-- `eb.asyncSem <- struct{}{}` for the second try.
unfoldable pub reacquire : AsyncPool → ℕ → Phase → Option AsyncPool
reacquire q i h =
    if at reacquiring h && ltb q.tokens q.cap
    then some (record q { tokens = q.tokens + 1; handlers = goto q i retrying })
    else none

-- The second try returns nil. `slotReleased` is true, so the deferred function takes no token out.
unfoldable pub retry_returns : AsyncPool → ℕ → Phase → Option AsyncPool
retry_returns q i h =
    if at retrying h then some (record q { handlers = goto q i leaving_again }) else none

-- The second try fails or panics: likewise, with the error counted.
unfoldable pub retry_fails : AsyncPool → ℕ → Phase → Option AsyncPool
retry_fails q i h =
    if at retrying h
    then some (record q { error_count = q.error_count + 1; handlers = goto q i leaving_again })
    else none

-- The first try panics: the deferred function counts the error and gives the token back.
unfoldable pub panics : AsyncPool → ℕ → Phase → Option AsyncPool
panics q i h =
    if at running h
    then some (record q {
      tokens = q.tokens - 1;
      error_count = q.error_count + 1;
      handlers = goto q i leaving;
    })
    else none

-- `eb.asyncWG.Done()`
unfoldable pub done : AsyncPool → ℕ → Phase → Option AsyncPool
done q i h =
    if at leaving h
    then some (record q { wg = q.wg - 1; handlers = goto q i gone })
    else if at leaving_again h
    then some (record q { wg = q.wg - 1; handlers = goto q i gone_again })
    else none

pub data Move : Type 0 where
  return fail panic cancel fire retake return_again fail_again end : Move

pub data Action : Type 0 where
  publishes : Action
  moves : Move → ℕ → Action

unfoldable pub move : AsyncPool → Move → ℕ → Phase → Option AsyncPool
unfolding returns fails panics context_done timer_fires reacquire retry_returns retry_fails done
move q return i h = returns q i h
move q fail i h = fails q i h
move q panic i h = panics q i h
move q cancel i h = context_done q i h
move q fire i h = timer_fires q i h
move q retake i h = reacquire q i h
move q return_again i h = retry_returns q i h
move q fail_again i h = retry_fails q i h
move q end i h = done q i h

move_of : AsyncPool → Move → ℕ → Option Phase → Option AsyncPool
unfolding move
move_of q mv i none = none
move_of q mv i (some h) = move q mv i h

-- `none` where the move has to wait or is not the next of the goroutine.
unfoldable pub step : AsyncPool → Action → Option AsyncPool
unfolding dispatch move_of
step q publishes = dispatch q
step q (moves mv i) = move_of q mv i (get_elem? q.handlers i)

run_from : (AsyncPool → Option AsyncPool) → Option AsyncPool → Option AsyncPool
run_from next none = none
run_from next (some q) = next q

unfoldable pub run : AsyncPool → List Action → Option AsyncPool
unfolding step run_from
run q [] = some q
run q (a ∷ rest) = run_from (λ q'. run q' rest) (step q a)
