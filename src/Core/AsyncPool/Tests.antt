-- ===== src/Core/AsyncPool/Tests.antt =====
-- A pool with a single place, whose first handler fails once.
use deploy_monster.Prelude.{◌+◌, ◌≤◌, ◌≡◌, refl, not, ◌&&◌, List, [], ◌∷◌, none, some, arith}
use deploy_monster.Prelude.Find.{count_if}
use deploy_monster.Core.AsyncPool.{
  Phase, AsyncPool, new_async_pool, dispatch, Move, Action, publishes, moves, run,
}
use deploy_monster.Core.AsyncPool.Slots.{works, took_again, is_live}
use deploy_monster.Core.AsyncPool.Leak.{run-new_async_pool-Inv, leak_blocks}

abbrev failing_once : List Action
failing_once =
    publishes
    ∷ moves Move.fail 0
    ∷ moves Move.fire 0
    ∷ moves Move.retake 0
    ∷ moves Move.return_again 0
    ∷ []

abbrev leaving_pool : AsyncPool
leaving_pool = record {
  cap = 1;
  tokens = 1;
  wg = 1;
  error_count = 0;
  handlers = Phase.leaving_again ∷ [];
}

abbrev idle_pool : AsyncPool
idle_pool = record leaving_pool { wg = 0; handlers = Phase.gone_again ∷ [] }

leaving_reached : run (new_async_pool 1) failing_once ≡ some leaving_pool
unfolding run new_async_pool
leaving_reached = refl

idle_reached : run leaving_pool (moves Move.end 0 ∷ []) ≡ some idle_pool
unfolding run
idle_reached = refl

run-new_async_pool-Inv_example :
    (leaving_pool.tokens
      ≡ count_if works leaving_pool.handlers
        + count_if (λ h. took_again h && not (works h)) leaving_pool.handlers)
    × (leaving_pool.tokens ≤ 1)
    × (leaving_pool.wg ≡ count_if is_live leaving_pool.handlers)
run-new_async_pool-Inv_example = run-new_async_pool-Inv 1 failing_once leaving_pool leaving_reached

-- No goroutine is left, and still nothing can be dispatched.
leak_blocks_example : dispatch idle_pool ≡ none
unfolding count_if
leak_blocks_example =
    leak_blocks 1 failing_once (moves Move.end 0 ∷ []) leaving_pool idle_pool leaving_reached
      (omega arith) idle_reached

-- A handler that does not fail gives its place back.
place_given_back :
    run (new_async_pool 1) (publishes ∷ moves Move.return 0 ∷ moves Move.end 0 ∷ publishes ∷ [])
    ≡ some (record {
      cap = 1;
      tokens = 1;
      wg = 1;
      error_count = 0;
      handlers = Phase.gone ∷ Phase.running ∷ [];
    })
unfolding run new_async_pool
place_given_back = refl
