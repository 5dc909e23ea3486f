-- ===== src/Api/Idempotency/Tests.antt =====
-- Two requests with one key, of which the second comes while the first is in the handler, and a
-- third one behind them.
use deploy_monster.Prelude.{◌+◌, ◌≤◌, ◌≡◌, refl, List, [], ◌∷◌, some}
use deploy_monster.Prelude.Find.{count_if}
use deploy_monster.Prelude.Dict.{lookup, insert, delete}
use deploy_monster.Api.Idempotency.{
  Middleware, refused, executing, leaving, gone, new_middleware, Action, arrives, moves, admits,
  looks, misreads, writes, expires, leaves, responds, run,
}
use deploy_monster.Api.Idempotency.Counts.{hot, warm, times_written, times_lapsed}
use deploy_monster.Api.Idempotency.Once.{run-new-AtMostOnce}

abbrev retried : List Action
retried =
    arrives "k"
    ∷ moves admits 0
    ∷ moves looks 0
    ∷ arrives "k"
    ∷ moves admits 1
    ∷ moves (responds 201) 0
    ∷ moves writes 0
    ∷ moves leaves 0
    ∷ arrives "k"
    ∷ moves admits 2
    ∷ moves looks 2
    ∷ []

abbrev after_retries : Middleware
after_retries = record {
  in_flight = "k" ∷ [];
  entries = ("k", 201) ∷ [];
  requests =
      record { key = "k"; phase = gone }
      ∷ record { key = "k"; phase = refused }
      ∷ record { key = "k"; phase = leaving }
      ∷ [];
  written = "k" ∷ [];
  lapsed = [];
}

retries_run : run new_middleware retried ≡ some after_retries
unfolding run new_middleware
retries_run = refl

-- The second request comes when the entry of the first has expired, and the read of the third one
-- fails: each is answered by the handler once more.
abbrev twice_lapsed : List Action
twice_lapsed =
    arrives "k"
    ∷ moves admits 0
    ∷ moves looks 0
    ∷ moves (responds 201) 0
    ∷ moves writes 0
    ∷ moves leaves 0
    ∷ expires "k"
    ∷ arrives "k"
    ∷ moves admits 1
    ∷ moves looks 1
    ∷ moves (responds 200) 1
    ∷ moves writes 1
    ∷ moves leaves 1
    ∷ arrives "k"
    ∷ moves admits 2
    ∷ moves misreads 2
    ∷ []

abbrev after_lapses : Middleware
after_lapses = record {
  in_flight = "k" ∷ [];
  entries = ("k", 200) ∷ [];
  requests =
      record { key = "k"; phase = gone }
      ∷ record { key = "k"; phase = gone }
      ∷ record { key = "k"; phase = executing }
      ∷ [];
  written = "k" ∷ "k" ∷ [];
  lapsed = "k" ∷ "k" ∷ [];
}

lapses_run : run new_middleware twice_lapsed ≡ some after_lapses
unfolding run new_middleware lookup insert delete
lapses_run = refl

run-new-AtMostOnce_example :
    (count_if (hot "k") after_lapses.requests + count_if (warm "k") after_lapses.requests ≤ 1)
    × (times_written "k" after_lapses + count_if (hot "k") after_lapses.requests
        ≤ 1 + times_lapsed "k" after_lapses)
run-new-AtMostOnce_example = run-new-AtMostOnce "k" twice_lapsed after_lapses lapses_run
