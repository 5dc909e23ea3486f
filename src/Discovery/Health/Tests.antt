-- ===== src/Discovery/Health/Tests.antt =====
-- Two backends, one of which stops answering.
use deploy_monster.Prelude.{
  ℕ, ◌≡◌, refl, Bool, true, false, List, [], ◌∷◌, Option, none, some, String,
}
use deploy_monster.Discovery.Health.{
  HealthCheck, new_health_checker, register, is_healthy, check_all,
}
use deploy_monster.Discovery.Health.Streaks.{
  Event, registers, commits, run, history, fit, is_healthy_lem,
}

abbrev sweep : Option ℕ → ℕ → Event
sweep err now = commits (
    record { backend = "web:80"; err = err; now = now }
    ∷ record { backend = "db:5432"; err = none; now = now }
    ∷ [])

abbrev three_failures : List Event
three_failures =
    registers "web:80" "http" "/"
    ∷ registers "db:5432" "tcp" ""
    ∷ sweep (some 1) 10
    ∷ sweep (some 1) 20
    ∷ sweep (some 2) 30
    ∷ []

is_healthy_lem_example :
    is_healthy (run new_health_checker three_failures) "web:80"
    ≡ fit (history "web:80" none three_failures)
is_healthy_lem_example = is_healthy_lem "web:80" three_failures

one_down :
    (is_healthy (run new_health_checker three_failures) "web:80" ≡ false)
    × (is_healthy (run new_health_checker three_failures) "db:5432" ≡ true)
unfolding is_healthy deploy_monster.Prelude.Dict.lookup run deploy_monster.Prelude.Dict.insert
    new_health_checker
one_down = (refl, refl)

-- A backend that is registered again while it is probed starts afresh, with the old result on top.
probe_of_web : String → HealthCheck → Option ℕ
probe_of_web backend c = some 5

registered_meanwhile :
    is_healthy
      (check_all probe_of_web
        (run new_health_checker three_failures)
        (λ hc. register hc "web:80" "tcp" "")
        40)
      "web:80"
    ≡ true
unfolding is_healthy deploy_monster.Prelude.Dict.lookup check_all run
    deploy_monster.Prelude.Dict.insert new_health_checker probe_of_web
registered_meanwhile = refl
