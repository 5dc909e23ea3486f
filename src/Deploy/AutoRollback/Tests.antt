-- ===== src/Deploy/AutoRollback/Tests.antt =====
-- Failures of two applications.
use deploy_monster.Prelude.{ℕ, ◌≡◌, refl, ◌*◌, List, [], ◌∷◌, none, inr, ◌⊎◌, String}
use deploy_monster.Deploy.Rollback.{Deployment}
use deploy_monster.Deploy.AutoRollback.{new_auto_rollback_manager, find_last_stable}
use deploy_monster.Deploy.AutoRollback.Cooldown.{
  Event, fails, stops, attempts, own_attempts, AreApart, attempts_apart,
}

abbrev minute : ℕ
minute = 60 * 1000000000

abbrev failures : List Event
failures =
    fails "shop" 0 1
    ∷ fails "blog" minute minute
    ∷ fails "shop" minute minute
    ∷ fails "shop" (6 * minute) (6 * minute)
    ∷ stops
    ∷ fails "shop" (20 * minute) (20 * minute)
    ∷ []

two_attempts :
    attempts "shop" new_auto_rollback_manager failures ≡ (0, 1) ∷ (360000000000, 360000000000) ∷ []
unfolding attempts new_auto_rollback_manager
two_attempts = refl

attempts_apart_example :
    (attempts "shop" new_auto_rollback_manager failures
      ≡ own_attempts 300000000000 "shop" none failures)
    × AreApart 300000000000 none (attempts "shop" new_auto_rollback_manager failures)
attempts_apart_example = attempts_apart "shop" failures

abbrev row : ℕ → String → String → Deployment
row version image status = record {
  version = version;
  image = image;
  status = status;
  commit_sha = "";
  commit_message = "";
  container_id = "";
  triggered_by = "";
  strategy = "";
}

abbrev failed_last : ℕ ⊎ List Deployment
failed_last = inr (
    row 4 "img:4" "running"
    ∷ row 3 "img:3" "failed"
    ∷ row 2 "" "running"
    ∷ row 1 "img:1" "running"
    ∷ [])

oldest_is_stable : find_last_stable failed_last ≡ inr 1
unfolding find_last_stable
oldest_is_stable = refl
