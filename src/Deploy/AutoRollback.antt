-- ===== src/Deploy/AutoRollback.antt =====
-- internal/deploy/autorollback.go: a rollback to the last stable version after a failed deployment.
-- Between taking and giving back the mutex an event is one step. `checked` and `stored` are the times
-- that a step reads for `time.Since` and for the entry of the application.
pub mod Cooldown
mod Tests
use text.Mathlib.Text.{◌==◌ as str_eq}
use deploy_monster.Prelude.{
  ℕ, ◌+◌, ◌*◌, Bool, true, false, not, ◌&&◌, List, [], ◌∷◌, Option, none, some, String, ◌⊎◌, inl,
  inr, if◌then◌else◌, ltb,
}
use deploy_monster.Prelude.Dict.{lookup, insert}
use deploy_monster.Prelude.Find.{find}
use deploy_monster.Deploy.Rollback.{Deployment, is_blank}

pub record AutoRollbackManager : Type 0 where
  pub cooldown : ℕ
  pub last_attempt : List (String × ℕ)
  pub closed : Bool

-- Five minutes in nanoseconds.
unfoldable pub new_auto_rollback_manager : AutoRollbackManager
new_auto_rollback_manager = record {
  cooldown = 5 * 60 * 1000000000;
  last_attempt = [];
  closed = false;
}

-- `Stop`, up to the wait for the rollbacks under way.
unfoldable pub stop : AutoRollbackManager → AutoRollbackManager
stop m = record m { closed = true }

abbrev pub is_cooling : ℕ → ℕ → Option ℕ → Bool
is_cooling cooldown checked none = false
is_cooling cooldown checked (some last) = ltb checked (last + cooldown)

-- The guards of handleFailure, and whether it goes on to a rollback. The two guards of the handler
-- in Start look at `closed` alone, which is never reset.
unfoldable pub handle_failure :
    AutoRollbackManager → String → (checked stored : ℕ) → AutoRollbackManager × Bool
unfolding lookup insert
handle_failure m app_id checked stored =
    if m.closed
    then (m, false)
    else if is_cooling m.cooldown checked (lookup app_id m.last_attempt)
    then (m, false)
    else (record m { last_attempt = insert app_id stored m.last_attempt }, true)

pub data StableError (Error : Type 0) : Type 0 where
  not_listed : Error → StableError Error
  no_stable : StableError Error

stable_among : {Error : Type 0} → Option Deployment → StableError Error ⊎ ℕ
stable_among none = inl no_stable
stable_among (some d) = inr d.version

abbrev is_stable : Deployment → Bool
is_stable d = str_eq d.status "running" && not (is_blank d.image)

-- findLastStable, from the answer of the store: the first row is the failed deployment.
unfoldable pub find_last_stable : {Error : Type 0} → Error ⊎ List Deployment → StableError Error ⊎ ℕ
unfolding stable_among find
find_last_stable (inl why) = inl (not_listed why)
find_last_stable (inr []) = inl no_stable
find_last_stable (inr (failed ∷ older)) = stable_among (find is_stable older)
