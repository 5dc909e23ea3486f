-- ===== src/Compose/Secrets/Tests.antt =====
-- Substitution at concrete files.
use deploy_monster.Prelude.{ℕ, zero, suc, ◌≡◌, refl, List, [], ◌∷◌, String}
use deploy_monster.Prelude.Bytes.{contains, has_prefix}
use deploy_monster.Prelude.Dict.{insert}
use deploy_monster.Prelude.Names.{has, Distinct}
use deploy_monster.Compose.Secrets.{pieces, interpolate, interpolate_with_generated}
use deploy_monster.Compose.Secrets.Reuse.{
  filled, numbered, secret_keys, add_new, interpolate_consistent,
}

tests : Unit {0}
unfolding interpolate contains has_prefix insert
tests = tt

abbrev password : ℕ → String
password zero = "pw0"
password (suc n) = "pw1"

abbrev file : String
file =
    "a=${DB_PASSWORD} b=${APP_KEY:-changeme} c=${PORT:-80} d=${DB_PASSWORD:-wiki} e=${HOST}${} $x"

abbrev given : List (String × String)
given = ("PORT", "") ∷ []

file_filled : interpolate password file given ≡ "a=pw0 b=pw1 c=80 d=pw0 e=${HOST}${} $x"
unfolding tests
file_filled = refl

interpolate_consistent_example :
    ((interpolate_with_generated password file given).0
      ≡ filled given (interpolate_with_generated password file given).1 (pieces file))
    × (let keys = add_new [] (secret_keys given (pieces file)) in
        ((interpolate_with_generated password file given).1 ≡ numbered password 0 keys)
        × Distinct keys
        × ((j : String) → has j keys ≡ has j (secret_keys given (pieces file))))
interpolate_consistent_example = interpolate_consistent password file given
