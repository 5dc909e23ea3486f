-- ===== src/Compose/Secrets.antt =====
-- internal/compose/parser.go: the substitution of `${VAR}` and `${VAR:-default}` in a compose file, and
-- the secrets that it generates. The results of core.GeneratePassword are a parameter, by the number
-- of the call. Texts are lists of characters; upper and lower case are those of ASCII.
pub mod Reuse
mod Tests
use Prim.Native.Char.{Char, code}
use Prim.Native.String.{count, ◌++◌}
use text.Mathlib.Text.{◌==◌ as str_eq}
use deploy_monster.Prelude.{
  ℕ, zero, suc, ◌+◌, Bool, true, false, not, ◌&&◌, List, [], ◌∷◌, Option, none, some, String, ◌==◌,
  if◌then◌else◌,
}
use deploy_monster.Prelude.Dict.{lookup, insert}
use deploy_monster.Prelude.Bytes.{
  Bytes, bytes, is_empty, contains, to_upper, to_lower, trim_space, any_contained, listed,
}

markers : List Bytes
markers =
    bytes "PASSWORD"
    ∷ bytes "PASS"
    ∷ bytes "PWD"
    ∷ bytes "SECRET"
    ∷ bytes "TOKEN"
    ∷ bytes "KEY"
    ∷ bytes "SALT"
    ∷ []

unfoldable pub is_sensitive_env_key : String → Bool
unfolding markers any_contained to_upper
is_sensitive_env_key key = any_contained (to_upper (bytes key)) markers

weak_defaults : List Bytes
weak_defaults =
    bytes "admin"
    ∷ bytes "authentik"
    ∷ bytes "baserow"
    ∷ bytes "bookstack"
    ∷ bytes "change-this"
    ∷ bytes "change-this-key"
    ∷ bytes "change-this-secret"
    ∷ bytes "change-this-too"
    ∷ bytes "changeme"
    ∷ bytes "huginn"
    ∷ bytes "immich"
    ∷ bytes "keycloak"
    ∷ bytes "masterkey123"
    ∷ bytes "matomo"
    ∷ bytes "minioadmin"
    ∷ bytes "paperless"
    ∷ bytes "please-change-me"
    ∷ bytes "rootpass"
    ∷ bytes "seafile"
    ∷ bytes "wiki"
    ∷ []

unfoldable pub is_weak_secret_default : String → Bool
unfolding weak_defaults listed to_lower trim_space
is_weak_secret_default value =
    let v = to_lower (trim_space (bytes value)) in
    if is_empty v then false else listed v weak_defaults

-- What the pattern `\$\{([^}]+)\}` finds, from left to right, and the characters between.
pub data Piece : Type 0 where
  literal : Char → Piece
  reference : (expr : String) → Piece

with_letter : Char → Option String → Option String
with_letter c none = none
with_letter c (some expr) = some (String.◌∷◌ c expr)

-- The text before the next `}`.
until_brace : String → Option String
unfolding with_letter
until_brace String.[] = none
until_brace (String.◌∷◌ c s) =
    let later = until_brace s in if code c == b'}' then some "" else with_letter c later

not_empty : Option String → Option String
not_empty none = none
not_empty (some String.[]) = none
not_empty (some (String.◌∷◌ c expr)) = some (String.◌∷◌ c expr)

behind_dollar : String → Option String
unfolding not_empty until_brace
behind_dollar String.[] = none
behind_dollar (String.◌∷◌ c s) =
    let expr = not_empty (until_brace s) in if code c == b'{' then expr else none

expr_at : Char → String → Option String
unfolding behind_dollar
expr_at c s = let expr = behind_dollar s in if code c == b'$' then expr else none

-- The pieces of a text, of which the first characters belong to a match and are left out.
unfoldable pub pieces_after : ℕ → String → List Piece
unfolding expr_at
pieces_after skipped String.[] = []
pieces_after (suc skipped) (String.◌∷◌ c s) = pieces_after skipped s
pieces_after zero (String.◌∷◌ c s) = elim (expr_at c s) [
  | none ↦ literal c ∷ pieces_after zero s
  | some expr ↦ reference expr ∷ pieces_after (count expr + 2) s
]

abbrev pub pieces : String → List Piece
pieces text = pieces_after zero text

before : Char → Option (String × String) → Option (String × String)
before c none = none
before c (some (key, default)) = some (String.◌∷◌ c key, default)

minus_first : String → Option String
minus_first String.[] = none
minus_first (String.◌∷◌ c s) = if code c == b'-' then some s else none

colon_minus : Char → String → Option String
unfolding minus_first
colon_minus c s = let default = minus_first s in if code c == b':' then default else none

-- The parts of `VAR:-default`, at the first `:-`.
unfoldable pub split_default : String → Option (String × String)
unfolding before colon_minus
split_default String.[] = none
split_default (String.◌∷◌ c s) = elim (colon_minus c s) [
  | none ↦ before c (split_default s)
  | some default ↦ some ("", default)
]

-- What the closure does with a reference: a text known at once, the secret of a variable, or the
-- match as it is.
pub data Meaning : Type 0 where
  known : String → Meaning
  secret : (key : String) → Meaning
  as_it_is : Meaning

is_blank : String → Bool
is_blank String.[] = true
is_blank (String.◌∷◌ c s) = false

fallback : String → String → Meaning
unfolding is_sensitive_env_key is_weak_secret_default
fallback key default =
    if is_sensitive_env_key key && is_weak_secret_default default then secret key else known default

with_default : String → String → Option String → Meaning
unfolding fallback is_blank
with_default key default none = fallback key default
with_default key default (some val) = if is_blank val then fallback key default else known val

without_default : String → Option String → Meaning
unfolding is_sensitive_env_key
without_default key none = if is_sensitive_env_key key then secret key else as_it_is
without_default key (some val) = known val

split_meaning : List (String × String) → String → Option (String × String) → Meaning
unfolding with_default without_default lookup
split_meaning vars expr none = without_default expr (lookup expr vars)
split_meaning vars expr (some (key, default)) = with_default key default (lookup key vars)

unfoldable pub meaning : List (String × String) → String → Meaning
unfolding split_meaning split_default
meaning vars expr = split_meaning vars expr (split_default expr)

-- The map `generated`, and how often a password was drawn.
pub record Generated : Type 0 where
  pub secrets : List (String × String)
  pub drawn : ℕ

module _ (password : ℕ → String) where
  secret_found : Option String → String → Generated → String × Generated
  secret_found (some pw) key g = (pw, g)
  secret_found none key g = (
    password g.drawn,
    record { secrets = insert key (password g.drawn) g.secrets; drawn = suc g.drawn },
  )

  unfoldable pub generated_secret : String → Generated → String × Generated
  unfolding secret_found
  generated_secret key g = secret_found (lookup key g.secrets) key g

  -- The text for a reference, once its meaning is known.
  unfoldable pub replace : String → Meaning → Generated → String × Generated
  unfolding generated_secret
  replace expr (known text) g = (text, g)
  replace expr (secret key) g = generated_secret key g
  replace expr as_it_is g = ("${" ++ (expr ++ "}"), g)

  unfoldable pub replace_all : List (String × String) → List Piece → Generated → String × Generated
  unfolding replace meaning
  replace_all vars [] g = ("", g)
  replace_all vars (literal c ∷ ps) g =
      let (text, g') = replace_all vars ps g in (String.◌∷◌ c text, g')
  replace_all vars (reference expr ∷ ps) g =
      let (text, g') = replace expr (meaning vars expr) g in
      let (later, g'') = replace_all vars ps g' in (text ++ later, g'')

  unfoldable pub interpolate_with_generated :
      String → List (String × String) → String × List (String × String)
  unfolding replace_all pieces_after
  interpolate_with_generated text vars =
      let (result, g) = replace_all vars (pieces text) (record { secrets = []; drawn = 0 }) in
      (result, g.secrets)

  unfoldable pub interpolate : String → List (String × String) → String
  unfolding interpolate_with_generated
  interpolate text vars = (interpolate_with_generated text vars).0
