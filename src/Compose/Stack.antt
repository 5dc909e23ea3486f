-- ===== src/Compose/Stack.antt =====
-- internal/compose/deployer.go: the deployment of a stack. The container runtime is a parameter that
-- may answer differently after different calls; floating point numbers and fmt.Sscanf are parameters.
pub mod Deploying
pub mod Calls
pub mod Progress
pub mod Cleanup
mod Tests
use text.Mathlib.Text.{◌==◌ as str_eq}
use Prim.Native.Char.{Char}
use mathlib.Core.List.{reverse}
use Prim.Native.String.{char_at, ◌++◌ as ◌⧺◌}
use deploy_monster.Prelude.{
  ℕ, zero, suc, ◌-◌, Bool, true, false, not, ◌&&◌, ◌||◌, List, [], ◌∷◌, ◌++◌, Option, none, some,
  String, ◌⊎◌, inl, inr, if◌then◌else◌, leb, ◌==◌, map,
}
use deploy_monster.Prelude.Int.{ℤ, pos}
use deploy_monster.Prelude.Dict.{lookup, insert}
use deploy_monster.Prelude.Bytes.{Bytes, bytes, has_suffix, to_lower, trim_space}
use deploy_monster.Compose.{
  ComposeFile, ServiceConfig, BuildConfig, DeployConfig, ResourceConfig, ResourceSpec,
  dependency_order,
}

pub record ContainerOpts : Type 0 where
  pub name : String
  pub image : String
  pub env : List String
  pub labels : List (String × String)
  pub network : String
  pub cpu_quota : ℤ
  pub memory_mb : ℤ
  pub restart_policy : String

pub record HttpRoute : Type 0 where
  pub service_name : String
  pub fqdn : String
  pub port : ℤ

pub record DeployOpts (Item : Type 0) : Type 0 where
  pub app_id : String
  pub tenant_id : String
  pub stack_name : String
  pub compose : ComposeFile Item
  pub env_vars : List (String × String)
  pub http_routes : List HttpRoute

-- The loop of labelName over the characters, with `lastDash`.
label_from : Bool → Bytes → Bytes
label_from last_dash [] = []
label_from last_dash (r ∷ rest) =
    let kept = label_from false rest in
    let dashed = label_from true rest in
    let valid = (leb b'a' r && leb r b'z') || (leb b'0' r && leb r b'9') in
    if valid then r ∷ kept else if last_dash then dashed else b'-' ∷ dashed

one_of : ℕ → Bytes → Bool
one_of c [] = false
one_of c (x ∷ set) = c == x || one_of c set

-- `strings.TrimLeft(s, set)`
trim_left_of : Bytes → Bytes → Bytes
unfolding one_of
trim_left_of [] set = []
trim_left_of (c ∷ s) set = let rest = trim_left_of s set in if one_of c set then rest else c ∷ s

-- `strings.TrimRight(s, set)`
trim_right : Bytes → Bytes → Bytes
unfolding trim_left_of
trim_right s set = reverse (trim_left_of (reverse s) set)

or_route : Bytes → Bytes
or_route [] = bytes "route"
or_route (c ∷ s) = c ∷ s

unfoldable pub label_name : Bytes → Bytes
unfolding label_from trim_left_of trim_right or_route to_lower trim_space
label_name s =
    or_route (
      trim_right (trim_left_of (label_from false (to_lower (trim_space s))) (bytes "-"))
        (bytes "-"))

letter_of : ℕ → Char
letter_of c =
    if leb b'a' c && leb c b'z'
    then char_at "abcdefghijklmnopqrstuvwxyz" (c - b'a')
    else if leb b'0' c && leb c b'9'
    then char_at "0123456789" (c - b'0')
    else char_at "-" 0

-- A result of labelName as a text.
text_of_label : Bytes → String
unfolding letter_of
text_of_label [] = ""
text_of_label (c ∷ s) = String.◌∷◌ (letter_of c) (text_of_label s)

-- fmt.Sscanf with `%f` and `%d`, and the arithmetic of float64.
pub record Numbers : Type 1 where
  pub Float : Type 0
  pub scan_float : Bytes → Option Float
  pub scan_int : Bytes → Option ℤ
  pub scaled : Float → ℕ → ℤ
  pub is_positive : Float → Bool

module _ (numbers : Numbers) where
  scaled_or_zero : ℕ → Option numbers.Float → ℤ
  scaled_or_zero factor none = pos 0
  scaled_or_zero factor (some val) = numbers.scaled val factor

  int_or_zero : Option ℤ → ℤ
  int_or_zero none = pos 0
  int_or_zero (some val) = val

  unfoldable pub parse_memory : String → ℤ
  unfolding trim_right scaled_or_zero int_or_zero to_lower trim_space
  parse_memory memory =
      let s = trim_space (to_lower (bytes memory)) in
      if has_suffix s (bytes "g") || has_suffix s (bytes "gb")
      then scaled_or_zero 1024 (numbers.scan_float (trim_right s (bytes "gb")))
      else if has_suffix s (bytes "m") || has_suffix s (bytes "mb")
      then int_or_zero (numbers.scan_int (trim_right s (bytes "mb")))
      else pos 0

  positive_or_zero : Option numbers.Float → ℤ
  positive_or_zero none = pos 0
  positive_or_zero (some val) = if numbers.is_positive val then numbers.scaled val 100000 else pos 0

  unfoldable pub parse_cpus : String → ℤ
  unfolding positive_or_zero trim_space
  parse_cpus cpus = positive_or_zero (numbers.scan_float (trim_space (bytes cpus)))
