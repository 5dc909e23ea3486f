-- ===== src/Compose.antt =====
-- internal/compose/parser.go: the compose file, its environment variables and the order in which its
-- services start. The YAML parser and the text that `%v` prints for a value are parameters. A Go map
-- is an association list in the order in which a range over it visits the keys.
pub mod Order
pub mod Environment
pub mod Secrets
pub mod Stack
mod Tests
use text.Mathlib.Text.{◌==◌ as str_eq}
use Prim.Native.Char.{code}
use deploy_monster.Prelude.{
  ℕ, zero, suc, Bool, true, false, List, [], ◌∷◌, ◌++◌, Option, none, some, String, map, length,
  ltb, ◌^◌, ◌==◌, ◌⊎◌, inl, inr, if◌then◌else◌,
}
use deploy_monster.Prelude.Dict.{lookup, insert}
use deploy_monster.Prelude.Bytes.{Bytes}
use deploy_monster.Prelude.Names.{has}

-- A field of type `any`, as the YAML parser fills it.
pub data Value (Item : Type 0) : Type 0 where
  absent : Value Item
  scalar : Item → Value Item
  items : List Item → Value Item
  table : List (String × Item) → Value Item

pub record BuildConfig : Type 0 where
  pub context : String
  pub dockerfile : String
  pub args : List (String × String)
  pub target : String

pub record ResourceSpec : Type 0 where
  pub cpus : String
  pub memory : String

pub record ResourceConfig : Type 0 where
  pub limits : Option ResourceSpec
  pub reservations : Option ResourceSpec

pub record DeployConfig : Type 0 where
  pub replicas : ℕ
  pub labels : List (String × String)
  pub resources : Option ResourceConfig

-- The fields that the package reads.
pub record ServiceConfig (Item : Type 0) : Type 0 where
  pub image : String
  pub build : Option BuildConfig
  pub environment : Value Item
  pub depends_on : Value Item
  pub labels : List (String × String)
  pub restart : String
  pub deploy : Option DeployConfig
  pub resolved_env : List (String × String)

-- A service is a pointer, nil when its key has no value.
pub record ComposeFile (Item : Type 0) : Type 0 where
  pub version : String
  pub services : List (String × Option (ServiceConfig Item))

abbrev pub max_compose_yaml_size : ℕ
max_compose_yaml_size = 2 ^ 20

module _ {Item : Type 0} (show : Item → String) where
  -- parseDependsOn
  unfoldable pub parse_depends_on : Value Item → List String
  parse_depends_on absent = []
  parse_depends_on (scalar x) = []
  parse_depends_on (items xs) = map show xs
  parse_depends_on (table entries) = map (λ e. e.0) entries

  -- `deps` of a service, of which there are none if `svc == nil`.
  deps_of : Option (Option (ServiceConfig Item)) → List String
  unfolding parse_depends_on
  deps_of none = []
  deps_of (some none) = []
  deps_of (some (some svc)) = parse_depends_on svc.depends_on

  unfoldable pub deps : ComposeFile Item → String → List String
  unfolding deps_of
  deps cf name = deps_of (lookup name cf.services)

-- `strings.SplitN(s, "=", 2)`: what stands before the first `=`, and what behind it, if there is one.
unfoldable pub split_equals : String → String × Option String
split_equals String.[] = ("", none)
split_equals (String.◌∷◌ letter rest) =
    let (key, value) = split_equals rest in
    if code letter == b'=' then ("", some rest) else (String.◌∷◌ letter key, value)

abbrev pub or_empty : Option String → String
or_empty none = ""
or_empty (some value) = value

module _ {Item : Type 0} (show : Item → String) where
  -- The two loops of resolveEnv, from what `result` holds.
  unfoldable pub from_table : List (String × Item) → List (String × String) → List (String × String)
  from_table [] result = result
  from_table (e ∷ entries) result = from_table entries (insert e.0 (show e.1) result)

  unfoldable pub from_items : List Item → List (String × String) → List (String × String)
  unfolding split_equals
  from_items [] result = result
  from_items (x ∷ xs) result =
      let (key, value) = split_equals (show x) in from_items xs (insert key (or_empty value) result)

  unfoldable pub resolve_env : Value Item → List (String × String)
  unfolding from_table from_items
  resolve_env absent = []
  resolve_env (scalar x) = []
  resolve_env (items xs) = from_items xs []
  resolve_env (table entries) = from_table entries []

  abbrev pub blank : ServiceConfig Item
  blank = record {
    image = "";
    build = none;
    environment = absent;
    depends_on = absent;
    labels = [];
    restart = "";
    deploy = none;
    resolved_env = [];
  }

  -- The body of the loop of Parse: a nil service becomes an empty one.
  unfoldable pub resolved : Option (ServiceConfig Item) → Option (ServiceConfig Item)
  unfolding resolve_env
  resolved none = some (record blank { resolved_env = resolve_env blank.environment })
  resolved (some svc) = some (record svc { resolved_env = resolve_env svc.environment })

pub data ParseError (Error : Type 0) : Type 0 where
  too_large no_services : ParseError Error
  malformed : Error → ParseError Error

module _ {Item Error : Type 0} (show : Item → String)
    (unmarshal : Bytes → Error ⊎ ComposeFile Item) where
  unmarshalled : Error ⊎ ComposeFile Item → ParseError Error ⊎ ComposeFile Item
  unfolding resolved
  unmarshalled (inl why) = inl (malformed why)
  unmarshalled (inr cf) =
      if length cf.services == 0
      then inl no_services
      else inr (record cf { services = map (λ e. (e.0, resolved show e.1)) cf.services })

  unfoldable pub parse : Bytes → ParseError Error ⊎ ComposeFile Item
  unfolding unmarshalled
  parse text =
      if ltb max_compose_yaml_size (length text)
      then inl too_large
      else unmarshalled (unmarshal text)

-- The variables that the closure `visit` shares; the map as the list of its true keys.
pub record Visit : Type 0 where
  pub visited : List String
  pub order : List String

-- What follows a call, if that has a result.
abbrev pub and_then : Option Visit → (Visit → Option Visit) → Option Visit
and_then none next = none
and_then (some s) next = next s

unfoldable pub for_each : (String → Visit → Option Visit) → List String → Visit → Option Visit
for_each visit [] s = some s
for_each visit (d ∷ ds) s = and_then (visit d s) (for_each visit ds)

-- `visited[name] = true`
abbrev pub mark : String → Visit → Visit
mark name s = record s { visited = name ∷ s.visited }

-- `order = append(order, name)`
abbrev pub append : String → Visit → Visit
append name s = record s { order = s.order ++ (name ∷ []) }

-- `visit` on fuel: the depth of the calls. There is no result without fuel.
unfoldable pub visit : ℕ → (String → List String) → String → Visit → Option Visit
unfolding for_each
visit zero deps name s = none
visit (suc fuel) deps name s =
    let inner =
      and_then (for_each (visit fuel deps) (deps name) (mark name s)) (λ t. some (append name t)) in
    if has name s.visited then some s else inner

abbrev pub start : Visit
start = record { visited = []; order = [] }

-- The names of the services, in the order of a range over the map.
abbrev pub names : {Item : Type 0} → ComposeFile Item → List String
names cf = map (λ e. e.0) cf.services

abbrev pub order_of : Option Visit → Option (List String)
order_of none = none
order_of (some s) = some s.order

-- DependencyOrder, with a depth of calls of one more than there are services.
unfoldable pub dependency_order :
    {Item : Type 0} → (Item → String) → ComposeFile Item → Option (List String)
unfolding visit
dependency_order show cf =
    order_of (for_each (visit (suc (length cf.services)) (deps show cf)) (names cf) start)
