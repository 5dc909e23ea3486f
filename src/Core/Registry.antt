-- ===== src/Core/Registry.antt =====
-- internal/core/registry.go: registration, dependency order and lifecycle of the modules.
-- A module is its name with the names that it depends on; what its Init, Start and Stop do is a
-- parameter, a test that tells whether the call fails. Ranging over a Go map visits its keys in any
-- order: the argument `keys`.
pub mod Order
pub mod Fuel
pub mod Acyclic
pub mod Lifecycle
mod Tests
use text.Mathlib.Text.{◌==◌ as str_eq}
use mathlib.Core.List.{reverse}
use deploy_monster.Prelude.{
  ℕ, zero, suc, Bool, true, false, List, [], ◌∷◌, ◌++◌, Option, none, some, String, if◌then◌else◌,
  length, map,
}
use deploy_monster.Prelude.Dict.{lookup, insert}
use deploy_monster.Prelude.Names.{has, remove}

pub record Registry : Type 0 where
  pub modules : List (String × List String)
  pub order : List String

unfoldable pub new_registry : Registry
new_registry = record { modules = []; order = [] }

pub data Error : Type 0 where
  already_registered circular unknown : String → Error
  out_of_fuel : Error

-- A Go result `(value, error)` of which just one side is used.
pub data Result {ℓ} (Value : Type ℓ) : Type ℓ where
  err : Error → Result Value
  ok : Value → Result Value

-- `if err != nil { return err }`
module _ {ℓ κ} {Value : Type ℓ} {Next : Type κ} where
  infixl 5 ◌>>=◌
  abbrev pub ◌>>=◌ : Result Value → (Value → Result Next) → Result Next
  err why >>= next = err why
  ok value >>= next = next value

register_found : Option (List String) → Registry → String → List String → Result Registry
register_found (some old) r id deps = err (already_registered id)
register_found none r id deps = ok (record r { modules = insert id deps r.modules })

unfoldable pub register : Registry → String → List String → Result Registry
unfolding register_found
register r id deps = register_found (lookup id r.modules) r id deps

-- The variables that the closure `visit` shares; the two maps as the lists of their true keys.
pub record Visit : Type 0 where
  pub visited : List String
  pub visiting : List String
  pub sorted : List String

unfoldable pub for_each {ℓ} : {S : Type ℓ} → (String → S → Result S) → List String → S → Result S
for_each visit [] s = ok s
for_each visit (d ∷ ds) s = visit d s >>= for_each visit ds

-- `visiting[id] = true`
abbrev pub enter : String → Visit → Visit
enter id s = record s { visiting = id ∷ s.visiting }

-- `visiting[id] = false; visited[id] = true; sorted = append(sorted, id)`
unfoldable pub leave : String → Visit → Visit
unfolding remove
leave id s = record {
  visited = id ∷ s.visited;
  visiting = remove id s.visiting;
  sorted = s.sorted ++ (id ∷ []);
}

-- The part of `visit` that looks at the module, given how a dependency is visited.
unfoldable pub visit_module :
    (String → Visit → Result Visit) → String → Option (List String) → Visit → Result Visit
visit_module visit id none s = err (unknown id)
visit_module visit id (some deps) s = for_each visit deps (enter id s) >>= λ s'. ok (leave id s')

-- `visit` on fuel: the depth of the calls.
unfoldable pub visit : ℕ → List (String × List String) → String → Visit → Result Visit
unfolding visit_module
visit zero modules id s = err out_of_fuel
visit (suc fuel) modules id s =
    let found = visit_module (visit fuel modules) id (lookup id modules) s in
    if has id s.visited then ok s else if has id s.visiting then err (circular id) else found

abbrev pub start : Visit
start = record { visited = []; visiting = []; sorted = [] }

abbrev pub enough : List (String × List String) → ℕ
enough modules = suc (length modules)

-- The new order is stored only when every module has been visited.
unfoldable pub resolve : Registry → List String → Result Registry
resolve r keys = for_each (visit (enough r.modules) r.modules) keys start >>= λ s.
    ok (record r { order = s.sorted })

-- InitAll and StartAll: the calls made, and the module whose call failed.
unfoldable pub run_in_order : (String → Bool) → List String → List String × Option String
run_in_order fails [] = ([], none)
run_in_order fails (id ∷ ids) =
    let (calls, failed) = run_in_order fails ids in
    if fails id then (id ∷ [], some id) else (id ∷ calls, failed)

unfoldable pub init_all : (String → Bool) → Registry → List String × Option String
unfolding run_in_order
init_all fails r = run_in_order fails r.order

unfoldable pub start_all : (String → Bool) → Registry → List String × Option String
unfolding run_in_order
start_all fails r = run_in_order fails r.order

abbrev first_of_two : Option String → Option String → Option String
first_of_two none later = later
first_of_two (some id) later = some id

-- The loop of StopAll over the order from its end, with the first error so far.
stop_from : (String → Bool) → Option String → List String → List String × Option String
stop_from fails first [] = ([], first)
stop_from fails first (id ∷ ids) =
    let first' = first_of_two first (if fails id then some id else none) in
    let (calls, failed) = stop_from fails first' ids in (id ∷ calls, failed)

unfoldable pub stop_all : (String → Bool) → Registry → List String × Option String
unfolding stop_from
stop_all fails r = stop_from fails none (reverse r.order)

unfoldable pub get : Registry → String → Option (List String)
get r id = lookup id r.modules

unfoldable pub all : Registry → List String
all r = r.order

unfoldable pub health_all {ℓ} : {H : Type ℓ} → (String → H) → Registry → List (String × H)
health_all health r = map (λ m. (m.0, health m.0)) r.modules
