-- ===== src/Core/Registry/Tests.antt =====
-- The registry at concrete modules.
use deploy_monster.Prelude.{
  ℕ, ◌≡◌, ◌≢◌, refl, Bool, List, [], ◌∷◌, none, String, arith, if◌then◌else◌,
}
use text.Mathlib.Text.{◌==◌}
use deploy_monster.Prelude.Dict.{lookup}
use deploy_monster.Prelude.Find.{find}
use deploy_monster.Prelude.Names.{AllIn, has}
use deploy_monster.Core.Registry.{
  Registry, ok, err, circular, out_of_fuel, resolve, init_all, start_all, stop_all, visit, for_each,
  leave,
}
use deploy_monster.Core.Registry.Order.{DepsFirst, resolve_sound}
use deploy_monster.Core.Registry.Fuel.{resolve_ends}
use deploy_monster.Core.Registry.Acyclic.{IsRanked, resolve_complete}
use deploy_monster.Core.Registry.Lifecycle.{init_all_in_order, stop_all_in_reverse}

tests : Unit {0}
unfolding resolve visit for_each leave lookup has
tests = tt

abbrev platform : Registry
platform = record {
  modules = ("deploy", "db" ∷ "events" ∷ []) ∷ ("db", []) ∷ ("events", "db" ∷ []) ∷ [];
  order = [];
}

abbrev keys : List String
keys = "events" ∷ "deploy" ∷ "db" ∷ []

abbrev resolved : Registry
resolved = record platform { order = "db" ∷ "events" ∷ "deploy" ∷ [] }

platform_resolves : resolve platform keys ≡ ok resolved
unfolding tests
platform_resolves = refl

cycle_found :
    resolve (record { modules = ("a", "b" ∷ []) ∷ ("b", "a" ∷ []) ∷ []; order = [] }) ("a" ∷ [])
    ≡ err (circular "a")
unfolding tests
cycle_found = refl

resolve_sound_example :
    (resolved.modules ≡ platform.modules)
    × AllIn keys resolved.order
    × DepsFirst platform.modules [] resolved.order
resolve_sound_example = resolve_sound platform resolved keys platform_resolves

cycle_ends : resolve platform keys ≢ err out_of_fuel
cycle_ends = resolve_ends platform keys

-- How far a module stands from those with no dependency.
abbrev rank : String → ℕ
rank id = if id == "deploy" then 2 else if id == "events" then 1 else 0

platform-IsRanked : IsRanked rank platform.modules
unfolding lookup
platform-IsRanked = (
  ((omega arith, ([], refl)), ((omega arith, ("db" ∷ [], refl)), tt)),
  (tt, (((omega arith, ([], refl)), tt), tt)),
)

resolve_complete_example : (r' : Registry) × (resolve platform keys ≡ ok r')
unfolding lookup
resolve_complete_example =
    resolve_complete rank platform keys platform-IsRanked
      (("db" ∷ [], refl), (("db" ∷ "events" ∷ [], refl), (([], refl), tt)))

failing : String → Bool
failing id = id == "events"

modules_initialised :
    DepsFirst platform.modules [] (init_all failing resolved).0
    × ((init_all failing resolved).1 ≡ find failing resolved.order)
    × ((init_all failing resolved).1 ≡ none → (init_all failing resolved).0 ≡ resolved.order)
    × (start_all failing resolved ≡ init_all failing resolved)
modules_initialised = init_all_in_order platform resolved keys failing platform_resolves

stop_all_in_reverse_example :
    ((stop_all failing resolved).0 ≡ "deploy" ∷ "events" ∷ "db" ∷ [])
    × ((stop_all failing resolved).1 ≡ find failing ("deploy" ∷ "events" ∷ "db" ∷ []))
stop_all_in_reverse_example = stop_all_in_reverse resolved failing
