-- ===== src/Compose/Tests.antt =====
-- Compose files at concrete services.
use deploy_monster.Prelude.{◌≡◌, refl, List, [], ◌∷◌, Option, none, some, String, map}
use deploy_monster.Prelude.Dict.{lookup, insert}
use deploy_monster.Prelude.Names.{has}
use deploy_monster.Compose.{
  ComposeFile, ServiceConfig, items, blank, deps, names, parse_depends_on, dependency_order, visit,
  for_each, resolve_env, from_items, from_table, split_equals, deps_of,
}
use deploy_monster.Compose.Order.{Orders, dependency_order_sound}
use deploy_monster.Compose.Environment.{render, resolve_env-render}

tests : Unit {0}
unfolding insert dependency_order visit for_each lookup has deps deps_of parse_depends_on
    resolve_env from_items from_table split_equals
tests = tt

abbrev shown : String → String
shown item = item

abbrev needs : List String → Option (ServiceConfig String)
needs others = some (record (blank shown) { depends_on = items others })

-- `web` and `worker` need each other, `db` has no value, and `cache` is no service.
abbrev shop : ComposeFile String
shop = record {
  version = "";
  services =
      ("web", needs ("db" ∷ "worker" ∷ []))
      ∷ ("worker", needs ("web" ∷ "cache" ∷ []))
      ∷ ("db", none)
      ∷ [];
}

shop_order : dependency_order shown shop ≡ some ("db" ∷ "cache" ∷ "worker" ∷ "web" ∷ [])
unfolding tests
shop_order = refl

dependency_order_sound_example :
    (order : List String) × (dependency_order shown shop ≡ some order)
    × Orders (deps shown shop) (names shop) order
dependency_order_sound_example = dependency_order_sound shown shop

abbrev variables : List (String × String)
variables = ("URL", "a=b") ∷ ("MODE", "") ∷ ("URL", "c") ∷ []

variables_read :
    resolve_env shown (items ("URL=a=b" ∷ "MODE" ∷ [])) ≡ ("URL", "a=b") ∷ ("MODE", "") ∷ []
unfolding tests
variables_read = refl

resolve_env-render_example :
    lookup "URL" (resolve_env shown (items (map render variables))) ≡ some "c"
resolve_env-render_example = resolve_env-render "URL" variables (
  (refl, (refl, (refl, tt))),
  ((refl, (refl, (refl, (refl, tt)))), ((refl, (refl, (refl, tt))), tt)),
)
