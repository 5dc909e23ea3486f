-- ===== src/Compose/Order.antt =====
-- The order in which the services of a compose file start: complete, without repetition, and with
-- each dependency first unless the two stand on a cycle.
pub mod Search
use mathlib.Core.Path.{subst}
use text.Mathlib.Text.{◌==◌ as str_eq}
use deploy_monster.Prelude.{
  ℕ, suc, ◌+◌, ◌≤◌, ◌<◌, ◌≡◌, refl, sym, ap, ◌∙◌, ◌⊎◌, inl, inr, Bool, true, false, not, ◌&&◌, ◌||◌,
  List, [], ◌∷◌, Option, none, some, String, arith, Bool-cases, length, map, length-map,
}
use deploy_monster.Prelude.Dict.{lookup}
use deploy_monster.Prelude.Find.{count_if}
use deploy_monster.Prelude.Names.{has, AllIn, AllIn-cong, InTurn}
use deploy_monster.Compose.{
  ComposeFile, ServiceConfig, Visit, for_each, visit, start, order_of, names, deps, deps_of,
  dependency_order,
}
use deploy_monster.Compose.Order.Search.{
  IsReady, IsWanted, Inv, Grew, busy, unvisited, for_each-Grew, visit-Grew, start-Inv,
}

-- A name that stands in `order` and not in `seen` is a service or a dependency.
abbrev pub Orders : (String → List String) → List String → List String → Type 0
Orders deps entries order =
    AllIn entries order
    × InTurn (IsReady deps) [] order
    × ((j : String) → has j order ≡ true → IsWanted deps entries j)

neither : (a b : Bool) → (a || b) ≡ false → (a ≡ false) × (b ≡ false)
neither a b h = (ground arith, ground arith)

not_a_service :
    {Item : Type 0} (show : Item → String) (x : String)
    (services : List (String × Option (ServiceConfig Item)))
    → has x (map (λ e. e.0) services) ≡ false
    → deps_of show (lookup x services) ≡ []
unfolding has lookup deps_of
not_a_service show x [] h = refl
not_a_service show x (e ∷ services) h =
    let (other, later) = neither (str_eq e.0 x) (has x (map (λ e. e.0) services)) h in
    rw (other) (not_a_service show x services later)

unvisited_all : (entries : List String) → unvisited entries [] ≤ length entries
unfolding unvisited count_if has
unvisited_all [] = omega arith
unvisited_all (x ∷ entries) = ground (arith, unvisited_all entries)

all_listed :
    (s : Visit)
    → ((j : String) → busy s j ≡ false)
    → (j : String) → has j s.visited ≡ true
    → has j s.order ≡ true
all_listed s idle j h = ground (arith, idle j)

AllIn-mono :
    (ids a b : List String)
    → ((j : String) → has j a ≡ true → has j b ≡ true)
    → AllIn ids a
    → AllIn ids b
AllIn-mono [] a b keeps h = tt
AllIn-mono (d ∷ ids) a b keeps (k, h) = (keeps d k, AllIn-mono ids a b keeps h)

-- `DependencyOrder` ends for every compose file, with calls of `visit` nested at most one deeper than
-- there are services, also where dependencies form cycles or name no service. The order lists every
-- service; no name twice; nothing but services and names that some service depends on; and each
-- dependency of a name stands before it, unless the dependency in turn needs the name.
pub dependency_order_sound :
    {Item : Type 0} (show : Item → String) (cf : ComposeFile Item)
    → (order : List String) × (dependency_order show cf ≡ some order)
      × Orders (deps show cf) (names cf) order
unfolding dependency_order deps has
dependency_order_sound show cf =
    let d = deps show cf in
    let (s, run, g, in_s) =
      for_each-Grew d (names cf) (suc (length cf.services)) (visit (suc (length cf.services)) d)
        (visit-Grew d (names cf) (λ x. not_a_service show x cf.services) (suc (length cf.services)))
        (names cf) start (start-Inv d (names cf))
        (λ e h. record {
          wanted = inl h;
          paths = λ j k. absurd (ground arith);
          room = omega (arith, unvisited_all (names cf), length-map cf.services (λ e. e.0));
        }) in
    (
      s.order,
      ap order_of run,
      (
        AllIn-mono (names cf) s.visited s.order (all_listed s g.stack) in_s,
        g.inv.in_turn,
        λ j h. g.inv.wanted j (g.inv.listed j h),
      ),
    )
