-- ===== src/Core/Registry/Fuel.antt =====
-- The recursion of `Resolve` ends: calls nest no deeper than the number of modules.
use text.Mathlib.TextEquality.{eq_iff}
use mathlib.Core.Path.{subst}
use deploy_monster.Prelude.{
  ℕ, zero, suc, ◌+◌, ◌≤◌, ◌<◌, ◌≡◌, ◌≢◌, refl, sym, ap, inl, inr, true, false, List, [], ◌∷◌,
  Option, none, some, String, arith, Bool-cases, length, map, length-map,
}
use deploy_monster.Prelude.Dict.{lookup}
use deploy_monster.Prelude.Names.{remove, has-remove, AllIn, has, Distinct}
use deploy_monster.Core.Registry.{
  Registry, Result, ok, err, ◌>>=◌, out_of_fuel, Visit, for_each, enter, leave, visit_module, visit,
  start, enough, resolve,
}
use deploy_monster.Core.Registry.Order.{Inv, Grew, Visits, visit-Visits, enter-Inv, start-Inv}

length-remove_le : (id : String) (xs : List String) → length (remove id xs) ≤ length xs
unfolding remove
length-remove_le id [] = omega arith
length-remove_le id (x ∷ xs) = ground (arith, length-remove_le id xs)

length-remove :
    (id : String) (xs : List String) → has id xs ≡ true → length (remove id xs) < length xs
unfolding has remove
length-remove id [] h = absurd (cc)
length-remove id (x ∷ xs) h = ground (arith, length-remove id xs, length-remove_le id xs)

AllIn-remove :
    (id : String) (xs ys : List String) → has id xs ≡ false → AllIn xs ys → AllIn xs (remove id ys)
unfolding has
AllIn-remove id [] ys h a = tt
AllIn-remove id (x ∷ xs) ys h (b, a) = (
  ground (arith, has-remove x id ys, eq_iff x id, eq_iff id x),
  AllIn-remove id xs ys (ground arith) a,
)

-- Names without repetition among some names are no more than those.
pigeonhole : (xs ys : List String) → Distinct xs → AllIn xs ys → length xs ≤ length ys
pigeonhole [] ys d a = omega arith
pigeonhole (x ∷ xs) ys (new, d) (b, a) =
    omega (arith, length-remove x ys b, pigeonhole xs (remove x ys) d (AllIn-remove x xs ys new a))

module _ (modules : List (String × List String)) where
  abbrev names : List String
  names = map (λ m. m.0) modules

  -- The stack of modules being visited.
  record IsStack (s : Visit) (fuel : ℕ) : Type 0 where
    inv : Inv modules s
    distinct : Distinct s.visiting
    registered : AllIn s.visiting names
    deep_enough : length modules < fuel + length s.visiting

registered_lookup :
    (modules : List (String × List String)) (id : String) (deps : List String)
    → lookup id modules ≡ some deps
    → has id (map (λ m. m.0) modules) ≡ true
unfolding lookup has
registered_lookup [] id deps h = absurd (cc)
registered_lookup ((k, v) ∷ modules) id deps h = ground (arith, registered_lookup modules id deps)

bind_ends :
    {A : Type 0} (m : Result Visit) (f : Visit → Result A)
    → m ≢ err out_of_fuel
    → ((t : Visit) → m ≡ ok t → f t ≢ err out_of_fuel)
    → (m >>= f) ≢ err out_of_fuel
bind_ends (ok t) f h k = k t refl
bind_ends (err x) f h k = λ e. h (ground arith)

module _ (modules : List (String × List String)) where
  abbrev Ends : ℕ → (String → Visit → Result Visit) → Type 0
  Ends fuel g = (d : String) (s : Visit) → IsStack modules s fuel → g d s ≢ err out_of_fuel

  moved-IsStack :
      (s t : Visit) (fuel : ℕ) → IsStack modules s fuel → Grew modules s t → IsStack modules t fuel
  moved-IsStack s t fuel k g = record {
    inv = g.inv;
    distinct = subst Distinct (sym g.back) k.distinct;
    registered = subst (λ v. AllIn v (names modules)) (sym g.back) k.registered;
    deep_enough = omega (arith, k.deep_enough, ap length g.back);
  }

  for_each-Ends :
      (g : String → Visit → Result Visit) (fuel : ℕ)
      → Visits modules g
      → Ends fuel g
      → (ds : List String) (s : Visit) → IsStack modules s fuel
      → for_each g ds s ≢ err out_of_fuel
  unfolding for_each
  for_each-Ends g fuel visits ends [] s k = λ e. cc
  for_each-Ends g fuel visits ends (d ∷ ds) s k =
      bind_ends (g d s) (for_each g ds) (ends d s k) (λ t first.
        for_each-Ends g fuel visits ends ds t
          (moved-IsStack s t fuel k (visits d s t k.inv first).0))

  entered-IsStack :
      (id : String) (deps : List String) (s : Visit) (fuel : ℕ)
      → lookup id modules ≡ some deps
      → has id s.visited ≡ false
      → has id s.visiting ≡ false
      → IsStack modules s (suc fuel)
      → IsStack modules (enter id s) fuel
  entered-IsStack id deps s fuel found new free k = record {
    inv = enter-Inv modules id s k.inv new;
    distinct = (free, k.distinct);
    registered = (registered_lookup modules id deps found, k.registered);
    deep_enough = omega (arith, k.deep_enough);
  }

  visit_module-Ends :
      (g : String → Visit → Result Visit) (fuel : ℕ) (id : String) (found : Option (List String))
      (s : Visit)
      → Visits modules g
      → Ends fuel g
      → lookup id modules ≡ found
      → has id s.visited ≡ false
      → has id s.visiting ≡ false
      → IsStack modules s (suc fuel)
      → visit_module g id found s ≢ err out_of_fuel
  unfolding visit_module
  visit_module-Ends g fuel id none s visits ends found new free k = λ e. cc
  visit_module-Ends g fuel id (some deps) s visits ends found new free k =
      bind_ends (for_each g deps (enter id s)) (λ t. ok (leave id t))
        (for_each-Ends g fuel visits ends deps (enter id s)
          (entered-IsStack id deps s fuel found new free k))
        (λ t _ e. cc)

  visit-Ends : (fuel : ℕ) → Ends fuel (visit fuel modules)
  unfolding visit
  visit-Ends zero d s k = absurd (
      omega (
        arith,
        k.deep_enough,
        pigeonhole s.visiting (names modules) k.distinct k.registered,
        length-map modules (λ m. m.0),
      ))
  visit-Ends (suc fuel) d s k = elim (Bool-cases (has d s.visited)) [
    | inl seen ↦ λ e. ground arith
    | inr new ↦ elim (Bool-cases (has d s.visiting)) [
      | inl busy ↦ λ e. ground arith
      | inr free ↦ λ e.
          visit_module-Ends (visit fuel modules) fuel d (lookup d modules) s
            (visit-Visits modules fuel) (visit-Ends fuel) refl new free k (ground arith)
    ]
  ]

-- Whatever the modules, with cycles and unknown names too, and in whatever order their keys are
-- visited: `Resolve` ends, with calls of `visit` nested at most one deeper than there are modules.
pub resolve_ends : (r : Registry) (keys : List String) → resolve r keys ≢ err out_of_fuel
unfolding resolve
resolve_ends r keys =
    let m = r.modules in
    bind_ends (for_each (visit (enough m) m) keys start) (λ s. ok (record r { order = s.sorted }))
      (for_each-Ends m (visit (enough m) m) (enough m) (visit-Visits m (enough m))
        (visit-Ends m (enough m)) keys start
        (record { inv = start-Inv m; distinct = tt; registered = tt; deep_enough = omega arith }))
      (λ t _ e. cc)
