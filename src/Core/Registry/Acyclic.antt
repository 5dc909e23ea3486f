-- ===== src/Core/Registry/Acyclic.antt =====
-- Modules with known dependencies and no cycle are always resolved.
use text.Mathlib.Text.{◌==◌ as str_eq}
use text.Mathlib.TextEquality.{eq_iff}
use mathlib.Core.Path.{subst}
use deploy_monster.Prelude.{
  ℕ, zero, suc, ◌<◌, ◌≡◌, ◌≢◌, refl, sym, ap, ◌∙◌, inl, inr, true, false, List, [], ◌∷◌, Option,
  none, some, String, arith, Bool-cases,
}
use deploy_monster.Prelude.Dict.{lookup}
use deploy_monster.Prelude.Find.{All}
use deploy_monster.Prelude.Names.{has}
use deploy_monster.Core.Registry.{
  Registry, Result, ok, err, ◌>>=◌, out_of_fuel, circular, unknown, already_registered, Visit,
  for_each, enter, leave, visit_module, visit, start, enough, resolve,
}
use deploy_monster.Core.Registry.Order.{Inv, Grew, Visits, visit-Visits, enter-Inv, start-Inv}
use deploy_monster.Core.Registry.Fuel.{resolve_ends}

-- Neither a cycle nor an unknown name was met.
abbrev IsFine {ℓ} : {A : Type ℓ} → Result A → Type 0
IsFine (ok a) = Unit
IsFine (err out_of_fuel) = Unit
IsFine (err x) = ⊥

abbrev pub IsRegistered : List (String × List String) → String → Type 0
IsRegistered modules id = (deps : List String) × (lookup id modules ≡ some deps)

-- A rank that falls along every dependency, and every dependency is registered.
abbrev pub IsLower : (String → ℕ) → List (String × List String) → String → List String → Type 0
IsLower rank modules id = All (λ d. (rank d < rank id) × IsRegistered modules d)

abbrev pub IsRanked : (String → ℕ) → List (String × List String) → Type 0
IsRanked rank modules = All (λ m. IsLower rank modules m.0 m.1) modules

lookup_ranked :
    (rank : String → ℕ) (modules ms : List (String × List String)) (id : String)
    (deps : List String)
    → All (λ m. IsLower rank modules m.0 m.1) ms
    → lookup id ms ≡ some deps
    → IsLower rank modules id deps
unfolding lookup
lookup_ranked rank modules [] id deps h e = absurd (cc)
lookup_ranked rank modules ((k, v) ∷ ms) id deps (low, h) e = elim (Bool-cases (str_eq k id)) [
  | inl t ↦
      let same_id : k ≡ id = (eq_iff k id).0 t in
      let same_deps : v ≡ deps = ground arith in
      subst (λ x. IsLower rank modules x deps) same_id
        (subst (IsLower rank modules k) same_deps low)
  | inr f ↦ lookup_ranked rank modules ms id deps h (ground arith)
]

bind-IsFine :
    {A : Type 0} (m : Result Visit) (f : Visit → Result A)
    → IsFine m
    → ((t : Visit) → m ≡ ok t → IsFine (f t))
    → IsFine (m >>= f)
bind-IsFine (ok t) f h k = k t refl
bind-IsFine (err out_of_fuel) f h k = tt
bind-IsFine (err (circular x)) f h k = h
bind-IsFine (err (unknown x)) f h k = h
bind-IsFine (err (already_registered x)) f h k = h

module _ (rank : String → ℕ) (modules : List (String × List String)) where
  -- Every module being visited ranks above `d`.
  abbrev Above : String → Visit → Type 0
  Above d s = (j : String) → has j s.visiting ≡ true → rank d < rank j

  abbrev GoesFine : (String → Visit → Result Visit) → Type 0
  GoesFine g =
      (d : String) (s : Visit) → Inv modules s → IsRegistered modules d → Above d s → IsFine (g d s)

  for_each-IsFine :
      (g : String → Visit → Result Visit)
      → Visits modules g
      → GoesFine g
      → (ds : List String) (s : Visit) → Inv modules s
      → All (λ d. Above d s × IsRegistered modules d) ds
      → IsFine (for_each g ds s)
  unfolding for_each
  for_each-IsFine g visits fine [] s v h = tt
  for_each-IsFine g visits fine (d ∷ ds) s v ((above, known), h) =
      bind-IsFine (g d s) (for_each g ds) (fine d s v known above) (λ t first.
        let grew = (visits d s t v first).0 in
        for_each-IsFine g visits fine ds t grew.inv (carried t grew ds h))
    where
      carried :
          (t : Visit)
          → Grew modules s t
          → (ds : List String) → All (λ d. Above d s × IsRegistered modules d) ds
          → All (λ d. Above d t × IsRegistered modules d) ds
      carried t grew [] h = tt
      carried t grew (d ∷ ds) ((above, known), h) =
          ((λ j k. above j (sym (ap (has j) grew.back) ∙ k), known), carried t grew ds h)

  deps-Above :
      (id : String) (s : Visit) (deps : List String)
      → Above id s
      → All (λ d. (rank d < rank id) × IsRegistered modules d) deps
      → All (λ d. Above d (enter id s) × IsRegistered modules d) deps
  unfolding has
  deps-Above id s [] above h = tt
  deps-Above id s (d ∷ deps) above ((lower, known), h) =
      ((λ j k. higher d lower j k, known), deps-Above id s deps above h)
    where
      higher :
          (d : String)
          → rank d < rank id
          → (j : String) → has j (id ∷ s.visiting) ≡ true
          → rank d < rank j
      higher d lower j k = elim (Bool-cases (has j s.visiting)) [
        | inl busy ↦ omega (arith, above j busy)
        | inr f ↦ let e : id ≡ j = ground (arith, eq_iff id j) in omega (arith, ap rank e)
      ]

  visit_module-IsFine :
      (g : String → Visit → Result Visit) (id : String) (found : Option (List String)) (s : Visit)
      → IsRanked rank modules
      → Visits modules g
      → GoesFine g
      → lookup id modules ≡ found
      → IsRegistered modules id
      → Inv modules s
      → has id s.visited ≡ false
      → Above id s
      → IsFine (visit_module g id found s)
  unfolding visit_module
  visit_module-IsFine g id none s ranked visits fine found (deps, known) v new above = cc
  visit_module-IsFine g id (some deps) s ranked visits fine found known v new above =
      bind-IsFine (for_each g deps (enter id s)) (λ t. ok (leave id t))
        (for_each-IsFine g visits fine deps (enter id s) (enter-Inv modules id s v new)
          (deps-Above id s deps above (lookup_ranked rank modules modules id deps ranked found)))
        (λ t _. tt)

  visit-GoesFine : IsRanked rank modules → (fuel : ℕ) → GoesFine (visit fuel modules)
  unfolding visit
  visit-GoesFine ranked zero d s v known above = tt
  visit-GoesFine ranked (suc fuel) d s v known above = elim (Bool-cases (has d s.visited)) [
    | inl seen ↦ rw seen tt
    | inr new ↦ elim (Bool-cases (has d s.visiting)) [
      | inl busy ↦ absurd (omega (arith, above d busy))
      | inr free ↦
          rw (new, free)
            (visit_module-IsFine (visit fuel modules) d (lookup d modules) s ranked
              (visit-Visits modules fuel) (visit-GoesFine ranked fuel) refl known v new above)
    ]
  ]

fine_ends : (m : Result Registry) → IsFine m → m ≢ err out_of_fuel → (r' : Registry) × (m ≡ ok r')
fine_ends (ok r') f h = (r', refl)
fine_ends (err out_of_fuel) f h = absurd (h refl)
fine_ends (err (circular x)) f h = absurd f
fine_ends (err (unknown x)) f h = absurd f
fine_ends (err (already_registered x)) f h = absurd f

-- If every dependency is registered and some rank falls along every dependency (so there is no
-- cycle), `Resolve` succeeds, in whatever order it visits the registered keys.
pub resolve_complete :
    (rank : String → ℕ) (r : Registry) (keys : List String)
    → IsRanked rank r.modules
    → All (IsRegistered r.modules) keys
    → (r' : Registry) × (resolve r keys ≡ ok r')
resolve_complete rank r keys ranked known = fine_ends (resolve r keys) fine (resolve_ends r keys)
  where
    idle :
        (ds : List String)
        → All (IsRegistered r.modules) ds
        → All (λ d. Above rank r.modules d start × IsRegistered r.modules d) ds
    idle [] h = tt
    idle (d ∷ ds) (k, h) = ((λ j b. absurd (unfold has in cc), k), idle ds h)

    fine : IsFine (resolve r keys)
    fine =
        unfold resolve in
        bind-IsFine (for_each (visit (enough r.modules) r.modules) keys start)
          (λ s. ok (record r { order = s.sorted }))
          (for_each-IsFine rank r.modules (visit (enough r.modules) r.modules)
            (visit-Visits r.modules (enough r.modules))
            (visit-GoesFine rank r.modules ranked (enough r.modules)) keys start
            (start-Inv r.modules) (idle keys known))
          (λ t _. tt)
