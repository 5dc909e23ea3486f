-- ===== src/Core/Registry/Order.antt =====
-- A resolved order lists every module once, behind its dependencies.
use text.Mathlib.Text.{◌==◌ as str_eq}
use text.Mathlib.TextEquality.{eq_iff}
use mathlib.Core.Path.{subst}
use deploy_monster.Prelude.{
  ℕ, zero, suc, ◌≡◌, refl, sym, ap, ◌∙◌, inl, inr, true, false, List, [], ◌∷◌, Option, none, some,
  String, arith, Bool-cases,
}
use deploy_monster.Prelude.Dict.{lookup}
use deploy_monster.Prelude.Names.{
  remove, has, has-append, AllIn, AllIn-cong, Local, InTurn, InTurn-append,
}
use deploy_monster.Core.Registry.{
  Registry, Result, ok, err, ◌>>=◌, Visit, for_each, enter, leave, visit_module, visit, start,
  enough, resolve,
}

-- A sequence that succeeds ran both of its parts.
module _ {ℓ κ} {First : Type ℓ} {Last : Type κ} where
  pub succeeds_both :
      (step : Result First) (next : First → Result Last) {out : Last}
      → (step >>= next) ≡ ok out
      → (mid : First) × (step ≡ ok mid) × (next mid ≡ ok out)
  succeeds_both (err why) next run = absurd (cc)
  succeeds_both (ok mid) next run = (mid, refl, run)

-- A name is registered and has its dependencies among `seen`.
abbrev pub IsReady : List (String × List String) → String → List String → Type 0
IsReady modules x seen = (deps : List String) × (lookup x modules ≡ some deps) × AllIn deps seen

-- Behind the names `seen`: no name is repeated, and each is registered and has its dependencies
-- before it.
abbrev pub DepsFirst : List (String × List String) → List String → List String → Type 0
DepsFirst modules = InTurn (IsReady modules)

IsReady-Local : (modules : List (String × List String)) → Local (IsReady modules)
IsReady-Local modules x a b e (deps, found, h) = (deps, found, AllIn-cong deps a b e h)

remove_absent : (id : String) (xs : List String) → has id xs ≡ false → remove id xs ≡ xs
unfolding has remove
remove_absent id [] h = refl
remove_absent id (x ∷ xs) h = ground (arith, remove_absent id xs)

remove_head : (id : String) (xs : List String) → has id xs ≡ false → remove id (id ∷ xs) ≡ xs
unfolding remove
remove_head id xs h = ground (arith, eq_iff id id, remove_absent id xs h)

pub record Inv (modules : List (String × List String)) (s : Visit) : Type 0 where
  pub same : (j : String) → has j s.visited ≡ has j s.sorted
  pub apart : (j : String) → has j s.visiting ≡ true → has j s.visited ≡ false
  pub ordered : DepsFirst modules [] s.sorted

-- From one state of the search to a later one, between two visits of one list of dependencies.
pub record Grew (modules : List (String × List String)) (s s' : Visit) : Type 0 where
  pub inv : Inv modules s'
  pub back : s'.visiting ≡ s.visiting
  pub keeps : (j : String) → has j s.visited ≡ true → has j s'.visited ≡ true

module _ (modules : List (String × List String)) where
  -- A visit that succeeds, of any function in the place of `visit`.
  abbrev pub Visits : (String → Visit → Result Visit) → Type 0
  Visits g =
      (d : String) (s s' : Visit)
      → Inv modules s
      → g d s ≡ ok s'
      → Grew modules s s' × (has d s'.visited ≡ true)

  pub for_each-Grew :
      (g : String → Visit → Result Visit)
      → Visits g
      → (ds : List String) (s s' : Visit) → Inv modules s
      → for_each g ds s ≡ ok s'
      → Grew modules s s' × AllIn ds s'.visited
  unfolding for_each
  for_each-Grew g visits [] s s' v e =
      let same : s ≡ s' = cc in
      (subst (Grew modules s) same (record { inv = v; back = refl; keeps = λ j h. h }), tt)
  for_each-Grew g visits (d ∷ ds) s s' v e =
      let (t, first, rest) = succeeds_both (g d s) (for_each g ds) e in
      let (gt, in_t) = visits d s t v first in
      let (gs, in_s) = for_each-Grew g visits ds t s' gt.inv rest in
      (
        record { inv = gs.inv; back = gs.back ∙ gt.back; keeps = λ j h. gs.keeps j (gt.keeps j h) },
        (gs.keeps d in_t, in_s),
      )

  pub enter-Inv :
      (id : String) (s : Visit)
      → Inv modules s
      → has id s.visited ≡ false
      → Inv modules (enter id s)
  unfolding has
  enter-Inv id s v new = record {
    same = v.same;
    apart = λ j h. ground (arith, eq_iff id j, v.apart j);
    ordered = v.ordered;
  }

  leave-Grew :
      (id : String) (deps : List String) (s t : Visit)
      → lookup id modules ≡ some deps
      → has id s.visited ≡ false
      → has id s.visiting ≡ false
      → Grew modules (enter id s) t
      → AllIn deps t.visited
      → Grew modules s (leave id t) × (has id (leave id t).visited ≡ true)
  unfolding leave has
  leave-Grew id deps s t found new free g h =
      let back : remove id t.visiting ≡ s.visiting =
        ap (remove id) g.back ∙ remove_head id s.visiting free in
      let held : has id t.visiting ≡ true =
        ap (has id) g.back ∙ (unfold has in ground (arith, eq_iff id id)) in
      (
        record {
          inv = record {
            same = λ j. ground (arith, g.inv.same j, has-append j t.sorted (id ∷ []));
            apart = λ j k. apart_of j (sym (ap (has j) back) ∙ k);
            ordered =
                InTurn-append (IsReady modules) (IsReady-Local modules) [] t.sorted t.visited id
                  g.inv.same (g.inv.apart id held) (deps, found, h) g.inv.ordered;
          };
          back = back;
          keeps = λ j k. ground (arith, g.keeps j k);
        },
        ground (arith, eq_iff id id),
      )
    where
      apart_of : (j : String) → has j s.visiting ≡ true → has j (id ∷ t.visited) ≡ false
      apart_of j k = elim (Bool-cases (str_eq id j)) [
        | inl e ↦
            let moved = ap (λ x. has x s.visiting) ((eq_iff id j).0 e) in
            absurd (cc (k, free, moved))
        | inr f ↦
            let stays : has j t.visiting ≡ true = ap (has j) g.back ∙ ground arith in
            ground (arith, g.inv.apart j stays)
      ]

  visit_module-Grew :
      (g : String → Visit → Result Visit) (id : String) (found : Option (List String))
      (s s' : Visit)
      → Visits g
      → lookup id modules ≡ found
      → Inv modules s
      → has id s.visited ≡ false
      → has id s.visiting ≡ false
      → visit_module g id found s ≡ ok s'
      → Grew modules s s' × (has id s'.visited ≡ true)
  unfolding visit_module
  visit_module-Grew g id none s s' visits found v new free e = absurd (cc)
  visit_module-Grew g id (some deps) s s' visits found v new free e =
      let (t, inner, last) =
        succeeds_both (for_each g deps (enter id s)) (λ t. ok (leave id t)) e in
      let (grew, all_in) =
        for_each-Grew g visits deps (enter id s) t (enter-Inv id s v new) inner in
      let done : leave id t ≡ s' = cc in
      subst (λ x. Grew modules s x × (has id x.visited ≡ true)) done
        (leave-Grew id deps s t found new free grew all_in)

  pub visit-Visits : (fuel : ℕ) → Visits (visit fuel modules)
  unfolding visit
  visit-Visits zero d s s' v e = absurd (cc)
  visit-Visits (suc fuel) d s s' v e = elim (Bool-cases (has d s.visited)) [
    | inl seen ↦
        let same : s ≡ s' = ground arith in
        subst (λ x. Grew modules s x × (has d x.visited ≡ true)) same
          (record { inv = v; back = refl; keeps = λ j h. h }, seen)
    | inr new ↦ elim (Bool-cases (has d s.visiting)) [
      | inl busy ↦ absurd (ground arith)
      | inr free ↦
          visit_module-Grew (visit fuel modules) d (lookup d modules) s s' (visit-Visits fuel) refl
            v new free (ground arith)
    ]
  ]

  pub start-Inv : Inv modules start
  unfolding has
  start-Inv = record { same = λ j. refl; apart = λ j h. cc; ordered = tt }

-- When `Resolve` succeeds, the modules stay as they are, and the order that it stores lists every
-- key; no name stands in it twice; and each name in it is registered and stands behind all its
-- dependencies.
pub resolve_sound :
    (r r' : Registry) (keys : List String)
    → resolve r keys ≡ ok r'
    → (r'.modules ≡ r.modules) × AllIn keys r'.order × DepsFirst r.modules [] r'.order
unfolding resolve
resolve_sound r r' keys e =
    let m = r.modules in
    let (s, found, last) =
      succeeds_both (for_each (visit (enough m) m) keys start)
        (λ s. ok (record r { order = s.sorted })) e in
    let (grew, all_in) =
      for_each-Grew m (visit (enough m) m) (visit-Visits m (enough m)) keys start s (start-Inv m)
        found in
    let done : record r { order = s.sorted } ≡ r' = cc in
    (
      sym (ap (λ x. x.modules) done),
      subst (λ x. AllIn keys x.order) done
          (AllIn-cong keys s.visited s.sorted grew.inv.same all_in),
      subst (λ x. DepsFirst r.modules [] x.order) done grew.inv.ordered,
    )
