-- ===== src/Compose/Order/Search.antt =====
-- The search of `DependencyOrder`: what a visit adds, and that its calls do not nest too deep.
use text.Mathlib.Text.{◌==◌ as str_eq}
use text.Mathlib.TextEquality.{eq_iff}
use mathlib.Core.Path.{subst}
use deploy_monster.Prelude.{
  ℕ, zero, suc, ◌≤◌, ◌<◌, ◌≡◌, refl, sym, ◌∙◌, ◌⊎◌, inl, inr, Bool, true, false, not, ◌&&◌, List,
  [], ◌∷◌, Option, some, String, arith, Bool-cases,
}
use deploy_monster.Prelude.Find.{All, count_if}
use deploy_monster.Prelude.Names.{has, has-append, AllIn, Local, InTurn, InTurn-append}
use deploy_monster.Compose.{Visit, for_each, mark, append, visit, start}

-- `y` is `x`, or a dependency of a dependency, and so on, of `x`.
pub data Reach (deps : String → List String) (x : String) : String → Type 0 where
  here : Reach deps x x
  further : {y z : String} → Reach deps x y → has z (deps y) ≡ true → Reach deps x z

-- `x` has each dependency among `seen`, except for those that in turn need `x`.
abbrev pub IsReady : (String → List String) → String → List String → Type 0
IsReady deps x seen = All (λ d. (has d seen ≡ true) ⊎ Reach deps d x) (deps x)

All-ready :
    (deps : String → List String) (x : String) (a b ds : List String)
    → ((d : String) → has d a ≡ has d b)
    → All (λ d. (has d a ≡ true) ⊎ Reach deps d x) ds
    → All (λ d. (has d b ≡ true) ⊎ Reach deps d x) ds
All-ready deps x a b [] e h = tt
All-ready deps x a b (d ∷ ds) e (inl k, h) = (inl (sym (e d) ∙ k), All-ready deps x a b ds e h)
All-ready deps x a b (d ∷ ds) e (inr r, h) = (inr r, All-ready deps x a b ds e h)

IsReady-Local : (deps : String → List String) → Local (IsReady deps)
IsReady-Local deps x a b e h = All-ready deps x a b (deps x) e h

no_member : (d : String) (ds : List String) → ds ≡ [] → has d ds ≡ true → ⊥
unfolding has
no_member d [] e h = cc
no_member d (x ∷ ds) e h = cc

-- Visited and not yet listed: on the stack of calls.
abbrev pub busy : Visit → String → Bool
busy s j = has j s.visited && not (has j s.order)

unfoldable pub unvisited : List String → List String → ℕ
unfolding count_if
unvisited entries seen = count_if (λ k. not (has k seen)) entries

unvisited_le :
    (entries a b : List String)
    → ((j : String) → has j a ≡ true → has j b ≡ true)
    → unvisited entries b ≤ unvisited entries a
unfolding unvisited
unvisited_le [] a b keeps = omega arith
unvisited_le (k ∷ entries) a b keeps = ground (arith, keeps k, unvisited_le entries a b keeps)

keeps_cons : (n : String) (a : List String) (j : String) → has j a ≡ true → has j (n ∷ a) ≡ true
unfolding has
keeps_cons n a j h = ground arith

unvisited-mark :
    (entries seen : List String) (n : String)
    → has n entries ≡ true
    → has n seen ≡ false
    → unvisited entries (n ∷ seen) < unvisited entries seen
unfolding unvisited has
unvisited-mark [] seen n listed new = cc
unvisited-mark (k ∷ entries) seen n listed new = ground (
  arith,
  eq_iff k n,
  eq_iff n k,
  unvisited_le entries seen (n ∷ seen) (keeps_cons n seen),
  unvisited-mark entries seen n,
)

module _ (deps : String → List String) (entries : List String) where
  -- A service, or a dependency of something.
  abbrev pub IsWanted : String → Type 0
  IsWanted x = (has x entries ≡ true) ⊎ ((y : String) × (has x (deps y) ≡ true))

  pub record Inv (s : Visit) : Type 0 where
    pub listed : (j : String) → has j s.order ≡ true → has j s.visited ≡ true
    pub in_turn : InTurn (IsReady deps) [] s.order
    pub wanted : (j : String) → has j s.visited ≡ true → IsWanted j

  pub record Grew (s s' : Visit) : Type 0 where
    pub inv : Inv s'
    pub keeps : (j : String) → has j s.visited ≡ true → has j s'.visited ≡ true
    pub stack : (j : String) → busy s' j ≡ busy s j

  -- `d` may be visited: what is on the stack needs it, and the fuel is enough.
  pub record Admits (fuel : ℕ) (s : Visit) (d : String) : Type 0 where
    pub wanted : IsWanted d
    pub paths : (j : String) → busy s j ≡ true → Reach deps j d
    pub room : unvisited entries s.visited < fuel

  moved-Admits :
      (fuel : ℕ) (s t : Visit) (d : String) → Grew s t → Admits fuel s d → Admits fuel t d
  moved-Admits fuel s t d g a = record {
    wanted = a.wanted;
    paths = λ j h. a.paths j (sym (g.stack j) ∙ h);
    room = omega (arith, a.room, unvisited_le entries s.visited t.visited g.keeps);
  }

  abbrev Visits : ℕ → (String → Visit → Option Visit) → Type 0
  Visits fuel g =
      (d : String) (s : Visit)
      → Inv s
      → Admits fuel s d
      → (t : Visit) × (g d s ≡ some t) × Grew s t × (has d t.visited ≡ true)

  pub for_each-Grew :
      (fuel : ℕ) (g : String → Visit → Option Visit)
      → Visits fuel g
      → (ds : List String) (s : Visit) → Inv s
      → ((d : String) → has d ds ≡ true → Admits fuel s d)
      → (t : Visit) × (for_each g ds s ≡ some t) × Grew s t × AllIn ds t.visited
  unfolding for_each has
  for_each-Grew fuel g visits [] s v admits =
      (s, refl, record { inv = v; keeps = λ j h. h; stack = λ j. refl }, tt)
  for_each-Grew fuel g visits (d ∷ ds) s v admits =
      let (t, first, gt, in_t) = visits d s v (admits d (ground (arith, eq_iff d d))) in
      let (u, rest, gu, in_u) =
        for_each-Grew fuel g visits ds t gt.inv
          (λ e h. moved-Admits fuel s t e gt (admits e (ground arith))) in
      (
        u,
        rw first rest,
        record {
          inv = gu.inv;
          keeps = λ j h. gu.keeps j (gt.keeps j h);
          stack = λ j. gu.stack j ∙ gt.stack j;
        },
        (gu.keeps d in_t, in_u),
      )

  mark-Inv : (n : String) (s : Visit) → IsWanted n → Inv s → Inv (mark n s)
  unfolding has
  mark-Inv n s w v = record {
    listed = λ j h. ground (arith, v.listed j);
    in_turn = v.in_turn;
    wanted = λ j h. elim (Bool-cases (str_eq n j)) [
      | inl same ↦ subst IsWanted ((eq_iff n j).0 same) w
      | inr other ↦ v.wanted j (ground arith)
    ];
  }

  mark-paths :
      (n d j : String) (s : Visit)
      → has d (deps n) ≡ true
      → ((j : String) → busy s j ≡ true → Reach deps j n)
      → busy (mark n s) j ≡ true
      → Reach deps j d
  unfolding has
  mark-paths n d j s dep paths h = elim (Bool-cases (str_eq n j)) [
    | inl same ↦ subst (λ x. Reach deps x d) ((eq_iff n j).0 same) (Reach.further Reach.here dep)
    | inr other ↦ Reach.further (paths j (ground arith)) dep
  ]

  -- What the dependencies of `n` may be visited with, once `n` is marked.
  mark-Admits :
      (fuel : ℕ) (n d : String) (s : Visit)
      → ((x : String) → has x entries ≡ false → deps x ≡ [])
      → has n s.visited ≡ false
      → Admits (suc fuel) s n
      → has d (deps n) ≡ true
      → Admits fuel (mark n s) d
  mark-Admits fuel n d s leaf new a dep = record {
    wanted = inr (n, dep);
    paths = λ j h. mark-paths n d j s dep a.paths h;
    room = elim (Bool-cases (has n entries)) [
      | inl service ↦ omega (arith, a.room, unvisited-mark entries s.visited n service new)
      | inr other ↦ absurd (no_member d (deps n) (leaf n other) dep)
    ];
  }

  deps_ready :
      (n : String) (t : Visit) (ds : List String)
      → ((d : String) → has d ds ≡ true → busy t d ≡ true → Reach deps d n)
      → AllIn ds t.visited
      → All (λ d. (has d t.order ≡ true) ⊎ Reach deps d n) ds
  unfolding has
  deps_ready n t [] paths a = tt
  deps_ready n t (d ∷ ds) paths (seen, a) =
      let rest = deps_ready n t ds (λ e h. paths e (ground arith)) a in
      elim (Bool-cases (has d t.order)) [
        | inl listed ↦ (inl listed, rest)
        | inr busy_d ↦ (inr (paths d (ground (arith, eq_iff d d)) (ground arith)), rest)
      ]

  append-Grew :
      (n : String) (s t : Visit)
      → Inv s
      → has n s.visited ≡ false
      → ((j : String) → busy s j ≡ true → Reach deps j n)
      → Grew (mark n s) t
      → AllIn (deps n) t.visited
      → Grew s (append n t) × (has n t.visited ≡ true)
  unfolding has
  append-Grew n s t v new paths g a =
      let in_t : has n t.visited ≡ true = g.keeps n (ground (arith, eq_iff n n)) in
      let unlisted : has n t.order ≡ false = ground (arith, g.stack n, v.listed n, eq_iff n n) in
      let reach : (d : String) → busy t d ≡ true → Reach deps d n =
        λ d h. stacked d (sym (g.stack d) ∙ h) in
      (
        record {
          inv = record {
            listed = λ j h. elim (Bool-cases (str_eq n j)) [
              | inl same ↦ subst (λ x. has x t.visited ≡ true) ((eq_iff n j).0 same) in_t
              | inr other ↦ g.inv.listed j (ground (arith, has-append j t.order (n ∷ [])))
            ];
            in_turn =
                InTurn-append (IsReady deps) (IsReady-Local deps) [] t.order t.order n (λ d. refl)
                  unlisted (deps_ready n t (deps n) (λ d h. reach d) a) g.inv.in_turn;
            wanted = g.inv.wanted;
          };
          keeps = λ j h. g.keeps j (ground arith);
          stack = λ j. elim (Bool-cases (str_eq n j)) [
            | inl same ↦
                let there : has j s.visited ≡ false =
                  subst (λ x. has x s.visited ≡ false) ((eq_iff n j).0 same) new in
                ground (arith, has-append j t.order (n ∷ []))
            | inr other ↦ ground (arith, has-append j t.order (n ∷ []), g.stack j)
          ];
        },
        in_t,
      )
    where
      stacked : (d : String) → busy (mark n s) d ≡ true → Reach deps d n
      stacked d h = elim (Bool-cases (str_eq n d)) [
        | inl same ↦ subst (λ x. Reach deps x n) ((eq_iff n d).0 same) Reach.here
        | inr other ↦ paths d (ground arith)
      ]

  pub visit-Grew :
      ((x : String) → has x entries ≡ false → deps x ≡ [])
      → (fuel : ℕ) → Visits fuel (visit fuel deps)
  unfolding visit
  visit-Grew leaf zero d s v a = absurd (omega (arith, a.room))
  visit-Grew leaf (suc fuel) d s v a = elim (Bool-cases (has d s.visited)) [
    | inl seen ↦ (s, ground arith, record { inv = v; keeps = λ j h. h; stack = λ j. refl }, seen)
    | inr new ↦
        let (t, run, g, in_t) =
          for_each-Grew fuel (visit fuel deps) (visit-Grew leaf fuel) (deps d) (mark d s)
            (mark-Inv d s a.wanted v) (λ e h. mark-Admits fuel d e s leaf new a h) in
        let (grew, last) = append-Grew d s t v new a.paths g in_t in
        (append d t, rw (new, run) refl, grew, last)
  ]

  pub start-Inv : Inv start
  unfolding has
  start-Inv = record { listed = λ j h. cc; in_turn = tt; wanted = λ j h. cc }
