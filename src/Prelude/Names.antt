-- ===== src/Prelude/Names.antt =====
-- Lists of names: membership as a test, and lists without repetition.
use text.Mathlib.Text.{◌==◌}
use deploy_monster.Prelude.{
  ◌≡◌, refl, sym, ◌∙◌, Bool, true, false, not, ◌&&◌, ◌||◌, List, [], ◌∷◌, ◌++◌, String, arith,
  if◌then◌else◌,
}
use text.Mathlib.TextEquality.{eq_iff}
use deploy_monster.Prelude.Find.{All}

unfoldable pub has : String → List String → Bool
has b [] = false
has b (x ∷ xs) = x == b || has b xs

-- Every occurrence of `id` taken out.
unfoldable pub remove : String → List String → List String
remove id [] = []
remove id (x ∷ xs) = let rest = remove id xs in if x == id then rest else x ∷ rest

pub has-remove :
    (j id : String) (xs : List String) → has j (remove id xs) ≡ (has j xs && not (id == j))
unfolding has remove
has-remove j id [] = refl
has-remove j id (x ∷ xs) = ground (arith, has-remove j id xs, eq_iff x id, eq_iff x j, eq_iff id j)

abbrev pub Distinct : List String → Type 0
Distinct [] = Unit
Distinct (x ∷ xs) = (has x xs ≡ false) × Distinct xs

-- Each name of `ids` is among `seen`.
abbrev pub AllIn : List String → List String → Type 0
AllIn ids seen = All (λ d. has d seen ≡ true) ids

pub AllIn-cong :
    (ids a b : List String) → ((d : String) → has d a ≡ has d b) → AllIn ids a → AllIn ids b
AllIn-cong [] a b e h = tt
AllIn-cong (d ∷ ids) a b e (k, h) = (sym (e d) ∙ k, AllIn-cong ids a b e h)

has_of_cons :
    (d x : String) (seen xs : List String)
    → (has d (x ∷ seen) || has d xs) ≡ (has d seen || has d (x ∷ xs))
unfolding has
has_of_cons d x seen xs = ground arith

pub has-append : (j : String) (xs ys : List String) → has j (xs ++ ys) ≡ (has j xs || has j ys)
unfolding has
has-append j [] ys = refl
has-append j (x ∷ xs) ys = ground (arith, has-append j xs ys)

-- A condition on a name and the names before it. Their order and repetitions do not count.
abbrev pub Local : (String → List String → Type 0) → Type 0
Local Ready =
    (x : String) (a b : List String) → ((d : String) → has d a ≡ has d b) → Ready x a → Ready x b

-- Behind the names `seen`: no name is repeated, and each is ready when its turn comes.
abbrev pub InTurn : (String → List String → Type 0) → List String → List String → Type 0
InTurn Ready seen [] = Unit
InTurn Ready seen (x ∷ xs) = (has x seen ≡ false) × Ready x seen × InTurn Ready (x ∷ seen) xs

-- `id` behind `xs`, when it is new and ready.
pub InTurn-append :
    (Ready : String → List String → Type 0)
    → Local Ready
    → (seen xs all : List String) (id : String)
    → ((d : String) → has d all ≡ (has d seen || has d xs))
    → has id all ≡ false
    → Ready id all
    → InTurn Ready seen xs
    → InTurn Ready seen (xs ++ (id ∷ []))
unfolding has
InTurn-append Ready keep seen [] all id e new ready d =
    let same : (d : String) → has d all ≡ has d seen = λ d. e d ∙ ground arith in
    (sym (same id) ∙ new, keep id all seen same ready, tt)
InTurn-append Ready keep seen (x ∷ xs) all id e new ready (fresh, first, d) = (
  fresh,
  first,
  InTurn-append Ready keep (x ∷ seen) xs all id (λ d. e d ∙ sym (has_of_cons d x seen xs)) new ready
      d,
)
