-- ===== src/Prelude/Counting.antt =====
-- Counting the entries of a list that pass a test, when one changes or is added.
use mathlib.Core.Path.{subst}
use deploy_monster.Prelude.{
  ℕ, zero, suc, ◌+◌, ◌≤◌, ◌<◌, ◌≡◌, refl, Bool, true, List, [], ◌∷◌, ◌++◌, some, arith,
  if◌then◌else◌, get_elem?, set, Bool-cases, inl, inr,
}
use deploy_monster.Prelude.Find.{count_if}

abbrev pub one_if : Bool → ℕ
one_if b = if b then 1 else 0

module _ {ℓ} {A : Type ℓ} (p : A → Bool) where
  pub count_if-set :
      (xs : List A) (i : ℕ) (x y : A)
      → get_elem? xs i ≡ some x
      → count_if p (set xs i y) + one_if (p x) ≡ count_if p xs + one_if (p y)
  unfolding count_if
  count_if-set [] i x y h = ground arith
  count_if-set (z ∷ xs) zero x y h = ground arith
  count_if-set (z ∷ xs) (suc i) x y h = let ih = count_if-set xs i x y h in ground arith

  -- An entry at a place counts.
  pub count_if-at :
      (xs : List A) (i : ℕ) (x : A) → get_elem? xs i ≡ some x → one_if (p x) ≤ count_if p xs
  unfolding count_if
  count_if-at [] i x h = ground arith
  count_if-at (z ∷ xs) zero x h =
      let same : z ≡ x = cc in subst (λ y. one_if (p y) ≤ count_if p (z ∷ xs)) same (ground arith)
  count_if-at (z ∷ xs) (suc i) x h = let ih = count_if-at xs i x h in ground arith

  pub count_if-add :
      (xs : List A) (x : A) → count_if p (xs ++ (x ∷ [])) ≡ count_if p xs + one_if (p x)
  unfolding count_if
  count_if-add [] x = ground arith
  count_if-add (z ∷ xs) x = let ih = count_if-add xs x in ground arith

  -- A positive count has a place.
  pub count_if-place :
      (xs : List A)
      → 0 < count_if p xs
      → (i : ℕ) × (x : A) × (get_elem? xs i ≡ some x) × (p x ≡ true)
  unfolding count_if
  count_if-place [] h = absurd (omega arith)
  count_if-place (z ∷ xs) h = elim (Bool-cases (p z)) [
    | inl passes ↦ (0, z, refl, passes)
    | inr fails ↦
        let (i, x, at_i, passes) = count_if-place xs (ground arith) in (suc i, x, at_i, passes)
  ]

-- What is counted by a narrower test.
pub count_if-le {ℓ} :
    {A : Type ℓ} (p q : A → Bool) (xs : List A)
    → ((x : A) → p x ≡ true → q x ≡ true)
    → count_if p xs ≤ count_if q xs
unfolding count_if
count_if-le p q [] narrower = omega arith
count_if-le p q (x ∷ xs) narrower =
    let ih = count_if-le p q xs narrower in
    elim (Bool-cases (p x)) [
      | inl counted ↦ let also = narrower x counted in ground arith
      | inr skipped ↦ ground arith
    ]
