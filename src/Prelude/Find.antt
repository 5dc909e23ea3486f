-- ===== src/Prelude/Find.antt =====
-- Searching a list by a test, and what a permutation keeps of it.
use mathlib.Core.List.{Perm, Permᴰ}
use mathlib.Core.Logic.{∥∥₁_elim}
use native.Mathlib.Nat.{ℕ_set}
use deploy_monster.Prelude.{
  ℕ, suc, ◌≤◌, ◌≡◌, refl, ◌∙◌, Bool, true, List, [], ◌∷◌, Option, none, some, arith, if◌then◌else◌,
}

module _ {ℓ} {A : Type ℓ} where
  unfoldable pub find : (A → Bool) → List A → Option A
  find p [] = none
  find p (x ∷ xs) = if p x then some x else find p xs

  unfoldable pub count_if : (A → Bool) → List A → ℕ
  count_if p [] = 0
  count_if p (x ∷ xs) = let rest = count_if p xs in if p x then suc rest else rest

  -- `P` holds of each entry.
  abbrev pub All {κ} : (A → Type κ) → List A → Type κ
  All P [] = Unit
  All P (x ∷ xs) = P x × All P xs

  count_if-permᴰ : (p : A → Bool) {xs ys : List A} → Permᴰ xs ys → count_if p xs ≡ count_if p ys
  unfolding count_if
  count_if-permᴰ p Permᴰ.nil = refl
  count_if-permᴰ p (Permᴰ.cons e t) = rw (e, count_if-permᴰ p t) refl
  count_if-permᴰ p (Permᴰ.swap {a = a} {b = b} e f) = rw (← e, ← f) (ground arith)
  count_if-permᴰ p (Permᴰ.trans s t) = count_if-permᴰ p s ∙ count_if-permᴰ p t

  pub count_if-perm : (p : A → Bool) {xs ys : List A} → Perm xs ys → count_if p xs ≡ count_if p ys
  count_if-perm p t = ∥∥₁_elim t (ℕ_set _ _) (count_if-permᴰ p)

  find-permᴰ :
      (p : A → Bool) {xs ys : List A} → Permᴰ xs ys → count_if p xs ≤ 1 → find p xs ≡ find p ys
  unfolding find count_if
  find-permᴰ p Permᴰ.nil h = refl
  find-permᴰ p (Permᴰ.cons {a = a} e t) h = rw (← e) (ground (arith, find-permᴰ p t))
  find-permᴰ p (Permᴰ.swap {a = a} {b = b} e f) h = rw (← e, ← f) (ground arith)
  find-permᴰ p (Permᴰ.trans {l₁ = l} s t) h =
      find-permᴰ p s h ∙ find-permᴰ p t (omega (arith, count_if-permᴰ p s))

  -- Where at most one entry passes the test, its place does not matter.
  pub find-perm :
      IsSet (Option A)
      → (p : A → Bool) {xs ys : List A} → Perm xs ys
      → count_if p xs ≤ 1
      → find p xs ≡ find p ys
  find-perm s p t h = ∥∥₁_elim t (s _ _) (λ d. find-permᴰ p d h)

  pub find-none : (p : A → Bool) (xs : List A) → count_if p xs ≡ 0 → find p xs ≡ none
  unfolding find count_if
  find-none p [] h = refl
  find-none p (x ∷ xs) h = ground (arith, find-none p xs)

  pub find-passes : (p : A → Bool) (xs : List A) {r : A} → find p xs ≡ some r → p r ≡ true
  unfolding find
  find-passes p [] h = cc
  find-passes p (x ∷ xs) {r} h = ground (arith, find-passes p xs {r = r})
