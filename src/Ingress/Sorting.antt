-- ===== src/Ingress/Sorting.antt =====
-- sort.Slice of the Go library, which sorts in no stated order of ties: a parameter, with what its
-- documentation promises, and a sort that meets it.
use mathlib.Core.List.{Perm, Permᴰ}
use mathlib.Core.List.Permᴰ
use deploy_monster.Prelude.{
  ◌≡◌, refl, inl, inr, Bool, true, false, List, [], ◌∷◌, if◌then◌else◌, Bool-cases,
}
use deploy_monster.Prelude.Find.{All}

module _ {ℓ} {A : Type ℓ} where
  -- The requirement on `less`: a strict weak order.
  pub record IsStrictWeak (less : A → A → Bool) : Type ℓ where
    pub asymmetric : (a b : A) → less a b ≡ true → less b a ≡ false
    pub transitive : (a b c : A) → less b a ≡ false → less c b ≡ false → less c a ≡ false

  abbrev pub IsSorted : (A → A → Bool) → List A → Type 0
  IsSorted less [] = Unit
  IsSorted less (x ∷ xs) = All (λ y. less y x ≡ false) xs × IsSorted less xs

pub record Sorter {ℓ} (A : Type ℓ) : Type ℓ where
  pub sort : (A → A → Bool) → List A → List A
  pub sort-perm : (less : A → A → Bool) (xs : List A) → Perm (sort less xs) xs
  pub sort-IsSorted :
      (less : A → A → Bool) → IsStrictWeak less → (xs : List A) → IsSorted less (sort less xs)

module _ {ℓ} {A : Type ℓ} (less : A → A → Bool) where
  insert_in : A → List A → List A
  insert_in x [] = x ∷ []
  insert_in x (y ∷ ys) = if less y x then y ∷ insert_in x ys else x ∷ y ∷ ys

  unfoldable pub insertion_sort : List A → List A
  unfolding insert_in
  insertion_sort [] = []
  insertion_sort (x ∷ xs) = insert_in x (insertion_sort xs)

  insert_in-permᴰ : (x : A) (ys : List A) → Permᴰ (insert_in x ys) (x ∷ ys)
  unfolding insert_in
  insert_in-permᴰ x [] = Permᴰ.refl _
  insert_in-permᴰ x (y ∷ ys) = elim (Bool-cases (less y x)) [
    | inl t ↦ rw t (Permᴰ.trans (Permᴰ.cons refl (insert_in-permᴰ x ys)) (Permᴰ.swap refl refl))
    | inr f ↦ rw f (Permᴰ.refl _)
  ]

  pub insertion_sort-permᴰ : (xs : List A) → Permᴰ (insertion_sort xs) xs
  unfolding insertion_sort
  insertion_sort-permᴰ [] = Permᴰ.nil
  insertion_sort-permᴰ (x ∷ xs) =
      Permᴰ.trans (insert_in-permᴰ x (insertion_sort xs))
        (Permᴰ.cons refl (insertion_sort-permᴰ xs))

  All-insert_in :
      (w x : A) (ys : List A)
      → less x w ≡ false
      → All (λ y. less y w ≡ false) ys
      → All (λ y. less y w ≡ false) (insert_in x ys)
  unfolding insert_in
  All-insert_in w x [] h a = (h, tt)
  All-insert_in w x (y ∷ ys) h (b, a) = elim (Bool-cases (less y x)) [
    | inl t ↦ rw t (b, All-insert_in w x ys h a)
    | inr f ↦ rw f (h, (b, a))
  ]

  All-less :
      (s : IsStrictWeak less) (x y : A) (ys : List A)
      → less y x ≡ false
      → All (λ z. less z y ≡ false) ys
      → All (λ z. less z x ≡ false) ys
  All-less s x y [] h a = tt
  All-less s x y (z ∷ zs) h (b, a) = (s.transitive x y z h b, All-less s x y zs h a)

  insert_in-IsSorted :
      IsStrictWeak less → (x : A) (ys : List A) → IsSorted less ys → IsSorted less (insert_in x ys)
  unfolding insert_in
  insert_in-IsSorted s x [] h = (tt, tt)
  insert_in-IsSorted s x (y ∷ ys) (a, h) = elim (Bool-cases (less y x)) [
    | inl t ↦ rw t (All-insert_in y x ys (s.asymmetric y x t) a, insert_in-IsSorted s x ys h)
    | inr f ↦ rw f ((f, All-less s x y ys f a), (a, h))
  ]

  pub insertion_sort-IsSorted :
      IsStrictWeak less → (xs : List A) → IsSorted less (insertion_sort xs)
  unfolding insertion_sort
  insertion_sort-IsSorted s [] = tt
  insertion_sort-IsSorted s (x ∷ xs) =
      insert_in-IsSorted s x (insertion_sort xs) (insertion_sort-IsSorted s xs)

abbrev pub insertion_sorter {ℓ} : {A : Type ℓ} → Sorter A
insertion_sorter = record {
  sort = insertion_sort;
  sort-perm = λ less xs. ∣ insertion_sort-permᴰ less xs ∣₁;
  sort-IsSorted = insertion_sort-IsSorted;
}
