-- ===== src/Core/Events/Removal.antt =====
-- What Unsubscribe removes.
use deploy_monster.Prelude.{
  ℕ, zero, suc, ◌+◌, ◌-◌, ◌≡◌, ◌≢◌, refl, Bool, true, false, List, [], ◌∷◌, Option, none, some,
  arith, length, length-set, take, get_elem?, set, Bool-cases, Option-cases, inl, inr, ◌⊎◌,
}
use deploy_monster.Prelude.Find.{All, count_if}
use deploy_monster.Prelude.Counting.{one_if, count_if-set}
use deploy_monster.Prelude.Bytes.{Bytes, eq, eq_iff}
use deploy_monster.Core.Events.{
  Subscription, EventBus, index_of, swap_remove, swap_with, unsubscribe_at, unsubscribe,
}

module _ {ℓ} {A : Type ℓ} (p : A → Bool) where
  -- All but the last entry.
  count_if-take_last :
      (xs : List A) (n : ℕ) (x : A)
      → get_elem? xs n ≡ some x
      → length xs ≡ suc n
      → count_if p (take n xs) + one_if (p x) ≡ count_if p xs
  unfolding count_if
  count_if-take_last [] n x h size = absurd (omega arith)
  count_if-take_last (y ∷ []) zero x h size = ground arith
  count_if-take_last (y ∷ z ∷ xs) zero x h size = absurd (omega arith)
  count_if-take_last (y ∷ xs) (suc n) x h size =
      let ih = count_if-take_last xs n x h (omega arith) in ground arith

module _ {ℓ} {A : Type ℓ} where
  last_there : (x : A) (xs : List A) → (y : A) × (get_elem? (x ∷ xs) (length xs) ≡ some y)
  last_there x [] = (x, refl)
  last_there x (z ∷ xs) = last_there z xs

  -- A list with an entry has a last one.
  no_last :
      (xs : List A) (i : ℕ) (x : A) → get_elem? xs i ≡ some x → get_elem? xs (length xs - 1) ≢ none
  no_last [] i x h e = cc
  no_last (z ∷ xs) i x h e =
      let size : suc (length xs) - 1 ≡ length xs = omega arith in
      let (y, there) = last_there z xs in
      let gone : get_elem? (z ∷ xs) (length xs) ≡ none = rw (← size) e in cc

  set_last :
      (xs : List A) (i n : ℕ) (x y : A)
      → get_elem? xs i ≡ some x
      → get_elem? xs n ≡ some y
      → get_elem? (set xs i y) n ≡ some y
  set_last [] i n x y h e = absurd (cc)
  set_last (z ∷ xs) zero zero x y h e = refl
  set_last (z ∷ xs) zero (suc n) x y h e = e
  set_last (z ∷ xs) (suc i) zero x y h e = e
  set_last (z ∷ xs) (suc i) (suc n) x y h e = set_last xs i n x y h e

-- Moving the last entry to the place of another takes that other out.
count_if-swap_with :
    (p : Subscription → Bool) (subs : List Subscription) (i : ℕ) (s : Subscription)
    (last : Option Subscription)
    → get_elem? subs i ≡ some s
    → get_elem? subs (length subs - 1) ≡ last
    → count_if p (swap_with i subs last) + one_if (p s) ≡ count_if p subs
unfolding swap_with
count_if-swap_with p subs i s none at_i e = absurd (no_last subs i s at_i e)
count_if-swap_with p [] i s (some moved) at_i e = absurd (cc)
count_if-swap_with p (x ∷ subs) i s (some moved) at_i e =
    let all = x ∷ subs in
    let moves = count_if-set p all i s moved at_i in
    let size = length-set all i moved in
    let cut =
      count_if-take_last p (set all i moved) (length all - 1) moved
        (set_last all i (length all - 1) s moved at_i e) (omega arith) in
    omega arith

index_of-none :
    (id : Bytes) (subs : List Subscription)
    → index_of id subs ≡ none
    → All (λ s. eq s.id id ≡ false) subs
unfolding index_of
index_of-none id [] h = tt
index_of-none id (s ∷ subs) h = elim (Bool-cases (eq s.id id)) [
  | inl same ↦ absurd (ground arith)
  | inr other ↦ (other, index_of-none id subs (ground arith))
]

index_of-some :
    (id : Bytes) (subs : List Subscription) (i : ℕ)
    → index_of id subs ≡ some i
    → (s : Subscription) × (get_elem? subs i ≡ some s) × (s.id ≡ id)
unfolding index_of
index_of-some id [] i h = absurd (cc)
index_of-some id (s ∷ subs) i h = elim (Bool-cases (eq s.id id)) [
  | inl same ↦ let first : i ≡ 0 = ground arith in rw first (s, refl, (eq_iff s.id id).0 same)
  | inr other ↦ elim (Option-cases (index_of id subs)) [
    | inl missing ↦ absurd (ground arith)
    | inr (k, found) ↦
        let later : i ≡ suc k = ground arith in
        let (t, at_k, named) = index_of-some id subs k found in rw later (t, at_k, named)
  ]
]

-- What Unsubscribe gives for a bus and an ID: no subscription has the ID and the bus is as it was, or
-- one that has it is out.
abbrev pub Removes : EventBus → Bytes → EventBus × Bool → Type 0
Removes eb id (eb', found) =
    ((found ≡ false) × (eb' ≡ eb) × All (λ s. eq s.id id ≡ false) eb.subscriptions)
    ⊎ ((found ≡ true)
        × ((s : Subscription) × (s.id ≡ id)
            × ((p : Subscription → Bool)
                → count_if p eb'.subscriptions + one_if (p s) ≡ count_if p eb.subscriptions)))

unsubscribe_at-Removes :
    (eb : EventBus) (id : Bytes) (at : Option ℕ)
    → index_of id eb.subscriptions ≡ at
    → Removes eb id (unsubscribe_at eb at)
unfolding unsubscribe_at swap_remove
unsubscribe_at-Removes eb id none e = inl (refl, refl, index_of-none id eb.subscriptions e)
unsubscribe_at-Removes eb id (some i) e =
    let (s, at_i, named) = index_of-some id eb.subscriptions i e in
    let last = get_elem? eb.subscriptions (length eb.subscriptions - 1) in
    inr (refl, (s, named, λ p. count_if-swap_with p eb.subscriptions i s last at_i refl))

-- Unsubscribe tells whether a subscription has the ID. If none has, the bus stays as it was;
-- otherwise one subscription with that ID is gone and every other one is still there, as often as
-- before.
pub unsubscribe-Removes : (eb : EventBus) (id : Bytes) → Removes eb id (unsubscribe eb id)
unfolding unsubscribe
unsubscribe-Removes eb id = unsubscribe_at-Removes eb id (index_of id eb.subscriptions) refl
