-- ===== src/Core/Events/Patterns.antt =====
-- What the pattern of a subscription takes.
use deploy_monster.Prelude.{
  ℕ, zero, suc, ◌-◌, ◌≡◌, refl, ap, ◌↔◌, ◌⊎◌, inl, inr, true, false, List, [], ◌∷◌, ◌++◌, Option,
  none, some, arith, length, length-append, take, drop, take-append-drop, get_elem?, ltb,
  Bool-cases, Option-cases,
}
use deploy_monster.Prelude.Bytes.{Bytes, bytes, eq, eq_iff, eq_self}
use deploy_monster.Core.Events.{cut_suffix, under_prefix, matches}

-- A pattern takes every type if it is `*`, the type that it is, and, if it is `p.*`, the types that
-- go on behind `p` with a dot.
abbrev pub Takes : Bytes → Bytes → Type 0
Takes pattern event_type =
    (pattern ≡ bytes "*")
    ⊎ ((pattern ≡ event_type)
        ⊎ ((prefix : Bytes) × (rest : Bytes) × (pattern ≡ prefix ++ bytes ".*")
            × (event_type ≡ prefix ++ b'.' ∷ rest)))

module _ {ℓ} {A : Type ℓ} where
  take-append_length : (xs ys : List A) → take (length xs) (xs ++ ys) ≡ xs
  take-append_length [] ys = refl
  take-append_length (x ∷ xs) ys = ap (λ t. x ∷ t) (take-append_length xs ys)

  drop-append_length : (xs ys : List A) → drop (length xs) (xs ++ ys) ≡ ys
  drop-append_length [] ys = refl
  drop-append_length (x ∷ xs) ys = drop-append_length xs ys

  get_elem?-append_length : (xs ys : List A) → get_elem? (xs ++ ys) (length xs) ≡ get_elem? ys 0
  get_elem?-append_length [] ys = refl
  get_elem?-append_length (x ∷ xs) ys = get_elem?-append_length xs ys

module _ {ℓ} {A : Type ℓ} where
  drop-get_elem? :
      (xs : List A) (n : ℕ) (x : A) → get_elem? xs n ≡ some x → drop n xs ≡ x ∷ drop (suc n) xs
  drop-get_elem? [] n x h = absurd (cc)
  drop-get_elem? (y ∷ xs) zero x h = cc
  drop-get_elem? (y ∷ xs) (suc n) x h = drop-get_elem? xs n x h

cut_suffix-append : (prefix suffix : Bytes) → cut_suffix (prefix ++ suffix) suffix ≡ some prefix
unfolding cut_suffix
cut_suffix-append prefix suffix =
    let long = length-append prefix suffix in
    let start : length (prefix ++ suffix) - length suffix ≡ length prefix = omega arith in
    let fits : ltb (length (prefix ++ suffix)) (length suffix) ≡ false = ground arith in
    rw (fits, start, drop-append_length prefix suffix, take-append_length prefix suffix, eq_self)
      refl

cut_suffix-some :
    (s suffix prefix : Bytes) → cut_suffix s suffix ≡ some prefix → s ≡ prefix ++ suffix
unfolding cut_suffix
cut_suffix-some s suffix prefix h =
    let start = length s - length suffix in
    let joined = take-append-drop start s in let same = eq_iff (drop start s) suffix in ground arith

under_prefix-append :
    (prefix rest : Bytes) → under_prefix (prefix ++ b'.' ∷ rest) (some prefix) ≡ true
unfolding under_prefix
under_prefix-append prefix rest =
    let long = length-append prefix (b'.' ∷ rest) in
    let longer : ltb (length prefix) (length (prefix ++ b'.' ∷ rest)) ≡ true = ground arith in
    rw
      (
        longer,
        take-append_length prefix (b'.' ∷ rest),
        get_elem?-append_length prefix (b'.' ∷ rest),
        eq_self,
      )
      refl

under_prefix-some :
    (event_type prefix : Bytes)
    → under_prefix event_type (some prefix) ≡ true
    → (rest : Bytes) × (event_type ≡ prefix ++ b'.' ∷ rest)
unfolding under_prefix
under_prefix-some event_type prefix h =
    let n = length prefix in
    let joined = take-append-drop n event_type in
    let same = eq_iff (take n event_type) prefix in
    elim (Option-cases (get_elem? event_type n)) [
      | inl missing ↦ absurd (ground arith)
      | inr (c, found) ↦
          let rest = drop-get_elem? event_type n c found in (drop (suc n) event_type, ground arith)
    ]

under_prefix-Takes :
    (pattern event_type : Bytes) (cut : Option Bytes)
    → cut_suffix pattern (bytes ".*") ≡ cut
    → under_prefix event_type cut ≡ true
    → Takes pattern event_type
unfolding under_prefix
under_prefix-Takes pattern event_type none e h = absurd (cc)
under_prefix-Takes pattern event_type (some prefix) e h =
    let (rest, same) = under_prefix-some event_type prefix h in
    inr (inr (prefix, rest, cut_suffix-some pattern (bytes ".*") prefix e, same))

matches-Takes :
    (pattern event_type : Bytes) → matches pattern event_type ≡ true → Takes pattern event_type
unfolding matches
matches-Takes pattern event_type h = elim (Bool-cases (eq pattern (bytes "*"))) [
  | inl star ↦ inl ((eq_iff pattern (bytes "*")).0 star)
  | inr no_star ↦ elim (Bool-cases (eq pattern event_type)) [
    | inl same ↦ inr (inl ((eq_iff pattern event_type).0 same))
    | inr other ↦ under_prefix-Takes pattern event_type _ refl (ground arith)
  ]
]

Takes-matches :
    (pattern event_type : Bytes) → Takes pattern event_type → matches pattern event_type ≡ true
unfolding matches
Takes-matches pattern event_type (inl star) = rw (star, eq_self) refl
Takes-matches pattern event_type (inr (inl same)) =
    let self = eq_self event_type in rw same (ground arith)
Takes-matches pattern event_type (inr (inr (prefix, rest, p, t))) =
    let cut = cut_suffix-append prefix (bytes ".*") in
    let under = under_prefix-append prefix rest in rw (p, t) (ground arith)

-- The test of the code for a subscription says exactly whether its pattern takes the type.
pub matches_iff :
    (pattern event_type : Bytes) → (matches pattern event_type ≡ true) ↔ Takes pattern event_type
matches_iff pattern event_type =
    (matches-Takes pattern event_type, Takes-matches pattern event_type)
