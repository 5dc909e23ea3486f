-- ===== src/Ingress/LeastConn/Accounting.antt =====
-- The counts are those of the connections that are open, and the pick is the least of them.
use text.Mathlib.Text.{◌==◌ as str_eq}
use text.Mathlib.TextEquality.{eq_iff}
use mathlib.Core.Path.{subst}
use deploy_monster.Prelude.{
  ℕ, ◌+◌, ◌-◌, ◌≤◌, ◌<◌, ◌≡◌, ◌⊎◌, refl, sym, ap, ◌∙◌, inl, inr, true, List, [], ◌∷◌, String, arith,
  if◌then◌else◌, ltb, Bool-cases,
}
use deploy_monster.Prelude.Dict.{insert, lookup-insert}
use deploy_monster.Prelude.Names.{has}
use deploy_monster.Ingress.LeastConn.{LeastConn, max_int64, conns_of, fewest, next, release}

conns_of-insert :
    (lc : LeastConn) (b j : String) (n : ℕ)
    → conns_of (record { conns = insert b n lc.conns }) j
      ≡ (if str_eq b j then n else conns_of lc j)
unfolding conns_of
conns_of-insert lc b j n = rw (lookup-insert b j n lc.conns) (ground arith)

-- Every backend of the list has at least so many connections.
abbrev pub AtLeast : LeastConn → ℕ → List String → Type 0
AtLeast lc n [] = Unit
AtLeast lc n (b ∷ bs) = (n ≤ conns_of lc b) × AtLeast lc n bs

AtLeast-mono :
    (lc : LeastConn) (m n : ℕ) (bs : List String) → m ≤ n → AtLeast lc n bs → AtLeast lc m bs
AtLeast-mono lc m n [] h a = tt
AtLeast-mono lc m n (b ∷ bs) h (c, a) = (omega arith, AtLeast-mono lc m n bs h a)

-- What the loop gives: the start, if no backend is below its count, or the least of the list.
abbrev Fewest : LeastConn → String → ℕ → List String → String → Type 0
Fewest lc best n bs f =
    ((f ≡ best) × AtLeast lc n bs)
    ⊎ ((has f bs ≡ true) × (conns_of lc f < n) × AtLeast lc (conns_of lc f) bs)

Fewest-taken :
    (lc : LeastConn) (best b : String) (n : ℕ) (bs : List String) (f : String)
    → conns_of lc b < n
    → Fewest lc b (conns_of lc b) bs f
    → Fewest lc best n (b ∷ bs) f
unfolding has
Fewest-taken lc best b n bs f h (inl (e, a)) =
    let same : conns_of lc f ≡ conns_of lc b = ap (conns_of lc) e in
    inr (
      ground (arith, eq_iff b f, e),
      omega arith,
      (omega arith, AtLeast-mono lc (conns_of lc f) (conns_of lc b) bs (omega arith) a),
    )
Fewest-taken lc best b n bs f h (inr (m, l, a)) = inr (ground arith, omega arith, (omega arith, a))

Fewest-passed :
    (lc : LeastConn) (best b : String) (n : ℕ) (bs : List String) (f : String)
    → n ≤ conns_of lc b
    → Fewest lc best n bs f
    → Fewest lc best n (b ∷ bs) f
unfolding has
Fewest-passed lc best b n bs f h (inl (e, a)) = inl (e, (h, a))
Fewest-passed lc best b n bs f h (inr (m, l, a)) = inr (ground arith, l, (omega arith, a))

fewest-Fewest :
    (lc : LeastConn) (best : String) (n : ℕ) (bs : List String)
    → Fewest lc best n bs (fewest lc best n bs)
unfolding fewest
fewest-Fewest lc best n [] = inl (refl, tt)
fewest-Fewest lc best n (b ∷ bs) = elim (Bool-cases (ltb (conns_of lc b) n)) [
  | inl t ↦
      let e : fewest lc best n (b ∷ bs) ≡ fewest lc b (conns_of lc b) bs = rw t refl in
      subst (Fewest lc best n (b ∷ bs)) (sym e)
        (Fewest-taken lc best b n bs _ (ground arith) (fewest-Fewest lc b (conns_of lc b) bs))
  | inr f ↦
      let e : fewest lc best n (b ∷ bs) ≡ fewest lc best n bs = rw f refl in
      subst (Fewest lc best n (b ∷ bs)) (sym e)
        (Fewest-passed lc best b n bs _ (ground arith) (fewest-Fewest lc best n bs))
]

next_counts :
    (lc : LeastConn) (bs : List String) (j : String)
    → conns_of (next lc bs).0 j
      ≡ (if str_eq (next lc bs).1 j then conns_of lc j + 1 else conns_of lc j)
unfolding next
next_counts lc bs j =
    conns_of-insert lc (fewest lc "" max_int64 bs) j _
    ∙ ground (arith, eq_iff (fewest lc "" max_int64 bs) j)

at_least :
    (lc : LeastConn) (n : ℕ) (bs : List String) (b : String)
    → has b bs ≡ true
    → AtLeast lc n bs
    → n ≤ conns_of lc b
unfolding has
at_least lc n [] b h a = cc
at_least lc n (x ∷ bs) b h (k, a) = elim (Bool-cases (str_eq x b)) [
  | inl t ↦ rw (ap (conns_of lc) ((eq_iff x b).0 t)) at k
  | inr f ↦ at_least lc n bs b (ground arith) a
]

Fewest-least :
    (lc : LeastConn) (bs : List String) (b f : String)
    → has b bs ≡ true
    → conns_of lc b < max_int64
    → Fewest lc "" max_int64 bs f
    → (has f bs ≡ true) × AtLeast lc (conns_of lc f) bs
Fewest-least lc bs b f h l (inl (e, a)) = absurd (omega (arith, at_least lc max_int64 bs b h a))
Fewest-least lc bs b f h l (inr (m, _, a)) = (m, a)

next_pick :
    (lc : LeastConn) (bs : List String) (b : String)
    → has b bs ≡ true
    → conns_of lc b < max_int64
    → (has (next lc bs).1 bs ≡ true) × AtLeast lc (conns_of lc (next lc bs).1) bs
unfolding next
next_pick lc bs b h l = Fewest-least lc bs b _ h l (fewest-Fewest lc "" max_int64 bs)

-- From a list with a backend below the greatest int64, `Next` picks a backend of the list that has
-- the least connections, and adds one to its count and nothing to any other.
pub next_least :
    (lc : LeastConn) (bs : List String) (b j : String)
    → has b bs ≡ true
    → conns_of lc b < max_int64
    → (has (next lc bs).1 bs ≡ true)
      × AtLeast lc (conns_of lc (next lc bs).1) bs
      × (conns_of (next lc bs).0 j
          ≡ (if str_eq (next lc bs).1 j then conns_of lc j + 1 else conns_of lc j))
next_least lc bs b j h l = let (m, a) = next_pick lc bs b h l in (m, a, next_counts lc bs j)

release_counts :
    (lc : LeastConn) (b j : String)
    → conns_of (release lc b) j ≡ (if str_eq b j then conns_of lc j - 1 else conns_of lc j)
unfolding release
release_counts lc b j = ground (arith, eq_iff b j, conns_of-insert lc b j (conns_of lc b - 1))

-- Releasing the backend that was picked gives every backend the count that it had before.
pub release-next :
    (lc : LeastConn) (bs : List String) (j : String)
    → conns_of (release (next lc bs).0 (next lc bs).1) j ≡ conns_of lc j
release-next lc bs j =
    ground (arith, release_counts (next lc bs).0 (next lc bs).1 j, next_counts lc bs j)
