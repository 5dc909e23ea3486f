-- ===== src/Prelude/Bytes.antt =====
-- Go strings as lists of bytes, with the functions of package strings that the code uses.
use Prim.Native.Char.{code}
use mathlib.Core.List.{reverse}
use deploy_monster.Prelude.{
  ℕ, suc, ◌+◌, ◌-◌, ◌≡◌, refl, sym, ap, ◌∙◌, ◌↔◌, Bool, true, false, ◌&&◌, ◌||◌, List, [], ◌∷◌,
  ◌++◌, String, arith, leb, ◌==◌, if◌then◌else◌,
}

abbrev pub Bytes : Type 0
Bytes = List ℕ

-- The bytes of an ASCII text.
abbrev pub bytes : String → Bytes
bytes String.[] = []
bytes (String.◌∷◌ letter rest) = code letter ∷ bytes rest

unfoldable pub eq : Bytes → Bytes → Bool
eq [] [] = true
eq [] (y ∷ ys) = false
eq (x ∷ xs) [] = false
eq (x ∷ xs) (y ∷ ys) = x == y && eq xs ys

pub eq→≡ : (a b : Bytes) → eq a b ≡ true → a ≡ b
unfolding eq
eq→≡ [] [] h = refl
eq→≡ [] (y ∷ ys) h = cc
eq→≡ (x ∷ xs) [] h = cc
eq→≡ (x ∷ xs) (y ∷ ys) h = ground (arith, eq→≡ xs ys)

pub eq_self : (a : Bytes) → eq a a ≡ true
unfolding eq
eq_self [] = refl
eq_self (x ∷ xs) = ground (arith, eq_self xs)

pub eq_iff : (a b : Bytes) → (eq a b ≡ true) ↔ (a ≡ b)
eq_iff a b = (eq→≡ a b, λ e. ap (λ x. eq a x) (sym e) ∙ eq_self a)

-- strings.HasPrefix(s, p)
unfoldable pub has_prefix : Bytes → Bytes → Bool
has_prefix s [] = true
has_prefix [] (x ∷ p) = false
has_prefix (y ∷ s) (x ∷ p) = x == y && has_prefix s p

-- strings.HasSuffix(s, p)
unfoldable pub has_suffix : Bytes → Bytes → Bool
unfolding eq
has_suffix [] p = eq [] p
has_suffix (x ∷ s) p = eq (x ∷ s) p || has_suffix s p

-- strings.Contains(s, p)
unfoldable pub contains : Bytes → Bytes → Bool
unfolding has_prefix
contains [] p = has_prefix [] p
contains (x ∷ s) p = has_prefix (x ∷ s) p || contains s p

-- strings.Count(s, string(c))
unfoldable pub count : Bytes → ℕ → ℕ
count [] c = 0
count (x ∷ s) c = let rest = count s c in if x == c then suc rest else rest

abbrev lower : ℕ → ℕ
lower c = if leb b'A' c && leb c b'Z' then c + 32 else c

-- strings.ToLower on ASCII bytes.
unfoldable pub to_lower : Bytes → Bytes
to_lower [] = []
to_lower (c ∷ s) = lower c ∷ to_lower s

abbrev upper : ℕ → ℕ
upper c = if leb b'a' c && leb c b'z' then c - 32 else c

-- strings.ToUpper on ASCII bytes.
unfoldable pub to_upper : Bytes → Bytes
to_upper [] = []
to_upper (c ∷ s) = upper c ∷ to_upper s

-- Whether one of some texts is contained in `s`, and whether `s` is one of them.
unfoldable pub any_contained : Bytes → List Bytes → Bool
any_contained s [] = false
any_contained s (p ∷ ps) = contains s p || any_contained s ps

unfoldable pub listed : Bytes → List Bytes → Bool
unfolding eq
listed s [] = false
listed s (p ∷ ps) = eq s p || listed s ps

-- strings.Join(parts, string(sep))
unfoldable pub join : ℕ → List Bytes → Bytes
join sep [] = []
join sep (s ∷ []) = s
join sep (s ∷ t ∷ ts) = s ++ (sep ∷ join sep (t ∷ ts))

abbrev pub is_empty : Bytes → Bool
is_empty [] = true
is_empty (c ∷ s) = false

abbrev is_space : ℕ → Bool
is_space c = c == 32 || c == 9 || c == 10 || c == 11 || c == 12 || c == 13

unfoldable pub trim_left : Bytes → Bytes
trim_left [] = []
trim_left (c ∷ s) = if is_space c then trim_left s else c ∷ s

-- strings.TrimSpace on ASCII.
unfoldable pub trim_space : Bytes → Bytes
unfolding trim_left
trim_space s = reverse (trim_left (reverse (trim_left s)))

-- strings.SplitN(raw, ",", 2)[0]
unfoldable pub before_comma : Bytes → Bytes
before_comma [] = []
before_comma (c ∷ s) = let rest = before_comma s in if c == b',' then [] else c ∷ rest

pub has_prefix-append : (s t p : Bytes) → has_prefix s p ≡ true → has_prefix (s ++ t) p ≡ true
unfolding has_prefix
has_prefix-append s t [] h = refl
has_prefix-append [] t (x ∷ p) h = cc
has_prefix-append (y ∷ s) t (x ∷ p) h = ground (arith, has_prefix-append s t p)

pub contains_prefix : (s p : Bytes) → has_prefix s p ≡ true → contains s p ≡ true
unfolding contains
contains_prefix [] p h = h
contains_prefix (x ∷ s) p h = ground arith

pub contains-append_left : (s t p : Bytes) → contains s p ≡ true → contains (s ++ t) p ≡ true
unfolding contains
contains-append_left [] t p h = contains_prefix t p (has_prefix-append [] t p h)
contains-append_left (x ∷ s) t p h =
    ground (arith, contains-append_left s t p, has_prefix-append (x ∷ s) t p)

pub contains-append_right : (s t p : Bytes) → contains t p ≡ true → contains (s ++ t) p ≡ true
unfolding contains
contains-append_right [] t p h = h
contains-append_right (x ∷ s) t p h = ground (arith, contains-append_right s t p h)
