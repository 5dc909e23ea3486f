-- ===== src/Ingress/Weighted/Sums.antt =====
-- The sum of the running weights, before and after a scan.
use text.Mathlib.Text.{◌==◌ as str_eq}
use text.Mathlib.TextEquality.{eq_iff}
use deploy_monster.Prelude.{
  ℕ, ◌≡◌, refl, ◌∙◌, inl, inr, true, false, List, [], ◌∷◌, String, arith, if◌then◌else◌, Bool-cases,
}
use deploy_monster.Prelude.Int.{ℤ, pos, ◌+ℤ◌, ◌-ℤ◌, int_laws}
use deploy_monster.Prelude.Dict.{insert, lookup-insert}
use deploy_monster.Prelude.Names.{has, Distinct}
use deploy_monster.Ingress.Weighted.{
  Weighted, weight, current_of, total_weight, Scan, scan_one, scan,
}

-- The sum of the running weights of some backends.
abbrev pub sum_current : List (String × ℤ) → List String → ℤ
sum_current current [] = pos 0
sum_current current (b ∷ bs) = current_of current b +ℤ sum_current current bs

pub current_of-insert :
    (current : List (String × ℤ)) (b j : String) (v : ℤ)
    → current_of (insert b v current) j ≡ (if str_eq b j then v else current_of current j)
unfolding current_of
current_of-insert current b j v = rw (lookup-insert b j v current) (ground arith)

sum_current-insert_absent :
    (current : List (String × ℤ)) (b : String) (v : ℤ) (bs : List String)
    → has b bs ≡ false
    → sum_current (insert b v current) bs ≡ sum_current current bs
unfolding has
sum_current-insert_absent current b v [] h = refl
sum_current-insert_absent current b v (x ∷ bs) h =
    let e : current_of (insert b v current) x ≡ current_of current x =
      ground (arith, current_of-insert current b x v, eq_iff b x, eq_iff x b) in
    let r = sum_current-insert_absent current b v bs (ground arith) in cc

pub sum_current-insert :
    (current : List (String × ℤ)) (b : String) (t : ℕ) (bs : List String)
    → Distinct bs
    → has b bs ≡ true
    → sum_current (insert b (current_of current b -ℤ pos t) current) bs
      ≡ sum_current current bs -ℤ pos t
unfolding has
sum_current-insert current b t [] d h = cc
sum_current-insert current b t (x ∷ bs) (a, d) h = elim (Bool-cases (str_eq x b)) [
  | inl s ↦
      let k : x ≡ b = (eq_iff x b).0 s in
      let e : current_of (insert b (current_of current b -ℤ pos t) current) x
          ≡ current_of current x -ℤ pos t =
        ground
          (arith, current_of-insert current b x (current_of current b -ℤ pos t), eq_iff b x, k) in
      let r =
        sum_current-insert_absent current b (current_of current b -ℤ pos t) bs
          (ground (arith, k)) in
      rw (e, r) (omega int_laws)
  | inr f ↦
      let e : current_of (insert b (current_of current b -ℤ pos t) current) x
          ≡ current_of current x =
        ground (
          arith,
          current_of-insert current b x (current_of current b -ℤ pos t),
          eq_iff b x,
          eq_iff x b,
        ) in
      let r = sum_current-insert current b t bs d (ground arith) in rw (e, r) (omega int_laws)
]

add_nothing : (x : ℤ) (n : ℕ) → n ≡ 0 → x +ℤ pos n ≡ x
add_nothing x n h = omega int_laws

scan_one-current :
    (w : Weighted) (s : Scan) (b j : String)
    → current_of (scan_one w s b).current j
      ≡ (if str_eq b j then current_of s.current b +ℤ pos (weight w b) else current_of s.current j)
unfolding scan_one
scan_one-current w s b j = ground (
  arith,
  eq_iff b j,
  current_of-insert s.current b j (current_of s.current b +ℤ pos (weight w b)),
  add_nothing (current_of s.current b) (weight w b),
)

scan-current_absent :
    (w : Weighted) (s : Scan) (bs : List String) (j : String)
    → has j bs ≡ false
    → current_of (scan w s bs).current j ≡ current_of s.current j
unfolding scan has
scan-current_absent w s [] j h = refl
scan-current_absent w s (b ∷ bs) j h =
    scan-current_absent w (scan_one w s b) bs j (ground arith)
    ∙ ground (arith, scan_one-current w s b j)

sum_current-scan_one :
    (w : Weighted) (s : Scan) (b : String) (bs : List String)
    → has b bs ≡ false
    → sum_current (scan_one w s b).current bs ≡ sum_current s.current bs
unfolding has
sum_current-scan_one w s b [] h = refl
sum_current-scan_one w s b (x ∷ bs) h =
    let e : current_of (scan_one w s b).current x ≡ current_of s.current x =
      ground (arith, scan_one-current w s b x, eq_iff b x, eq_iff x b) in
    let r = sum_current-scan_one w s b bs (ground arith) in cc

pub sum_current-scan :
    (w : Weighted) (s : Scan) (bs : List String)
    → Distinct bs
    → sum_current (scan w s bs).current bs ≡ sum_current s.current bs +ℤ pos (total_weight w bs)
unfolding scan total_weight
sum_current-scan w s [] d = omega int_laws
sum_current-scan w s (b ∷ bs) (a, d) =
    let e = scan-current_absent w (scan_one w s b) bs b a in
    let f : current_of (scan_one w s b).current b ≡ current_of s.current b +ℤ pos (weight w b) =
      ground (arith, scan_one-current w s b b, eq_iff b b) in
    let r = sum_current-scan w (scan_one w s b) bs d in
    rw (e, f, r, sum_current-scan_one w s b bs a) (omega int_laws)
