-- ===== src/Ingress/Weighted/Conservation.antt =====
-- What `Next` keeps, and which backends it picks.
use text.Mathlib.Text.{◌==◌ as str_eq}
use text.Mathlib.TextEquality.{eq_iff}
use deploy_monster.Prelude.{
  ℕ, zero, suc, ◌<◌, ◌≡◌, refl, ap, ◌∙◌, inl, inr, true, false, List, [], ◌∷◌, String, arith, ◌==◌,
  Bool-cases,
}
use deploy_monster.Prelude.Int.{pos, ◌+ℤ◌, ◌-ℤ◌, +ℤ_cancel}
use deploy_monster.Prelude.Names.{has, Distinct}
use deploy_monster.Ingress.Weighted.{
  Weighted, weight, total_weight, Scan, scan, scan_start, finish, next,
}
use deploy_monster.Ingress.Weighted.Sums.{sum_current, sum_current-insert, sum_current-scan}
use deploy_monster.Ingress.Weighted.Choice.{scan_chosen}

-- A pool of backends: no two alike, and none with an empty name.
pub record IsPool (bs : List String) : Type 0 where
  pub distinct : Distinct bs
  pub named : has "" bs ≡ false

best_is_named :
    (bs : List String) (best : String)
    → has "" bs ≡ false
    → has best bs ≡ true
    → str_eq best "" ≡ false
best_is_named bs best n h = elim (Bool-cases (str_eq best "")) [
  | inl t ↦
      let k : best ≡ "" = (eq_iff best "").0 t in
      let both : has best bs ≡ false = ap (λ x. has x bs) k ∙ n in cc
  | inr f ↦ f
]

finish_sum :
    (w : Weighted) (bs : List String) (head : String) (s : Scan)
    → IsPool bs
    → has s.best bs ≡ true
    → sum_current s.current bs ≡ sum_current w.current bs +ℤ pos (total_weight w bs)
    → sum_current (finish w head (total_weight w bs) s).0.current bs ≡ sum_current w.current bs
unfolding finish
finish_sum w bs head s pool h e = rw (best_is_named bs s.best pool.named h) (
    sum_current-insert s.current s.best (total_weight w bs) bs pool.distinct h
    ∙ ap (λ x. x -ℤ pos (total_weight w bs)) e
    ∙ +ℤ_cancel (sum_current w.current bs) (pos (total_weight w bs)))

finish_picks :
    (w : Weighted) (bs : List String) (head : String) (s : Scan) (t : ℕ)
    → IsPool bs
    → has s.best bs ≡ true
    → ((finish w head t s).1 ≡ s.best) × ((finish w head t s).0.weights ≡ w.weights)
unfolding finish
finish_picks w bs head s t pool h = rw (best_is_named bs s.best pool.named h) (refl, refl)

next_of_zero :
    (w : Weighted) (b : String) (bs : List String)
    → (total_weight w (b ∷ bs) == 0) ≡ true
    → next w (b ∷ bs) ≡ (w, b)
unfolding next
next_of_zero w b bs z = rw z

next_of_positive :
    (w : Weighted) (b : String) (bs : List String)
    → (total_weight w (b ∷ bs) == 0) ≡ false
    → next w (b ∷ bs) ≡ finish w b (total_weight w (b ∷ bs)) (scan w (scan_start w) (b ∷ bs))
unfolding next
next_of_positive w b bs n = rw n

-- A pick from a pool leaves the weights and the sum of the running weights of the pool as they were.
pub next_conserves :
    (w : Weighted) (bs : List String)
    → IsPool bs
    → ((next w bs).0.weights ≡ w.weights)
      × (sum_current (next w bs).0.current bs ≡ sum_current w.current bs)
next_conserves w [] pool = unfold next in (refl, refl)
next_conserves w (b ∷ bs) pool = elim (Bool-cases (total_weight w (b ∷ bs) == 0)) [
  | inl z ↦
      let e = next_of_zero w b bs z in
      (ap (λ r. r.0.weights) e, ap (λ r. sum_current r.0.current (b ∷ bs)) e)
  | inr n ↦
      let e = next_of_positive w b bs n in
      let (h, p) = scan_chosen w (b ∷ bs) (ground arith) in
      let s = scan w (scan_start w) (b ∷ bs) in
      (
        ap (λ r. r.0.weights) e ∙ (finish_picks w (b ∷ bs) b s _ pool h).1,
        ap (λ r. sum_current r.0.current (b ∷ bs)) e
            ∙ finish_sum w (b ∷ bs) b s pool h
                (unfold scan_start in sum_current-scan w (scan_start w) (b ∷ bs) pool.distinct),
      )
]

-- `Next` picks a backend of the pool; and unless all weights of the pool are zero, one whose weight
-- is not zero.
pub next_picks :
    (w : Weighted) (b : String) (bs : List String)
    → IsPool (b ∷ bs)
    → (has (next w (b ∷ bs)).1 (b ∷ bs) ≡ true)
      × (0 < total_weight w (b ∷ bs) → 0 < weight w (next w (b ∷ bs)).1)
unfolding next
next_picks w b bs pool = elim (Bool-cases (total_weight w (b ∷ bs) == 0)) [
  | inl z ↦ rw z (unfold has in ground (arith, eq_iff b b), λ t. absurd (ground arith))
  | inr n ↦
      let (h, p) = scan_chosen w (b ∷ bs) (ground arith) in
      let e =
        (finish_picks w (b ∷ bs) b (scan w (scan_start w) (b ∷ bs)) (total_weight w (b ∷ bs)) pool
          h).0 in
      rw (n, e) (h, λ t. p)
]

-- The picks of `n` requests.
unfoldable pub serve : ℕ → Weighted → List String → Weighted
unfolding next
serve zero w bs = w
serve (suc n) w bs = serve n (next w bs).0 bs

-- However many requests a pool has served, the running weights have the sum that they had before.
pub serve_conserves :
    (n : ℕ) (w : Weighted) (bs : List String)
    → IsPool bs
    → sum_current (serve n w bs).current bs ≡ sum_current w.current bs
unfolding serve
serve_conserves zero w bs pool = refl
serve_conserves (suc n) w bs pool =
    serve_conserves n (next w bs).0 bs pool ∙ (next_conserves w bs pool).1
