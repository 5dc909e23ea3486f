-- ===== src/Ingress/Weighted/Choice.antt =====
-- What the scan picks.
use text.Mathlib.TextEquality.{eq_iff}
use deploy_monster.Prelude.{
  ◌<◌, ◌≡◌, refl, ◌⊎◌, inl, inr, true, false, List, [], ◌∷◌, String, arith,
}
use deploy_monster.Prelude.Names.{has}
use deploy_monster.Ingress.Weighted.{
  Weighted, weight, total_weight, Scan, scan_one, scan, scan_start,
}

-- What the scan of `bs` leaves as the best: nothing, or a backend of positive weight among `bs`.
abbrev Chosen : Weighted → List String → Scan → Type 0
Chosen w bs s =
    ((s.first ≡ true) × (s.best ≡ ""))
    ⊎ ((s.first ≡ false) × (has s.best bs ≡ true) × (0 < weight w s.best))

scan_one-Chosen :
    (w : Weighted) (s : Scan) (b : String) (all : List String)
    → has b all ≡ true
    → Chosen w all s
    → Chosen w all (scan_one w s b)
unfolding scan_one
scan_one-Chosen w s b all h c = ground arith

-- Every backend of the second list stands in the first.
abbrev Within : List String → List String → Type 0
Within all [] = Unit
Within all (b ∷ bs) = (has b all ≡ true) × Within all bs

scan-Chosen :
    (w : Weighted) (s : Scan) (bs all : List String)
    → Within all bs
    → Chosen w all s
    → Chosen w all (scan w s bs)
unfolding scan
scan-Chosen w s [] all h c = c
scan-Chosen w s (b ∷ bs) all (h, hs) c =
    scan-Chosen w (scan_one w s b) bs all hs (scan_one-Chosen w s b all h c)

Within-cons : (x : String) (all bs : List String) → Within all bs → Within (x ∷ all) bs
unfolding has
Within-cons x all [] h = tt
Within-cons x all (b ∷ bs) (a, h) = (ground arith, Within-cons x all bs h)

Within-self : (bs : List String) → Within bs bs
unfolding has
Within-self [] = tt
Within-self (b ∷ bs) = (ground (arith, eq_iff b b), Within-cons b bs bs (Within-self bs))

scan_one_first :
    (w : Weighted) (s : Scan) (b : String) (bs : List String)
    → (s.first ≡ false) ⊎ (0 < total_weight w (b ∷ bs))
    → ((scan_one w s b).first ≡ false) ⊎ (0 < total_weight w bs)
unfolding scan_one total_weight
scan_one_first w s b bs h = ground arith

-- A backend of positive weight ends the search for a first one.
scan-first :
    (w : Weighted) (s : Scan) (bs : List String)
    → (s.first ≡ false) ⊎ (0 < total_weight w bs)
    → (scan w s bs).first ≡ false
unfolding scan total_weight
scan-first w s [] h = ground arith
scan-first w s (b ∷ bs) h = scan-first w (scan_one w s b) bs (scan_one_first w s b bs h)

pub scan_chosen :
    (w : Weighted) (bs : List String)
    → 0 < total_weight w bs
    → (has (scan w (scan_start w) bs).best bs ≡ true)
      × (0 < weight w (scan w (scan_start w) bs).best)
scan_chosen w bs t = ground (
  arith,
  scan-first w (scan_start w) bs (inr t),
  scan-Chosen w (scan_start w) bs bs (Within-self bs) start,
)
  where
    start : Chosen w bs (scan_start w)
    start = unfold scan_start in inl (refl, refl)
