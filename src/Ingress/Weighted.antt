-- ===== src/Ingress/Weighted.antt =====
-- internal/ingress/lb/weighted.go: smooth weighted round-robin.
-- The mutex makes each method one step. Weights and running weights stay far from the bounds of int
-- and are unbounded here; a weight is never negative, since both setters clamp it.
pub mod Sums
pub mod Choice
pub mod Conservation
mod Tests
use text.Mathlib.Text.{◌==◌ as str_eq}
use deploy_monster.Prelude.{
  ℕ, ◌+◌, Bool, true, false, ◌||◌, List, [], ◌∷◌, String, if◌then◌else◌, ◌==◌,
}
use deploy_monster.Prelude.Int.{ℤ, pos, negsuc, ◌+ℤ◌, ◌-ℤ◌, ltb_ℤ}
use deploy_monster.Prelude.Dict.{lookup, insert, get_or}

pub record Weighted : Type 0 where
  pub weights : List (String × ℕ)
  pub current : List (String × ℤ)

unfoldable pub new_weighted : Weighted
new_weighted = record { weights = []; current = [] }

-- `if weight < 0 { weight = 0 }`
abbrev pub clamp : ℤ → ℕ
clamp (pos n) = n
clamp (negsuc n) = 0

unfoldable pub set_weight : Weighted → String → ℤ → Weighted
set_weight w backend weight = record {
  weights = insert backend (clamp weight) w.weights;
  current = insert backend (pos 0) w.current;
}

clamp_all : List (String × ℤ) → List (String × ℕ)
clamp_all [] = []
clamp_all ((b, wt) ∷ weights) = insert b (clamp wt) (clamp_all weights)

unfoldable pub set_weights : Weighted → List (String × ℤ) → Weighted
unfolding clamp_all
set_weights w weights = record { weights = clamp_all weights; current = [] }

unfoldable pub weight : Weighted → String → ℕ
weight w backend = get_or (lookup backend w.weights) 1

unfoldable pub current_of : List (String × ℤ) → String → ℤ
current_of current b = get_or (lookup b current) (pos 0)

unfoldable pub total_weight : Weighted → List String → ℕ
total_weight w [] = 0
total_weight w (b ∷ bs) = weight w b + total_weight w bs

-- The variables of the second loop of `Next`.
pub record Scan : Type 0 where
  pub current : List (String × ℤ)
  pub best : String
  pub best_cur : ℤ
  pub first : Bool

unfoldable pub scan_one : Weighted → Scan → String → Scan
scan_one w s b =
    let wt = weight w b in
    let cur = current_of s.current b +ℤ pos wt in
    let current = insert b cur s.current in
    if wt == 0
    then s
    else if s.first || ltb_ℤ s.best_cur cur
    then record { current = current; best = b; best_cur = cur; first = false }
    else record s { current = current }

unfoldable pub scan : Weighted → Scan → List String → Scan
scan w s [] = s
scan w s (b ∷ bs) = scan w (scan_one w s b) bs

unfoldable pub scan_start : Weighted → Scan
scan_start w = record { current = w.current; best = ""; best_cur = pos 0; first = true }

-- The end of `Next`, with the first backend and the total.
finish : Weighted → String → ℕ → Scan → Weighted × String
finish w head total s = if str_eq s.best "" then (record w { current = s.current }, head) else (
  record w { current = insert s.best (current_of s.current s.best -ℤ pos total) s.current },
  s.best,
)

unfoldable pub next : Weighted → List String → Weighted × String
unfolding finish scan_start
next w [] = (w, "")
next w (b ∷ bs) =
    let total = total_weight w (b ∷ bs) in
    if total == 0 then (w, b) else finish w b total (scan w (scan_start w) (b ∷ bs))
