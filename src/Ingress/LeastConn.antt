-- ===== src/Ingress/LeastConn.antt =====
-- internal/ingress/lb/balancer.go: the backend with the fewest connections.
-- Counts of connections are unbounded numbers; `math.MaxInt64` is written out where it is compared.
pub mod Accounting
mod Tests
use text.Mathlib.Text.{◌==◌ as str_eq}
use deploy_monster.Prelude.{
  ℕ, ◌+◌, ◌-◌, Bool, true, false, List, [], ◌∷◌, String, if◌then◌else◌, ltb,
}
use deploy_monster.Prelude.Dict.{lookup, insert, get_or}

pub record LeastConn : Type 0 where
  pub conns : List (String × ℕ)

unfoldable pub new_least_conn : LeastConn
new_least_conn = record { conns = [] }

abbrev pub max_int64 : ℕ
max_int64 = 9_223_372_036_854_775_807

-- Reading a key that the map lacks gives 0.
unfoldable pub conns_of : LeastConn → String → ℕ
conns_of lc b = get_or (lookup b lc.conns) 0

-- The loop, with the best backend so far and its count.
unfoldable pub fewest : LeastConn → String → ℕ → List String → String
fewest lc best best_count [] = best
fewest lc best best_count (b ∷ bs) =
    fewest lc (if ltb (conns_of lc b) best_count then b else best)
      (if ltb (conns_of lc b) best_count then conns_of lc b else best_count) bs

unfoldable pub next : LeastConn → List String → LeastConn × String
next lc bs =
    let best = fewest lc "" max_int64 bs in
    (record { conns = insert best (conns_of lc best + 1) lc.conns }, best)

unfoldable pub release : LeastConn → String → LeastConn
release lc backend =
    if ltb 0 (conns_of lc backend)
    then record { conns = insert backend (conns_of lc backend - 1) lc.conns }
    else lc
