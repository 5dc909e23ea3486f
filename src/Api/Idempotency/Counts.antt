-- ===== src/Api/Idempotency/Counts.antt =====
-- The requests of one key that stand between the mutex and the end.
use text.Mathlib.Text.{◌==◌ as str_eq}
use deploy_monster.Prelude.{
  ℕ, ◌+◌, ◌≤◌, ◌≡◌, Bool, true, false, ◌&&◌, ◌||◌, List, Option, none, some, String, arith, ◌==◌,
  get_elem?,
}
use deploy_monster.Prelude.Find.{count_if}
use deploy_monster.Prelude.Counting.{one_if, count_if-set, count_if-at}
use deploy_monster.Prelude.Dict.{lookup}
use deploy_monster.Prelude.Names.{has}
use deploy_monster.Api.Idempotency.{Phase, phase_index, Request, Middleware, goto}

-- In the handler, or behind it with an answer to write.
abbrev pub is_hot : ℕ → Bool
is_hot n = n == 3 || n == 4

-- In flight without that.
abbrev pub is_warm : ℕ → Bool
is_warm n = n == 2 || n == 5

abbrev pub hot : String → Request → Bool
hot k r = str_eq r.key k && is_hot (phase_index r.phase)

abbrev pub warm : String → Request → Bool
warm k r = str_eq r.key k && is_warm (phase_index r.phase)

abbrev pub is_some : Option ℕ → Bool
is_some none = false
is_some (some status) = true

abbrev pub is_cached : String → Middleware → Bool
is_cached k m = is_some (lookup k m.entries)

abbrev pub times_written : String → Middleware → ℕ
times_written k m = count_if (λ x. str_eq x k) m.written

-- How often an entry of the key has expired, or a read of it has failed.
abbrev pub times_lapsed : String → Middleware → ℕ
times_lapsed k m = count_if (λ x. str_eq x k) m.lapsed

pub record Inv (k : String) (m : Middleware) : Type 0 where
  pub marked :
      count_if (hot k) m.requests + count_if (warm k) m.requests ≡ one_if (has k m.in_flight)
  pub bounded : times_written k m + count_if (hot k) m.requests ≤ 1 + times_lapsed k m
  pub covered : times_written k m ≤ times_lapsed k m + one_if (is_cached k m)

-- What a move of one request has to show.
pub moved-Inv :
    (k : String) (m : Middleware) (i : ℕ) (r : Request) (p : Phase) (in_flight : List String)
    (entries : List (String × ℕ)) (written lapsed : List String)
    → Inv k m
    → get_elem? m.requests i ≡ some r
    → one_if (has k in_flight) + one_if (hot k r) + one_if (warm k r)
      ≡ one_if (has k m.in_flight)
        + one_if (hot k (record r { phase = p }))
        + one_if (warm k (record r { phase = p }))
    → (count_if (hot k) m.requests + count_if (warm k) m.requests ≡ one_if (has k m.in_flight)
        → one_if (hot k r) ≤ count_if (hot k) m.requests
        → one_if (warm k r) ≤ count_if (warm k) m.requests
        → times_written k m + count_if (hot k) m.requests ≤ 1 + times_lapsed k m
        → count_if (λ x. str_eq x k) written
            + count_if (hot k) m.requests
            + one_if (hot k (record r { phase = p }))
          ≤ 1 + count_if (λ x. str_eq x k) lapsed + one_if (hot k r))
    → count_if (λ x. str_eq x k) written
      ≤ count_if (λ x. str_eq x k) lapsed + one_if (is_some (lookup k entries))
    → Inv k (record {
      in_flight = in_flight;
      entries = entries;
      requests = goto m i r p;
      written = written;
      lapsed = lapsed;
    })
moved-Inv k m i r p in_flight entries written lapsed v at_i mark bound cover =
    let r' = record r { phase = p } in
    let hots = count_if-set (hot k) m.requests i r r' at_i in
    let warms = count_if-set (warm k) m.requests i r r' at_i in
    let marked = v.marked in
    let e =
      bound v.marked (count_if-at (hot k) m.requests i r at_i)
        (count_if-at (warm k) m.requests i r at_i) v.bounded in
    record { marked = omega arith; bounded = omega arith; covered = cover }
