-- ===== src/Api/Idempotency/Once.antt =====
-- One request of a key at a time, and one answer for it as long as the store keeps it.
use text.Mathlib.Text.{◌==◌ as str_eq}
use text.Mathlib.TextEquality.{eq_iff}
use mathlib.Core.Path.{subst}
use deploy_monster.Prelude.{
  ℕ, ◌+◌, ◌≤◌, ◌≡◌, refl, ap, true, ◌||◌, List, [], ◌∷◌, Option, none, some, String, arith,
  get_elem?, Bool-cases, Option-cases, inl, inr,
}
use deploy_monster.Prelude.Find.{count_if}
use deploy_monster.Prelude.Counting.{one_if, count_if-add, count_if-at}
use deploy_monster.Prelude.Guards.{if_some, by_test}
use deploy_monster.Prelude.Dict.{lookup, insert, lookup-insert, lookup-delete}
use deploy_monster.Prelude.Names.{has, remove, has-remove}
use deploy_monster.Api.Idempotency.{
  Phase, phase_index, arrived, refused, looking, executing, answered, leaving, gone, Request,
  Middleware, new_middleware, at, goto, admit, looked, look, look_fails, expire, respond, panics,
  write_entry, write, write_fails, leave, Move, admits, looks, misreads, panic, writes, loses,
  leaves, responds, Action, arrives, moves, expires, move_of, step, run, run_from,
}
use deploy_monster.Api.Idempotency.Counts.{
  hot, warm, is_hot, is_warm, is_some, times_written, times_lapsed, Inv, moved-Inv,
}

-- A move that changes no entry and no mark, of a request that stays hot or warm, or does not become
-- hot.
cooled-Inv :
    (k : String) (m : Middleware) (i : ℕ) (r : Request) (p : Phase)
    → Inv k m
    → get_elem? m.requests i ≡ some r
    → is_hot (phase_index r.phase) ≡ true
    → (is_hot (phase_index p) || is_warm (phase_index p)) ≡ true
    → Inv k (record m { requests = goto m i r p })
cooled-Inv k m i r p v at_i was now =
    let covered = v.covered in
    moved-Inv k m i r p m.in_flight m.entries m.written m.lapsed v at_i (ground arith)
      (λ a b c d. ground arith) covered

admit-Inv :
    (k : String) (m m' : Middleware) (i : ℕ) (r : Request)
    → Inv k m
    → get_elem? m.requests i ≡ some r
    → admit m i r ≡ some m'
    → Inv k m'
unfolding admit has
admit-Inv k m m' i r v at_i e =
    let (here, same) = if_some _ e in
    let covered = v.covered in
    subst (Inv k) same (
      by_test (Inv k) (has r.key m.in_flight)
        (λ busy.
          moved-Inv k m i r refused m.in_flight m.entries m.written m.lapsed v at_i (ground arith)
            (λ a b c d. ground arith) covered)
        (λ free.
          moved-Inv k m i r looking (r.key ∷ m.in_flight) m.entries m.written m.lapsed v at_i
            (ground (arith, eq_iff r.key k)) (λ a b c d. ground arith) covered))

-- The entry of the key `k`, where the request has it.
found_at :
    (k : String) (r : Request) (entries : List (String × ℕ)) (found : Option ℕ)
    → str_eq r.key k ≡ true
    → lookup r.key entries ≡ found
    → lookup k entries ≡ found
found_at k r entries found same e =
    subst (λ x. lookup x entries ≡ found) ((eq_iff r.key k).0 same) e

look-Inv :
    (k : String) (m : Middleware) (i : ℕ) (r : Request) (found : Option ℕ)
    → Inv k m
    → get_elem? m.requests i ≡ some r
    → at 2 r ≡ true
    → lookup r.key m.entries ≡ found
    → Inv k (looked m i r found)
unfolding looked
look-Inv k m i r none v at_i here found =
    let covered = v.covered in
    moved-Inv k m i r executing m.in_flight m.entries m.written m.lapsed v at_i (ground arith)
      (λ a b c d. elim (Bool-cases (str_eq r.key k)) [
        | inl same ↦ let miss = found_at k r m.entries none same found in ground arith
        | inr other ↦ ground arith
      ])
      covered
look-Inv k m i r (some status) v at_i here found =
    let covered = v.covered in
    moved-Inv k m i r leaving m.in_flight m.entries m.written m.lapsed v at_i (ground arith)
      (λ a b c d. ground arith) covered

-- A failed read: one more request is hot, and one more read has failed.
misread-Inv :
    (k : String) (m : Middleware) (i : ℕ) (r : Request)
    → Inv k m
    → get_elem? m.requests i ≡ some r
    → at 2 r ≡ true
    → Inv k (record m { requests = goto m i r executing; lapsed = r.key ∷ m.lapsed })
unfolding count_if
misread-Inv k m i r v at_i here =
    let covered = v.covered in
    moved-Inv k m i r executing m.in_flight m.entries m.written (r.key ∷ m.lapsed) v at_i
      (ground arith) (λ a b c d. ground arith) (ground arith)

written_once :
    (k : String) (m : Middleware) (i : ℕ) (r : Request) (status : ℕ)
    → Inv k m
    → get_elem? m.requests i ≡ some r
    → phase_index r.phase ≡ 4
    → (count_if (λ x. str_eq x k) (r.key ∷ m.written)
          + count_if (hot k) m.requests
          + one_if (hot k (record r { phase = leaving }))
        ≤ 1 + times_lapsed k m + one_if (hot k r))
      × (count_if (λ x. str_eq x k) (r.key ∷ m.written)
          ≤ times_lapsed k m + one_if (is_some (lookup k (insert r.key status m.entries))))
unfolding count_if
written_once k m i r status v at_i here =
    let there = count_if-at (hot k) m.requests i r at_i in
    let after = lookup-insert r.key k status m.entries in
    let covered = v.covered in
    let bounded = v.bounded in
    elim (Bool-cases (str_eq r.key k)) [
      | inl mine ↦
          let hot_now : hot k r ≡ true = ground arith in
          let at_hand : 1 ≤ count_if (hot k) m.requests = omega (arith, there, ap one_if hot_now) in
          let known : lookup k (insert r.key status m.entries) ≡ some status =
            rw (after, mine) refl in
          rw (known, mine, here) (omega arith, omega arith)
      | inr other ↦
          let known : lookup k (insert r.key status m.entries) ≡ lookup k m.entries =
            rw (after, other) refl in
          rw (known, other) (omega arith, covered)
    ]

write_entry-Inv :
    (k : String) (m m' : Middleware) (i : ℕ) (r : Request) (p : Phase)
    → Inv k m
    → get_elem? m.requests i ≡ some r
    → r.phase ≡ p
    → write_entry m i r p ≡ some m'
    → Inv k m'
unfolding write_entry count_if
write_entry-Inv k m m' i r (answered status) v at_i here e =
    let (_, same) = if_some true e in
    let covered = v.covered in
    let at_four : phase_index r.phase ≡ 4 = ap phase_index here in
    let (bound, cover) = written_once k m i r status v at_i at_four in
    subst (Inv k) same (
      moved-Inv k m i r leaving m.in_flight (insert r.key status m.entries) (r.key ∷ m.written)
        m.lapsed v at_i (ground arith) (λ a b c d. bound) cover)
write_entry-Inv k m m' i r arrived v at_i here e = absurd (cc)
write_entry-Inv k m m' i r refused v at_i here e = absurd (cc)
write_entry-Inv k m m' i r looking v at_i here e = absurd (cc)
write_entry-Inv k m m' i r executing v at_i here e = absurd (cc)
write_entry-Inv k m m' i r leaving v at_i here e = absurd (cc)
write_entry-Inv k m m' i r gone v at_i here e = absurd (cc)

leave-Inv :
    (k : String) (m m' : Middleware) (i : ℕ) (r : Request)
    → Inv k m
    → get_elem? m.requests i ≡ some r
    → leave m i r ≡ some m'
    → Inv k m'
unfolding leave
leave-Inv k m m' i r v at_i e =
    let (here, same) = if_some _ e in
    let covered = v.covered in
    let marked = v.marked in
    let there = count_if-at (warm k) m.requests i r at_i in
    subst (Inv k) same (
      moved-Inv k m i r gone (remove r.key m.in_flight) m.entries m.written m.lapsed v at_i
        (ground (arith, has-remove k r.key m.in_flight)) (λ a b c d. ground arith) covered)

move-Inv :
    (k : String) (m m' : Middleware) (mv : Move) (i : ℕ) (r : Request)
    → Inv k m
    → get_elem? m.requests i ≡ some r
    → move_of m mv i (some r) ≡ some m'
    → Inv k m'
unfolding move_of look look_fails respond panics write write_fails
move-Inv k m m' admits i r v at_i e = admit-Inv k m m' i r v at_i e
move-Inv k m m' looks i r v at_i e =
    let (here, same) = if_some _ e in
    subst (Inv k) same (look-Inv k m i r (lookup r.key m.entries) v at_i here refl)
move-Inv k m m' misreads i r v at_i e =
    let (here, same) = if_some _ e in subst (Inv k) same (misread-Inv k m i r v at_i here)
move-Inv k m m' panic i r v at_i e =
    let (here, same) = if_some _ e in
    subst (Inv k) same (cooled-Inv k m i r leaving v at_i (ground arith) refl)
move-Inv k m m' writes i r v at_i e = write_entry-Inv k m m' i r r.phase v at_i refl e
move-Inv k m m' loses i r v at_i e =
    let (here, same) = if_some _ e in
    subst (Inv k) same (cooled-Inv k m i r leaving v at_i (ground arith) refl)
move-Inv k m m' leaves i r v at_i e = leave-Inv k m m' i r v at_i e
move-Inv k m m' (responds status) i r v at_i e =
    let (here, same) = if_some _ e in
    subst (Inv k) same (cooled-Inv k m i r _ v at_i (ground arith) (ground arith))

expire-Inv :
    (k key : String) (m m' : Middleware) (o : Option ℕ)
    → Inv k m
    → expire m key o ≡ some m'
    → Inv k m'
unfolding expire count_if
expire-Inv k key m m' none v e = absurd (cc)
expire-Inv k key m m' (some status) v e =
    let (_, same) = if_some true e in
    let marked = v.marked in
    let bounded = v.bounded in
    let covered = v.covered in
    let after = lookup-delete key k m.entries in
    subst (Inv k) same (record { marked = marked; bounded = ground arith; covered = ground arith })

step-Inv : (k : String) (m m' : Middleware) (a : Action) → Inv k m → step m a ≡ some m' → Inv k m'
unfolding step move_of
step-Inv k m m' (arrives key) v e =
    let (_, same) = if_some true e in
    let hots = count_if-add (hot k) m.requests (record { key = key; phase = arrived }) in
    let warms = count_if-add (warm k) m.requests (record { key = key; phase = arrived }) in
    let marked = v.marked in
    let bounded = v.bounded in
    let covered = v.covered in
    subst (Inv k) same (record { marked = ground arith; bounded = ground arith; covered = covered })
step-Inv k m m' (moves mv i) v e = elim (Option-cases (get_elem? m.requests i)) [
  | inl missing ↦ absurd (ground arith)
  | inr (r, at_i) ↦ move-Inv k m m' mv i r v at_i (ground arith)
]
step-Inv k m m' (expires key) v e = expire-Inv k key m m' (lookup key m.entries) v e

run-Inv :
    (k : String) (actions : List Action) (m m' : Middleware)
    → Inv k m
    → run m actions ≡ some m'
    → Inv k m'
unfolding run run_from
run-Inv k [] m m' v e = subst (Inv k) (if_some true e).1 v
run-Inv k (a ∷ rest) m m' v e = elim (Option-cases (step m a)) [
  | inl stuck ↦ absurd (ground arith)
  | inr (mid, here) ↦ run-Inv k rest mid m' (step-Inv k m mid a v here) (ground arith)
]

-- Requests with one idempotency key, in any interleaving, with entries that expire at any time and
-- reads and writes of the store that can fail: at most one is between the mutex and the end of its
-- deferred function; and the answers that were written for the key, with one for a request that is in
-- the handler or has an answer to write, are at most one more than the times at which an entry of the
-- key has expired or a read of it has failed. So without those at most one answer is written, and
-- behind it the handler is not called again for the key.
pub run-new-AtMostOnce :
    (k : String) (actions : List Action) (m : Middleware)
    → run new_middleware actions ≡ some m
    → (count_if (hot k) m.requests + count_if (warm k) m.requests ≤ 1)
      × (times_written k m + count_if (hot k) m.requests ≤ 1 + times_lapsed k m)
unfolding new_middleware count_if lookup has
run-new-AtMostOnce k actions m e =
    let v =
      run-Inv k actions new_middleware m
        (record { marked = refl; bounded = omega arith; covered = omega arith }) e in
    let marked = v.marked in (ground arith, v.bounded)
