-- ===== src/Ingress/Balancer/Picks.antt =====
-- Which backends are picked.
use native.Mathlib.Nat.{mod-lt, mod-eq_of_lt, add-mod-mod, mul-add-mod_self_left, div-add-mod}
use deploy_monster.Prelude.{
  ℕ, zero, suc, ◌+◌, ◌-◌, ◌*◌, ◌/◌, ◌%◌, ◌^◌, ◌<◌, ◌≡◌, refl, ap, ◌∙◌, false, List, [], ◌∷◌, Option,
  none, some, arith, length, get_elem?, if◌then◌else◌, ◌==◌,
}
use deploy_monster.Prelude.Bytes.{Bytes}
use deploy_monster.Ingress.Balancer.{
  RoundRobin, next_round_robin, Request, hashed_ip, next_ip_hash, Random, next_random, fnv32a,
  offset32,
}

-- The balancer after `k` requests.
unfoldable pub served : ℕ → RoundRobin → List Bytes → RoundRobin
unfolding next_round_robin
served zero rr backends = rr
served (suc k) rr backends = served k (next_round_robin rr backends).0 backends

served-counter :
    (k : ℕ) (rr : RoundRobin) (backends : List Bytes)
    → rr.counter + k < 2 ^ 64
    → (served k rr backends).counter ≡ rr.counter + k
unfolding served
served-counter zero rr backends h = omega arith
served-counter (suc k) rr backends h =
    served-counter k (next_round_robin rr backends).0 backends
      (unfold next_round_robin in omega arith)
    ∙ (unfold next_round_robin in omega arith)

-- The turn of position `j`, counted from the counter `c`, in a round of `n`.
abbrev pub turn : ℕ → ℕ → ℕ → ℕ
turn c n j = (j + (n - c % n)) % n

turn_lem : (c n j : ℕ) → j < n → (c + turn c n j) % n ≡ j
turn_lem c n j h =
    let room : 0 < n = omega arith in
    let below = mod-lt c room in
    let whole = div-add-mod c n in
    let e : c + (j + (n - c % n)) ≡ n * (c / n + 1) + j = omega arith in
    add-mod-mod c (j + (n - c % n)) n
    ∙ ap (λ x. x % n) e
    ∙ mul-add-mod_self_left n (c / n + 1) j
    ∙ mod-eq_of_lt h

-- In any round of as many requests as there are backends, no wrap of the counter in between, each
-- position has its turn: within the round, and the request of that turn gets that backend.
pub round_robin_fair :
    (rr : RoundRobin) (backends : List Bytes) (j : ℕ)
    → rr.counter + length backends < 2 ^ 64
    → j < length backends
    → let k = turn rr.counter (length backends) j in
      (k < length backends)
      × ((next_round_robin (served k rr backends) backends).1 ≡ get_elem? backends j)
unfolding next_round_robin
round_robin_fair rr backends j h l =
    let n = length backends in
    let k = turn rr.counter n j in
    let in_round : k < n = mod-lt (j + (n - rr.counter % n)) (omega arith) in
    let at_turn : (served k rr backends).counter % n ≡ j =
      ap (λ x. x % n) (served-counter k rr backends (omega arith)) ∙ turn_lem rr.counter n j l in
    let busy : (n == 0) ≡ false = ground arith in (in_round, rw (busy, at_turn) refl)

get_elem?_in_range {ℓ} :
    {A : Type ℓ} (xs : List A) (i : ℕ) → i < length xs → (a : A) × (get_elem? xs i ≡ some a)
get_elem?_in_range [] i h = elim h [ ]
get_elem?_in_range (x ∷ xs) zero h = (x, refl)
get_elem?_in_range (x ∷ xs) (suc i) h = get_elem?_in_range xs i (omega arith)

get_elem?-mod :
    (backends : List Bytes) (m n : ℕ)
    → 0 < length backends
    → m ≡ length backends
    → (b : Bytes) × ((if length backends == 0 then none else get_elem? backends (n % m)) ≡ some b)
get_elem?-mod backends m n h e =
    let busy : (length backends == 0) ≡ false = ground arith in
    let some_backend : 0 < m = omega arith in
    let room : n % m < length backends = omega (arith, mod-lt n some_backend) in
    let (b, found) = get_elem?_in_range backends (n % m) room in (b, rw busy found)

-- On any pool that is not empty, and shorter than 2^32 for the address hash, no strategy of this
-- file indexes out of range, whatever its counter and the request: each picks a backend.
pub picks_in_range :
    (backends : List Bytes) (rr : RoundRobin) (rn : Random) (seen : ℕ)
    (parse_ip : Bytes → Option Bytes) (r : Request)
    → 0 < length backends
    → length backends < 2 ^ 32
    → ((b : Bytes) × ((next_round_robin rr backends).1 ≡ some b))
      × ((b : Bytes) × (next_ip_hash parse_ip backends r ≡ some b))
      × ((b : Bytes) × ((next_random rn seen backends r).1 ≡ some b))
unfolding next_round_robin next_ip_hash next_random
picks_in_range backends rr rn seen parse_ip r h l = (
  get_elem?-mod backends (length backends) rr.counter h refl,
  get_elem?-mod backends (length backends % 2 ^ 32) (fnv32a offset32 (hashed_ip parse_ip r)) h
      (mod-eq_of_lt l),
  get_elem?-mod backends (length backends) ((fnv32a offset32 r.remote_addr + seen) % 2 ^ 64) h refl,
)
