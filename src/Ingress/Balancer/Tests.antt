-- ===== src/Ingress/Balancer/Tests.antt =====
-- The strategies at concrete pools and requests.
use deploy_monster.Prelude.{◌<◌, ◌≡◌, refl, List, [], ◌∷◌, Option, none, some, arith, get_elem?}
use deploy_monster.Prelude.Bytes.{Bytes, bytes, eq}
use deploy_monster.Ingress.Balancer.{
  RoundRobin, next_round_robin, Request, next_ip_hash, next_random, new_strategy, weighted,
  round_robin, hashed_ip, fnv32a,
}
use deploy_monster.Ingress.Balancer.Picks.{served, turn, round_robin_fair, picks_in_range}

abbrev three : List Bytes
three = bytes "a" ∷ bytes "b" ∷ bytes "c" ∷ []

abbrev started : RoundRobin
started = record { counter = 7 }

round_robin_fair_example :
    let k = turn 7 3 0 in
    (k < 3) × ((next_round_robin (served k started three) three).1 ≡ get_elem? three 0)
round_robin_fair_example = round_robin_fair started three 0 (omega arith) (omega arith)

-- An address is read as it stands.
abbrev verbatim : Bytes → Option Bytes
verbatim [] = none
verbatim (c ∷ s) = some (c ∷ s)

abbrev request : Request
request = record {
  remote_addr = bytes "10.0.0.9:80";
  x_forwarded_for = bytes " 203.0.113.1 , 10.0.0.1";
}

first_forwarded : hashed_ip verbatim request ≡ bytes "203.0.113.1"
unfolding hashed_ip
first_forwarded = refl

fnv_of_a : fnv32a 2166136261 (bytes "a") ≡ 3826002220
unfolding fnv32a
fnv_of_a = refl

three_picks_in_range :
    ((b : Bytes) × ((next_round_robin started three).1 ≡ some b))
    × ((b : Bytes) × (next_ip_hash verbatim three request ≡ some b))
    × ((b : Bytes) × ((next_random (record { counter = 1 }) 2 three request).1 ≡ some b))
three_picks_in_range =
    picks_in_range three started (record { counter = 1 }) 2 verbatim request (omega arith)
      (omega arith)

named_strategies :
    (new_strategy (bytes "weighted") ≡ weighted) × (new_strategy (bytes "other") ≡ round_robin)
unfolding new_strategy eq
named_strategies = (refl, refl)
