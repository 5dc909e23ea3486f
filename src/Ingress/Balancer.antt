-- ===== src/Ingress/Balancer.antt =====
-- internal/ingress/lb/balancer.go: round robin, address hash and pseudo-random picks, and the choice
-- of a strategy by its name. An index of an empty list is a panic of the Go program: `none`.
-- net.ParseIP with its printing is the argument `parse_ip`: any function from text to an address.
pub mod Picks
mod Tests
use Prim.Native.Nat.{bit_xor}
use deploy_monster.Prelude.{
  ℕ, suc, ◌+◌, ◌*◌, ◌%◌, ◌^◌, Bool, true, false, ◌||◌, ◌&&◌, List, [], ◌∷◌, Option, none, some,
  length, get_elem?, if◌then◌else◌, ◌==◌,
}
use deploy_monster.Prelude.Bytes.{Bytes, bytes, eq, is_empty, trim_space, before_comma}

pub data Strategy : Type 0 where
  round_robin least_conn ip_hash random weighted : Strategy

unfoldable pub new_strategy : Bytes → Strategy
new_strategy name =
    if eq name (bytes "least-conn") || eq name (bytes "leastconn")
    then least_conn
    else if eq name (bytes "ip-hash") || eq name (bytes "iphash")
    then ip_hash
    else if eq name (bytes "random")
    then random
    else if eq name (bytes "weighted")
    then weighted
    else round_robin

-- An atomic uint64.
pub record RoundRobin : Type 0 where
  pub counter : ℕ

-- `counter.Add(1) - 1` is the value before, which is below 2^64.
unfoldable pub next_round_robin : RoundRobin → List Bytes → RoundRobin × Option Bytes
next_round_robin rr backends = (
  record { counter = (rr.counter + 1) % 2 ^ 64 },
  if length backends == 0 then none else get_elem? backends (rr.counter % length backends),
)

-- hash/fnv, New32a.
unfoldable pub fnv32a : ℕ → Bytes → ℕ
fnv32a h [] = h
fnv32a h (c ∷ s) = fnv32a ((bit_xor h c * 16777619) % 2 ^ 32) s

abbrev pub offset32 : ℕ
offset32 = 2166136261

abbrev text_of : Option Bytes → Bytes
text_of none = []
text_of (some ip) = ip

unfoldable pub parse_xff : (Bytes → Option Bytes) → Bytes → Bytes
unfolding trim_space before_comma
parse_xff parse_ip raw =
    if is_empty raw then [] else text_of (parse_ip (trim_space (trim_space (before_comma raw))))

-- The parts of a request that a strategy reads.
pub record Request : Type 0 where
  pub remote_addr : Bytes
  pub x_forwarded_for : Bytes

unfoldable pub hashed_ip : (Bytes → Option Bytes) → Request → Bytes
unfolding parse_xff
hashed_ip parse_ip r =
    let sanitized = parse_xff parse_ip r.x_forwarded_for in
    if is_empty r.x_forwarded_for
    then r.remote_addr
    else if is_empty sanitized
    then r.remote_addr
    else sanitized

unfoldable pub next_ip_hash : (Bytes → Option Bytes) → List Bytes → Request → Option Bytes
unfolding hashed_ip fnv32a
next_ip_hash parse_ip backends r =
    if length backends == 0
    then none
    else get_elem? backends (fnv32a offset32 (hashed_ip parse_ip r) % (length backends % 2 ^ 32))

pub record Random : Type 0 where
  pub counter : ℕ

-- `seen` is what `counter.Load()` gives after this call's own `Add(1)`: other calls may come between.
unfoldable pub next_random : Random → (seen : ℕ) → List Bytes → Request → Random × Option Bytes
unfolding fnv32a
next_random rn seen backends r = (
  record { counter = (rn.counter + 1) % 2 ^ 64 },
  if length backends == 0
      then none
      else get_elem? backends (((fnv32a offset32 r.remote_addr + seen) % 2 ^ 64) % length backends),
)
