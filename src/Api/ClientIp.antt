-- ===== src/Api/ClientIp.antt =====
-- internal/api/middleware/ratelimit.go: the address that a request is counted under.
-- net.ParseIP followed by its printing is the argument `parse_ip`, and the tests IsPrivate,
-- IsLoopback and IsLinkLocalUnicast of the address together are the argument `is_internal`.
pub mod Identity
mod Tests
use deploy_monster.Prelude.{
  ℕ, ◌≡◌, Bool, true, false, not, ◌&&◌, List, [], ◌∷◌, Option, none, some, if◌then◌else◌, ◌==◌,
}
use deploy_monster.Prelude.Bytes.{Bytes, bytes, is_empty, trim_space, before_comma, contains, count}

-- The parts of a request that the limiters read.
pub record Request : Type 0 where
  pub path : Bytes
  pub remote_addr : Bytes
  pub x_real_ip : Bytes
  pub x_forwarded_for : Bytes

-- What stands before the last `c`: `s[:strings.LastIndex(s, c)]`, `none` if there is no `c`.
unfoldable pub before_last : ℕ → Bytes → Option Bytes
before_last c [] = none
before_last c (x ∷ s) = elim (before_last c s) [
  | some start ↦ some (x ∷ start)
  | none ↦ if x == c then some [] else none
]

abbrev port_off : Bytes → Option Bytes → Bytes
port_off addr none = addr
port_off addr (some start) =
    if not (contains addr (bytes "]")) && count addr b':' == 1 then start else addr

unfoldable pub strip_port : Bytes → Bytes
unfolding before_last
strip_port addr = port_off addr (before_last b':' addr)

abbrev text_of : Option Bytes → Bytes
text_of none = []
text_of (some ip) = ip

module _ (parse_ip : Bytes → Option Bytes) (is_internal : Bytes → Bool) where
  unless_internal : Option Bytes → Bytes
  unless_internal none = []
  unless_internal (some ip) = if is_internal ip then [] else ip

  unfoldable pub validate_ip : Bytes → Bytes
  unfolding unless_internal
  validate_ip raw = if is_empty raw then [] else unless_internal (parse_ip (trim_space raw))

  unfoldable pub validate_ip_permissive : Bytes → Bytes
  validate_ip_permissive raw = if is_empty raw then [] else text_of (parse_ip (trim_space raw))

  -- The part for X-Forwarded-For and the remote address.
  unfoldable pub forwarded_ip : Request → Bool → Bytes
  unfolding validate_ip
  forwarded_ip r trust_xff =
      let validated = validate_ip (trim_space (before_comma r.x_forwarded_for)) in
      if trust_xff && not (is_empty r.x_forwarded_for) && not (is_empty validated)
      then validated
      else strip_port r.remote_addr

  unfoldable pub safe_client_ip : Request → Bool → Bytes
  unfolding validate_ip_permissive forwarded_ip
  safe_client_ip r trust_xff =
      let validated = validate_ip_permissive r.x_real_ip in
      if not (is_empty r.x_real_ip) && not (is_empty validated)
      then validated
      else forwarded_ip r trust_xff
