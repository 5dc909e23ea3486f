-- ===== src/Api/ClientIp/Identity.antt =====
-- What the address of a request depends on.
use deploy_monster.Prelude.{
  ◌≡◌, refl, Bool, false, ◌++◌, [], ◌∷◌, Option, none, some, arith, ℕ, ◌+◌,
}
use deploy_monster.Prelude.Bytes.{Bytes, bytes, is_empty, trim_space, count, contains}
use deploy_monster.Api.ClientIp.{
  Request, strip_port, before_last, validate_ip_permissive, forwarded_ip, safe_client_ip,
}

lacks_last : (c : ℕ) (s : Bytes) → count s c ≡ 0 → before_last c s ≡ none
unfolding before_last count
lacks_last c [] h = refl
lacks_last c (x ∷ s) h = ground (arith, lacks_last c s)

last_of :
    (c : ℕ) (host port : Bytes) → count port c ≡ 0 → before_last c (host ++ c ∷ port) ≡ some host
unfolding before_last
last_of c [] port h = ground (arith, lacks_last c port h)
last_of c (x ∷ host) port h = rw (last_of c host port h)

count-append : (s t : Bytes) (c : ℕ) → count (s ++ t) c ≡ count s c + count t c
unfolding count
count-append [] t c = omega arith
count-append (x ∷ s) t c = ground (arith, count-append s t c)

-- The address and the port come apart.
strip_port-join :
    (host port : Bytes)
    → count host b':' ≡ 0
    → count port b':' ≡ 0
    → contains (host ++ b':' ∷ port) (bytes "]") ≡ false
    → strip_port (host ++ b':' ∷ port) ≡ host
unfolding strip_port count
strip_port-join host port h p bracket =
    rw (last_of b':' host port p) let one = count-append host (b':' ∷ port) b':' in ground arith

module _ (parse_ip : Bytes → Option Bytes) (is_internal : Bytes → Bool) where
  -- Where a proxy does not set X-Real-IP, a request from `host:port` over IPv4 is counted under
  -- `host`, whatever its port, its path and its X-Forwarded-For are.
  pub counted_under_host :
      (r : Request) (host port : Bytes)
      → r.x_real_ip ≡ []
      → r.remote_addr ≡ host ++ b':' ∷ port
      → count host b':' ≡ 0
      → count port b':' ≡ 0
      → contains (host ++ b':' ∷ port) (bytes "]") ≡ false
      → safe_client_ip parse_ip is_internal r false ≡ host
  unfolding safe_client_ip forwarded_ip
  counted_under_host r host port no_real at h p bracket =
      rw no_real (rw at (strip_port-join host port h p bracket))

  -- A request that carries an X-Real-IP with a valid address is counted under that address: neither
  -- the address it comes from nor the setting for X-Forwarded-For is looked at.
  pub real_ip_wins :
      (r : Request) (trust_xff : Bool) (ip : Bytes)
      → is_empty r.x_real_ip ≡ false
      → parse_ip (trim_space r.x_real_ip) ≡ some ip
      → is_empty ip ≡ false
      → safe_client_ip parse_ip is_internal r trust_xff ≡ ip
  unfolding safe_client_ip validate_ip_permissive
  real_ip_wins r trust_xff ip sent valid some_ip = rw (sent, valid, some_ip) refl
