-- ===== src/Api/GlobalLimiter/Spoofing.antt =====
-- A client that names its own address.
use deploy_monster.Prelude.{
  ℕ, ◌+◌, ◌≡◌, refl, Bool, true, false, List, [], ◌∷◌, Option, none, some, arith, if◌then◌else◌,
}
use deploy_monster.Prelude.Find.{All}
use deploy_monster.Prelude.Bytes.{Bytes, eq, is_empty, trim_space}
use deploy_monster.Api.ClientIp.{Request}
use deploy_monster.Api.ClientIp.Identity.{real_ip_wins}
use deploy_monster.Api.GlobalLimiter.{
  GlobalRateLimiter, Response, unlimited, served, too_many_requests, window_of, middleware,
  count_request,
}
use deploy_monster.Api.GlobalLimiter.Window.{window_of-put_window}

-- A request with the times at which the clock is read, and the address in its X-Real-IP.
pub record Claimed : Type 0 where
  pub sent : Request
  pub now : ℕ
  pub later : ℕ
  pub ip : Bytes

unfoldable pub is_refused : Response → Bool
is_refused unlimited = false
is_refused (served remaining reset_at) = false
is_refused (too_many_requests retry_after reset_at) = true

module _ (parse_ip : Bytes → Option Bytes) (is_internal : Bytes → Bool) where
  -- Whether any of the requests is refused.
  unfoldable pub any_refused : GlobalRateLimiter → List Claimed → Bool
  any_refused rl [] = false
  any_refused rl (c ∷ cs) =
      let (rl', response) = middleware parse_ip is_internal rl c.sent c.now c.later in
      let rest = any_refused rl' cs in if is_refused response then true else rest

  -- The header holds the address, and the address is not counted yet.
  abbrev pub IsFresh : GlobalRateLimiter → Claimed → Type 0
  IsFresh rl c =
      (is_empty c.sent.x_real_ip ≡ false)
      × (parse_ip (trim_space c.sent.x_real_ip) ≡ some c.ip)
      × (is_empty c.ip ≡ false)
      × (window_of c.ip rl.clients ≡ none)

  abbrev pub AreDistinct : List Claimed → Type 0
  AreDistinct [] = Unit
  AreDistinct (c ∷ cs) = All (λ d. eq c.ip d.ip ≡ false) cs × AreDistinct cs

  fresh_turn :
      (rl : GlobalRateLimiter) (c : Claimed)
      → IsFresh rl c
      → let out = middleware parse_ip is_internal rl c.sent c.now c.later in
        (is_refused out.1 ≡ false)
        × ((ip : Bytes)
            → eq c.ip ip ≡ false
            → window_of ip rl.clients ≡ none
            → window_of ip out.0.clients ≡ none)
  unfolding middleware count_request is_refused
  fresh_turn rl c (given, parsed, full, absent) =
      let who = real_ip_wins parse_ip is_internal c.sent false c.ip given parsed full in
      rw (who, absent)
        (
          ground arith,
          λ ip other none_yet.
              let put =
                window_of-put_window ip c.ip (record { count = 1; reset_at = c.now + rl.window })
                  rl.clients in
              ground arith,
        )

  kept-IsFresh :
      (rl rl' : GlobalRateLimiter) (c : Claimed) (cs : List Claimed)
      → ((ip : Bytes)
          → eq c.ip ip ≡ false
          → window_of ip rl.clients ≡ none
          → window_of ip rl'.clients ≡ none)
      → All (λ d. eq c.ip d.ip ≡ false) cs
      → All (IsFresh rl) cs
      → All (IsFresh rl') cs
  kept-IsFresh rl rl' c [] kept apart fresh = tt
  kept-IsFresh rl rl' c (d ∷ ds) kept (other, apart) ((given, parsed, full, absent), fresh) =
      ((given, parsed, full, kept d.ip other absent), kept-IsFresh rl rl' c ds kept apart fresh)

  -- However low the rate is and from one and the same host: requests that each name another valid
  -- address in X-Real-IP, none of them counted before, are never refused.
  pub rotating_real_ip :
      (rl : GlobalRateLimiter) (cs : List Claimed)
      → All (IsFresh rl) cs
      → AreDistinct cs
      → any_refused rl cs ≡ false
  unfolding any_refused
  rotating_real_ip rl [] fresh distinct = refl
  rotating_real_ip rl (c ∷ cs) (first, fresh) (apart, distinct) =
      let rl' = (middleware parse_ip is_internal rl c.sent c.now c.later).0 in
      let (passes, kept) = fresh_turn rl c first in
      rw passes (rotating_real_ip rl' cs (kept-IsFresh rl rl' c cs kept apart fresh) distinct)
