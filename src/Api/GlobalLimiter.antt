-- ===== src/Api/GlobalLimiter.antt =====
-- internal/api/middleware/global_ratelimit.go: the limiter that every API request passes.
-- Times are numbers of nanoseconds. What is done under the lock is one step, so that requests and
-- sweeps of the cleanup goroutine come one after another; a request reads the clock before it takes
-- the lock, so the times of the steps need not grow.
pub mod Window
pub mod Admission
pub mod Spoofing
mod Tests
use deploy_monster.Prelude.{
  ℕ, ◌+◌, ◌-◌, ◌*◌, ◌/◌, Bool, true, false, not, List, [], ◌∷◌, length, Option, none, some, String,
  if◌then◌else◌, ltb, leb, ◌==◌,
}
use deploy_monster.Prelude.Int.{ℤ, pos, ltb_ℤ, ◌-ℤ◌}
use deploy_monster.Prelude.Bytes.{Bytes, has_prefix, eq}
use deploy_monster.Api.ClientIp.{Request, safe_client_ip}

pub record RateLimitWindow : Type 0 where
  pub count : ℕ
  pub reset_at : ℕ

-- `clients` by address, each address once.
pub record GlobalRateLimiter : Type 0 where
  pub rate : ℤ
  pub window : ℕ
  pub clients : List (Bytes × RateLimitWindow)
  pub allowlist : List Bytes

unfoldable pub new_global_rate_limiter : ℤ → ℕ → GlobalRateLimiter
new_global_rate_limiter rate window = record {
  rate = rate;
  window = window;
  clients = [];
  allowlist = [];
}

unfoldable pub set_rate_limited_prefixes : GlobalRateLimiter → List Bytes → GlobalRateLimiter
set_rate_limited_prefixes rl prefixes = record rl { allowlist = prefixes }

any_prefix : Bytes → List Bytes → Bool
any_prefix path [] = false
any_prefix path (p ∷ ps) = if has_prefix path p then true else any_prefix path ps

unfoldable pub should_rate_limit : GlobalRateLimiter → Bytes → Bool
unfolding any_prefix
should_rate_limit rl path = if length rl.allowlist == 0 then true else any_prefix path rl.allowlist

unfoldable pub window_of : Bytes → List (Bytes × RateLimitWindow) → Option RateLimitWindow
window_of ip [] = none
window_of ip (c ∷ cs) = if eq c.0 ip then some c.1 else window_of ip cs

-- `clients[ip] = w`
unfoldable pub put_window :
    Bytes → RateLimitWindow → List (Bytes × RateLimitWindow) → List (Bytes × RateLimitWindow)
put_window ip w [] = (ip, w) ∷ []
put_window ip w (c ∷ cs) =
    let rest = put_window ip w cs in if eq c.0 ip then (ip, w) ∷ cs else c ∷ rest

-- Passed on without a look at the limit; passed on with the headers X-RateLimit-Remaining and
-- X-RateLimit-Reset; or refused with status 429 and the headers Retry-After and X-RateLimit-Reset.
pub data Response : Type 0 where
  unlimited : Response
  served : (remaining : ℤ) → (reset_at : ℕ) → Response
  too_many_requests : (retry_after : ℤ) → (reset_at : ℕ) → Response

abbrev second : ℕ
second = 1_000_000_000

-- `int(time.Until(t).Seconds()) + 1`, a division that rounds towards 0.
abbrev retry_after : ℕ → ℕ → ℤ
retry_after t later =
    if leb later t then pos ((t - later) / second + 1) else pos 1 -ℤ pos ((later - t) / second)

-- The part behind `entry, exists := rl.clients[ip]`, at `now`; time.Until reads the clock at `later`.
unfoldable pub count_request :
    GlobalRateLimiter → Bytes → ℕ → ℕ → Option RateLimitWindow → GlobalRateLimiter × Response
unfolding put_window
count_request rl ip now later none = (
  record rl {
    clients = put_window ip (record { count = 1; reset_at = now + rl.window }) rl.clients;
  },
  served (rl.rate -ℤ pos 1) (now + rl.window),
)
count_request rl ip now later (some entry) =
    if ltb entry.reset_at now
    then (
      record rl {
        clients = put_window ip (record { count = 1; reset_at = now + rl.window }) rl.clients;
      },
      served (rl.rate -ℤ pos 1) (now + rl.window),
    )
    else if not (ltb_ℤ (pos entry.count) rl.rate)
    then (rl, too_many_requests (retry_after entry.reset_at later) entry.reset_at)
    else (
      record rl { clients = put_window ip (record entry { count = entry.count + 1 }) rl.clients },
      served (rl.rate -ℤ pos (entry.count + 1)) entry.reset_at,
    )

-- Whether a request gets as far as the count: the rate is positive and its path is limited.
unfoldable pub is_limited : GlobalRateLimiter → Bytes → Bool
unfolding should_rate_limit
is_limited rl path = if not (ltb_ℤ (pos 0) rl.rate) then false else should_rate_limit rl path

module _ (parse_ip : Bytes → Option Bytes) (is_internal : Bytes → Bool) where
  unfoldable pub middleware :
      GlobalRateLimiter → Request → (now later : ℕ) → GlobalRateLimiter × Response
  unfolding count_request is_limited
  middleware rl r now later =
      let ip = safe_client_ip parse_ip is_internal r false in
      let counted = count_request rl ip now later (window_of ip rl.clients) in
      if is_limited rl r.path then counted else (rl, unlimited)

-- A tick of the cleanup goroutine: every client whose window is over goes.
unfoldable pub drop_expired : ℕ → List (Bytes × RateLimitWindow) → List (Bytes × RateLimitWindow)
drop_expired now [] = []
drop_expired now (c ∷ cs) =
    let rest = drop_expired now cs in if ltb c.1.reset_at now then rest else c ∷ rest

unfoldable pub cleanup : GlobalRateLimiter → ℕ → GlobalRateLimiter
unfolding drop_expired
cleanup rl now = record rl { clients = drop_expired now rl.clients }

pub record RateLimitStats : Type 0 where
  pub rate : ℤ
  pub active_clients : ℕ

unfoldable pub stats : GlobalRateLimiter → RateLimitStats
stats rl = record { rate = rl.rate; active_clients = length rl.clients }
