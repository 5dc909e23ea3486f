-- ===== src/Api/GlobalLimiter/Window.antt =====
-- What a request and a sweep do to the window of a client.
use deploy_monster.Prelude.{
  ℕ, ◌+◌, ◌≤◌, ◌≡◌, refl, Bool, true, false, List, [], ◌∷◌, Option, none, some, arith,
  if◌then◌else◌, ltb,
}
use deploy_monster.Prelude.Int.{pos}
use deploy_monster.Prelude.Bytes.{Bytes, eq, eq_iff, eq_self}
use deploy_monster.Api.GlobalLimiter.{
  RateLimitWindow, GlobalRateLimiter, Response, unlimited, served, too_many_requests, window_of,
  put_window, count_request, should_rate_limit, is_limited, drop_expired,
}

pub window_of-put_window :
    (ip j : Bytes) (w : RateLimitWindow) (cs : List (Bytes × RateLimitWindow))
    → window_of ip (put_window j w cs) ≡ (if eq j ip then some w else window_of ip cs)
unfolding window_of put_window
window_of-put_window ip j w [] = refl
window_of-put_window ip j w (c ∷ cs) =
    let ih = window_of-put_window ip j w cs in
    ground (arith, eq_iff c.0 j, eq_iff c.0 ip, eq_iff j ip)

-- A sweep leaves a window that is not over.
pub window_of-drop_expired :
    (ip : Bytes) (now : ℕ) (w : RateLimitWindow) (cs : List (Bytes × RateLimitWindow))
    → window_of ip cs ≡ some w
    → now ≤ w.reset_at
    → window_of ip (drop_expired now cs) ≡ some w
unfolding window_of drop_expired
window_of-drop_expired ip now w [] found in_time = cc
window_of-drop_expired ip now w (c ∷ cs) found in_time =
    ground (arith, window_of-drop_expired ip now w cs)

unfoldable pub is_served : Response → Bool
is_served unlimited = false
is_served (served remaining reset_at) = true
is_served (too_many_requests retry_after reset_at) = false

-- The limits that no event changes.
abbrev pub SameLimits : GlobalRateLimiter → GlobalRateLimiter → Type 0
SameLimits a b = (a.rate ≡ b.rate) × (a.allowlist ≡ b.allowlist)

pub is_limited-SameLimits :
    (a b : GlobalRateLimiter) (path : Bytes)
    → SameLimits a b
    → is_limited a path ≡ is_limited b path
unfolding is_limited should_rate_limit
is_limited-SameLimits a b path (rates, lists) = rw (rates, lists) refl

pub count_request-SameLimits :
    (rl : GlobalRateLimiter) (ip : Bytes) (now later : ℕ) (o : Option RateLimitWindow)
    → SameLimits (count_request rl ip now later o).0 rl
unfolding count_request
count_request-SameLimits rl ip now later none = (refl, refl)
count_request-SameLimits rl ip now later (some w) = (ground arith, ground arith)

pub count_request-other :
    (rl : GlobalRateLimiter) (ip j : Bytes) (now later : ℕ) (o : Option RateLimitWindow)
    → eq j ip ≡ false
    → window_of ip (count_request rl j now later o).0.clients ≡ window_of ip rl.clients
unfolding count_request
count_request-other rl ip j now later none other = rw (window_of-put_window, other) refl
count_request-other rl ip j now later (some w) other =
    let anew =
      window_of-put_window ip j (record { count = 1; reset_at = now + rl.window }) rl.clients in
    let again = window_of-put_window ip j (record w { count = w.count + 1 }) rl.clients in
    ground arith

-- A request in a window that is running.
pub count_request-own :
    (rl : GlobalRateLimiter) (ip : Bytes) (now later n : ℕ) (w : RateLimitWindow)
    → rl.rate ≡ pos n
    → window_of ip rl.clients ≡ some w
    → now ≤ w.reset_at
    → let out = count_request rl ip now later (some w) in
      (window_of ip out.0.clients
        ≡ some (record w { count = w.count + (if ltb w.count n then 1 else 0) }))
      × (is_served out.1 ≡ ltb w.count n)
unfolding count_request is_served
count_request-own rl ip now later n w rate found in_time =
    let again = window_of-put_window ip ip (record w { count = w.count + 1 }) rl.clients in
    let self = eq_self ip in (ground arith, ground arith)
