-- ===== src/Api/KvLimiter/Tests.antt =====
-- Logins and tenants at concrete requests.
use deploy_monster.Prelude.{ℕ, ◌≡◌, refl, Bool, false, List, [], ◌∷◌, Option, none, some, String}
use deploy_monster.Prelude.Int.{pos, ◌-ℤ◌}
use deploy_monster.Prelude.Bytes.{Bytes, bytes, eq, contains, count}
use deploy_monster.Api.ClientIp.{Request, safe_client_ip, strip_port}
use deploy_monster.Api.GlobalLimiter.{window_of}
use deploy_monster.Api.KvLimiter.{
  Bucket, unlimited, served, refused, AuthRateLimiter, auth_key, wrap, tenant_middleware,
}

abbrev as_it_is : Bytes → Option Bytes
as_it_is [] = none
as_it_is (c ∷ s) = some (c ∷ s)

abbrev never : Bytes → Bool
never s = false

abbrev logins : AuthRateLimiter
logins = record { rate = pos 2; window_sec = 60; prefix = bytes "login" }

abbrev login : String → Request
login remote = record {
  path = bytes "/api/v1/auth/login";
  remote_addr = bytes remote;
  x_real_ip = [];
  x_forwarded_for = [];
}

abbrev tries : List (Request × ℕ)
tries =
    (login "203.0.113.7:2", 11) ∷ (login "198.51.100.1:9", 12) ∷ (login "203.0.113.7:3", 69) ∷ []

-- The entry of a window that is over.
abbrev stale : Bucket
stale = (bytes "auth_rl:login:203.0.113.7", record { count = 2; reset_at = 10 }) ∷ []

third_refused :
    (wrap as_it_is never logins
      ((bytes "auth_rl:login:203.0.113.7", record { count = 2; reset_at = 70 }) ∷ [])
      (login "203.0.113.7:3")
      69).1
    ≡ refused 1 70
unfolding wrap window_of eq auth_key safe_client_ip strip_port contains count
third_refused = refl

-- A rate of 0 still lets the first request of a window through.
zero_rate_serves_first :
    (wrap as_it_is never (record logins { rate = pos 0 }) [] (login "203.0.113.7:3") 69).1
    ≡ served (pos 0 -ℤ pos 1) 129
unfolding wrap window_of
zero_rate_serves_first = refl

-- The tenant's own rate counts before the default; no claims, no limit.
tenant_rates :
    ((tenant_middleware
        (record { default_rate = pos 100; window_sec = 60 })
        ((bytes "trl:acme", record { count = 3; reset_at = 70 }) ∷ [])
        (some (bytes "acme"))
        (some (pos 3))
        30).1
      ≡ refused 40 70)
    × ((tenant_middleware (record { default_rate = pos 100; window_sec = 60 }) [] none none 30).1
        ≡ unlimited)
unfolding tenant_middleware window_of eq
tenant_rates = (refl, refl)
