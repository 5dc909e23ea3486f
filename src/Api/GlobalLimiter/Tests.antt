-- ===== src/Api/GlobalLimiter/Tests.antt =====
-- The limiter at concrete requests.
use Prim.Native.Nat.{min}
use deploy_monster.Prelude.{
  ℕ, ◌≡◌, refl, Bool, false, List, [], ◌∷◌, Option, none, some, arith, String, suc,
}
use deploy_monster.Prelude.Int.{pos}
use deploy_monster.Prelude.Bytes.{Bytes, bytes, has_prefix, count, contains, trim_space, eq}
use deploy_monster.Api.ClientIp.{Request, safe_client_ip, strip_port}
use deploy_monster.Api.GlobalLimiter.{
  GlobalRateLimiter, new_global_rate_limiter, set_rate_limited_prefixes, middleware, unlimited,
  too_many_requests, cleanup, stats, window_of, is_limited,
}
use deploy_monster.Api.GlobalLimiter.Admission.{
  Event, request, sweep, asked, admitted, window_admits_rate,
}
use deploy_monster.Api.GlobalLimiter.Spoofing.{Claimed, any_refused, rotating_real_ip}

abbrev verbatim : Bytes → Option Bytes
verbatim [] = none
verbatim (c ∷ s) = some (c ∷ s)

abbrev nowhere : Bytes → Bool
nowhere s = false

abbrev get : String → String → Request
get remote real = record {
  path = bytes "/api/v1/apps";
  remote_addr = bytes remote;
  x_real_ip = bytes real;
  x_forwarded_for = [];
}

abbrev two_a_minute : GlobalRateLimiter
two_a_minute = new_global_rate_limiter (pos 2) 60_000_000_000

abbrev host : Request
host = get "203.0.113.7:4001" ""

abbrev traffic : List Event
traffic =
    request (get "198.51.100.1:99" "") 10 10
    ∷ request host 20 20
    ∷ sweep 30
    ∷ request host 40 41
    ∷ request host 50 50
    ∷ []

-- Of four requests two go through.
window_admits_rate_example :
    admitted verbatim nowhere (bytes "203.0.113.7") two_a_minute (request host 5 5 ∷ traffic)
    ≡ min 2 (suc (asked verbatim nowhere (bytes "203.0.113.7") two_a_minute traffic))
unfolding new_global_rate_limiter is_limited window_of safe_client_ip strip_port contains count
window_admits_rate_example =
    window_admits_rate verbatim nowhere two_a_minute 2 host 5 5 traffic refl (omega arith) refl refl
      (omega arith, (omega arith, (omega arith, (omega arith, (omega arith, tt)))))

two_admitted :
    admitted verbatim nowhere (bytes "203.0.113.7") two_a_minute (request host 5 5 ∷ traffic) ≡ 2
unfolding admitted new_global_rate_limiter eq safe_client_ip strip_port contains count window_of
two_admitted = refl

abbrev claimed : String → ℕ → Claimed
claimed ip now = record { sent = get "203.0.113.7:4001" ip; now = now; later = now; ip = bytes ip }

abbrev spoofed : List Claimed
spoofed = claimed "192.0.2.1" 1 ∷ claimed "192.0.2.2" 2 ∷ claimed "192.0.2.3" 3 ∷ []

rotating_real_ip_example :
    any_refused verbatim nowhere (new_global_rate_limiter (pos 1) 60_000_000_000) spoofed ≡ false
unfolding new_global_rate_limiter window_of trim_space eq
rotating_real_ip_example =
    rotating_real_ip verbatim nowhere (new_global_rate_limiter (pos 1) 60_000_000_000) spoofed
      ((refl, refl, refl, refl), ((refl, refl, refl, refl), ((refl, refl, refl, refl), tt)))
      ((refl, (refl, tt)), ((refl, tt), (tt, tt)))

-- The refusal tells the seconds until the window is over, rounded up past the whole.
refusal :
    (middleware verbatim nowhere
      (middleware verbatim nowhere (new_global_rate_limiter (pos 1) 5_000_000_000) host 0 0).0
      host
      1_500_000_000
      1_500_000_000).1
    ≡ too_many_requests (pos 4) 5_000_000_000
unfolding middleware new_global_rate_limiter safe_client_ip strip_port contains count window_of eq
refusal = refl

assets_pass :
    (middleware verbatim nowhere
      (set_rate_limited_prefixes (new_global_rate_limiter (pos 1) 5) (bytes "/hooks/" ∷ []))
      host
      0
      0).1
    ≡ unlimited
unfolding middleware set_rate_limited_prefixes new_global_rate_limiter has_prefix
assets_pass = refl

swept :
    stats (cleanup (middleware verbatim nowhere two_a_minute host 5 5).0 60_000_000_006)
    ≡ record { rate = pos 2; active_clients = 0 }
unfolding stats cleanup middleware new_global_rate_limiter window_of
swept = refl
