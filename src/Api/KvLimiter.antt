-- ===== src/Api/KvLimiter.antt =====
-- internal/api/middleware/ratelimit.go and tenant_ratelimit.go: the limiters of logins and of
-- tenants, which keep their counts in the bucket "ratelimit" of the key-value store.
-- The bucket holds for each key an entry with the fields of a window; an entry that has expired or
-- cannot be read is not found. Times are in seconds. Both hold a mutex from the read to the write.
pub mod Quota
mod Tests
use deploy_monster.Prelude.{
  ℕ, ◌+◌, ◌-◌, Bool, true, false, not, ◌||◌, List, [], ◌∷◌, ◌++◌, Option, none, some, if◌then◌else◌,
  ltb, leb,
}
use deploy_monster.Prelude.Int.{ℤ, pos, ltb_ℤ, ◌-ℤ◌}
use deploy_monster.Prelude.Bytes.{Bytes, bytes, is_empty}
use deploy_monster.Api.ClientIp.{Request, safe_client_ip}
use deploy_monster.Api.GlobalLimiter.{RateLimitWindow, window_of, put_window}

abbrev pub Bucket : Type 0
Bucket = List (Bytes × RateLimitWindow)

-- Passed on without a count, passed on with what remains until when, or refused with Retry-After.
pub data Verdict : Type 0 where
  unlimited : Verdict
  served : (remaining : ℤ) → (reset_at : ℕ) → Verdict
  refused : (retry_after reset_at : ℕ) → Verdict

-- From the read of the entry on: the part that the two limiters share.
unfoldable pub count_entry : ℤ → ℕ → Bucket → Bytes → ℕ → Option RateLimitWindow → Bucket × Verdict
count_entry rate window_sec kv key now none = (
  put_window key (record { count = 1; reset_at = now + window_sec }) kv,
  served (rate -ℤ pos 1) (now + window_sec),
)
count_entry rate window_sec kv key now (some entry) =
    if leb entry.reset_at now
    then (
      put_window key (record { count = 1; reset_at = now + window_sec }) kv,
      served (rate -ℤ pos 1) (now + window_sec),
    )
    else if not (ltb_ℤ (pos entry.count) rate)
    then (kv, refused (entry.reset_at - now) entry.reset_at)
    else (
      put_window key (record entry { count = entry.count + 1 }) kv,
      served (rate -ℤ pos (entry.count + 1)) entry.reset_at,
    )

pub record AuthRateLimiter : Type 0 where
  pub rate : ℤ
  pub window_sec : ℕ
  pub prefix : Bytes

unfoldable pub auth_key : AuthRateLimiter → Bytes → Bytes
auth_key rl ip = bytes "auth_rl:" ++ (rl.prefix ++ (bytes ":" ++ ip))

module _ (parse_ip : Bytes → Option Bytes) (is_internal : Bytes → Bool) where
  -- AuthRateLimiter.Wrap with a store.
  unfoldable pub wrap : AuthRateLimiter → Bucket → Request → ℕ → Bucket × Verdict
  unfolding count_entry
  wrap rl kv r now =
      let key = auth_key rl (safe_client_ip parse_ip is_internal r false) in
      count_entry rl.rate rl.window_sec kv key now (window_of key kv)

pub record TenantRateLimiter : Type 0 where
  pub default_rate : ℤ
  pub window_sec : ℕ

-- The rate of a tenant: RequestsPerMinute of its configuration, if it can be read and is positive.
unfoldable pub tenant_rate : TenantRateLimiter → Option ℤ → ℤ
tenant_rate trl none = trl.default_rate
tenant_rate trl (some per_minute) =
    if ltb_ℤ (pos 0) per_minute then per_minute else trl.default_rate

-- The middleware for the tenant of the claims, `none` if there are no claims.
unfoldable pub tenant_middleware :
    TenantRateLimiter → Bucket → Option Bytes → Option ℤ → ℕ → Bucket × Verdict
unfolding count_entry tenant_rate
tenant_middleware trl kv none config now = (kv, unlimited)
tenant_middleware trl kv (some tenant) config now =
    let rate = tenant_rate trl config in
    let key = bytes "trl:" ++ tenant in
    let counted = count_entry rate trl.window_sec kv key now (window_of key kv) in
    if is_empty tenant || not (ltb_ℤ (pos 0) rate) then (kv, unlimited) else counted
