-- ===== src/Api/KvLimiter/Quota.antt =====
-- How many logins go through in a window.
use deploy_monster.Prelude.{
  ℕ, ◌+◌, ◌≤◌, ◌≡◌, Bool, true, false, ◌&&◌, List, [], ◌∷◌, Option, none, some, ltb,
}
use deploy_monster.Prelude.Counting.{one_if}
use deploy_monster.Prelude.Bytes.{Bytes, eq}
use deploy_monster.Api.ClientIp.{Request, safe_client_ip}
use deploy_monster.Api.GlobalLimiter.{RateLimitWindow, window_of}
use deploy_monster.Api.KvLimiter.{
  Bucket, Verdict, unlimited, served, refused, AuthRateLimiter, auth_key, wrap,
}

is_served : Verdict → Bool
is_served unlimited = true
is_served (served remaining reset_at) = true
is_served (refused retry_after reset_at) = false

-- The store has no entry, or the window of the entry is over.
abbrev pub IsOver : Option RateLimitWindow → ℕ → Type 0
IsOver none now = Unit
IsOver (some w) now = w.reset_at ≤ now

module _ (parse_ip : Bytes → Option Bytes) (is_internal : Bytes → Bool) where
  -- The key that a request is counted under.
  abbrev pub key_of : AuthRateLimiter → Request → Bytes
  key_of rl r = auth_key rl (safe_client_ip parse_ip is_internal r false)

  -- The requests under a key, and those of them that go through.
  unfoldable pub asked : AuthRateLimiter → Bytes → List (Request × ℕ) → ℕ
  asked rl key [] = 0
  asked rl key ((r, now) ∷ rs) = one_if (eq (key_of rl r) key) + asked rl key rs

  unfoldable pub admitted : AuthRateLimiter → Bytes → Bucket → List (Request × ℕ) → ℕ
  unfolding wrap is_served
  admitted rl key kv [] = 0
  admitted rl key kv ((r, now) ∷ rs) =
      let (kv', verdict) = wrap parse_ip is_internal rl kv r now in
      one_if (eq (key_of rl r) key && is_served verdict) + admitted rl key kv' rs

  -- Whether a request is one under the key that goes through.
  admits : AuthRateLimiter → Bytes → Bucket → Request → ℕ → Bool
  unfolding wrap is_served
  admits rl key kv r now =
      eq (key_of rl r) key && is_served (wrap parse_ip is_internal rl kv r now).1

  -- What a request does to a window that runs.
  Turns : AuthRateLimiter → ℕ → Bytes → Bucket → RateLimitWindow → Request → ℕ → Type 0
  unfolding wrap admits
  Turns rl n key kv w r now =
      (window_of key (wrap parse_ip is_internal rl kv r now).0
        ≡ some (record w { count = w.count + one_if (admits rl key kv r now) }))
      × (admits rl key kv r now ≡ (eq (key_of rl r) key && ltb w.count n))
