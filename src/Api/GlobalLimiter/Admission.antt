-- ===== src/Api/GlobalLimiter/Admission.antt =====
-- How many requests of one client go through in a window of the limiter.
use Prim.Native.Nat.{min}
use deploy_monster.Prelude.{
  ℕ, suc, ◌+◌, ◌-◌, ◌≤◌, ◌<◌, ◌≡◌, refl, ◌∙◌, Bool, true, false, ◌&&◌, List, [], ◌∷◌, Option, none,
  some, arith, ltb, Bool-cases, inl, inr,
}
use deploy_monster.Prelude.Int.{pos}
use deploy_monster.Prelude.Counting.{one_if}
use deploy_monster.Prelude.Find.{All}
use deploy_monster.Prelude.Bytes.{Bytes, eq, eq_iff, eq_self}
use deploy_monster.Api.ClientIp.{Request, safe_client_ip}
use deploy_monster.Api.GlobalLimiter.{
  RateLimitWindow, GlobalRateLimiter, window_of, count_request, is_limited, middleware, cleanup,
}
use deploy_monster.Api.GlobalLimiter.Window.{
  window_of-put_window, window_of-drop_expired, is_served, SameLimits, is_limited-SameLimits,
  count_request-SameLimits, count_request-other, count_request-own,
}

pub data Event : Type 0 where
  request : Request → (now later : ℕ) → Event
  sweep : (now : ℕ) → Event

abbrev pub time_of : Event → ℕ
time_of (request r now later) = now
time_of (sweep now) = now

module _ (parse_ip : Bytes → Option Bytes) (is_internal : Bytes → Bool) where
  unfoldable pub step : GlobalRateLimiter → Event → GlobalRateLimiter
  unfolding middleware cleanup
  step rl (request r now later) = (middleware parse_ip is_internal rl r now later).0
  step rl (sweep now) = cleanup rl now

  -- Whether an event is a request that counts for `ip`.
  unfoldable pub asks : Bytes → GlobalRateLimiter → Event → Bool
  asks ip rl (request r now later) =
      is_limited rl r.path && eq (safe_client_ip parse_ip is_internal r false) ip
  asks ip rl (sweep now) = false

  -- Whether it does and goes through.
  unfoldable pub admits : Bytes → GlobalRateLimiter → Event → Bool
  unfolding asks is_served
  admits ip rl (request r now later) =
      asks ip rl (request r now later)
      && is_served (middleware parse_ip is_internal rl r now later).1
  admits ip rl (sweep now) = false

  -- The requests that count for `ip`, under the limits of `rl`.
  unfoldable pub asked : Bytes → GlobalRateLimiter → List Event → ℕ
  unfolding asks
  asked ip rl [] = 0
  asked ip rl (e ∷ es) = one_if (asks ip rl e) + asked ip rl es

  -- Those that go through, from the state `rl`.
  unfoldable pub admitted : Bytes → GlobalRateLimiter → List Event → ℕ
  unfolding admits step
  admitted ip rl [] = 0
  admitted ip rl (e ∷ es) = one_if (admits ip rl e) + admitted ip (step rl e) es

  pub step-SameLimits : (rl : GlobalRateLimiter) (e : Event) → SameLimits (step rl e) rl
  unfolding step middleware
  step-SameLimits rl (request r now later) =
      let ip = safe_client_ip parse_ip is_internal r false in
      let same = count_request-SameLimits rl ip now later (window_of ip rl.clients) in
      (ground arith, ground arith)
  step-SameLimits rl (sweep now) = (refl, refl)

  asks-SameLimits :
      (ip : Bytes) (a b : GlobalRateLimiter) (e : Event)
      → SameLimits a b
      → asks ip a e ≡ asks ip b e
  unfolding asks
  asks-SameLimits ip a b (request r now later) same =
      rw (is_limited-SameLimits a b r.path same) refl
  asks-SameLimits ip a b (sweep now) same = refl

  asked-SameLimits :
      (ip : Bytes) (a b : GlobalRateLimiter) (es : List Event)
      → SameLimits a b
      → asked ip a es ≡ asked ip b es
  unfolding asked
  asked-SameLimits ip a b [] same = refl
  asked-SameLimits ip a b (e ∷ es) same =
      rw (asks-SameLimits ip a b e same, asked-SameLimits ip a b es same) refl

  -- What an event does to the running window of `ip`.
  Turns : Bytes → GlobalRateLimiter → ℕ → RateLimitWindow → Event → Type 0
  unfolding step admits asks
  Turns ip rl n w e =
      (window_of ip (step rl e).clients
        ≡ some (record w { count = w.count + one_if (admits ip rl e) }))
      × (admits ip rl e ≡ (asks ip rl e && ltb w.count n))

  own_turn :
      (ip : Bytes) (rl : GlobalRateLimiter) (n : ℕ) (w : RateLimitWindow) (r : Request)
      (now later : ℕ)
      → rl.rate ≡ pos n
      → window_of ip rl.clients ≡ some w
      → now ≤ w.reset_at
      → safe_client_ip parse_ip is_internal r false ≡ ip
      → Turns ip rl n w (request r now later)
  unfolding Turns step admits asks middleware
  own_turn ip rl n w r now later rate found in_time same =
      let own = count_request-own rl ip now later n w rate found in_time in
      let self = eq_self ip in rw (same, found) (ground arith, ground arith)

  turn :
      (ip : Bytes) (rl : GlobalRateLimiter) (n : ℕ) (w : RateLimitWindow) (e : Event)
      → rl.rate ≡ pos n
      → window_of ip rl.clients ≡ some w
      → time_of e ≤ w.reset_at
      → Turns ip rl n w e
  unfolding Turns step admits asks middleware cleanup
  turn ip rl n w (sweep now) rate found in_time =
      let kept = window_of-drop_expired ip now w rl.clients found in_time in (ground arith, refl)
  turn ip rl n w (request r now later) rate found in_time =
      let j = safe_client_ip parse_ip is_internal r false in
      elim (Bool-cases (eq j ip)) [
        | inl same ↦ own_turn ip rl n w r now later rate found in_time ((eq_iff j ip).0 same)
        | inr other ↦
            let kept = count_request-other rl ip j now later (window_of j rl.clients) other in
            (ground arith, ground arith)
      ]

  -- While the window of a client runs, of the requests that count for it exactly the first
  -- `rate - count` go through.
  pub window_quota :
      (ip : Bytes) (n : ℕ) (es : List Event) (rl : GlobalRateLimiter) (w : RateLimitWindow)
      → rl.rate ≡ pos n
      → window_of ip rl.clients ≡ some w
      → All (λ e. time_of e ≤ w.reset_at) es
      → admitted ip rl es ≡ min (n - w.count) (asked ip rl es)
  unfolding admitted asked Turns
  window_quota ip n [] rl w rate found in_time = omega arith
  window_quota ip n (e ∷ es) rl w rate found (now, in_time) =
      let (next_window, verdict) = turn ip rl n w e rate found now in
      let same = step-SameLimits rl e in
      let w' : RateLimitWindow = record w { count = w.count + one_if (admits ip rl e) } in
      let ih = window_quota ip n es (step rl e) w' (same.0 ∙ rate) next_window in_time in
      let asked_same = asked-SameLimits ip (step rl e) rl es same in ground arith

  -- Whether the next request of `ip` starts a window.
  abbrev pub starts : Option RateLimitWindow → ℕ → Bool
  starts none now = true
  starts (some w) now = ltb w.reset_at now

  first_turn :
      (ip : Bytes) (rl : GlobalRateLimiter) (r : Request) (now later : ℕ)
      (o : Option RateLimitWindow)
      → starts o now ≡ true
      → (window_of ip (count_request rl ip now later o).0.clients
          ≡ some (record { count = 1; reset_at = now + rl.window }))
        × (is_served (count_request rl ip now later o).1 ≡ true)
  unfolding count_request is_served
  first_turn ip rl r now later none h =
      let put =
        window_of-put_window ip ip (record { count = 1; reset_at = now + rl.window }) rl.clients in
      let self = eq_self ip in (ground arith, refl)
  first_turn ip rl r now later (some w) h =
      let put =
        window_of-put_window ip ip (record { count = 1; reset_at = now + rl.window }) rl.clients in
      let self = eq_self ip in (ground arith, ground arith)

  -- Whatever happened before: a request that starts a window of a client under a positive rate is
  -- the first of the window; of it and the requests that count for the client until the window
  -- ends, with any other requests and sweeps between, exactly the first `rate` go through.
  pub window_admits_rate :
      (rl : GlobalRateLimiter) (n : ℕ) (r : Request) (now later : ℕ) (es : List Event)
      → rl.rate ≡ pos n
      → 0 < n
      → is_limited rl r.path ≡ true
      → starts (window_of (safe_client_ip parse_ip is_internal r false) rl.clients) now ≡ true
      → All (λ e. time_of e ≤ now + rl.window) es
      → let ip = safe_client_ip parse_ip is_internal r false in
        admitted ip rl (request r now later ∷ es) ≡ min n (suc (asked ip rl es))
  unfolding admitted admits asks step middleware
  window_admits_rate rl n r now later es rate positive limited fresh in_time =
      let ip = safe_client_ip parse_ip is_internal r false in
      let (opened, passes) = first_turn ip rl r now later (window_of ip rl.clients) fresh in
      let rl' = (count_request rl ip now later (window_of ip rl.clients)).0 in
      let same = count_request-SameLimits rl ip now later (window_of ip rl.clients) in
      let quota =
        window_quota ip n es rl' (record { count = 1; reset_at = now + rl.window }) (same.0 ∙ rate)
          opened in_time in
      let asked_same = asked-SameLimits ip rl' rl es same in
      let self = eq_self ip in rw limited ground arith
