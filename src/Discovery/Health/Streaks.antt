-- ===== src/Discovery/Health/Streaks.antt =====
-- A backend is healthy as long as its last probes have not failed three times in a row.
use mathlib.Core.Path.{subst}
use text.Mathlib.Text.{◌==◌ as str_eq}
use text.Mathlib.TextEquality.{eq_iff}
use deploy_monster.Prelude.{
  ℕ, suc, ◌≡◌, refl, sym, ap, Bool, true, false, List, [], ◌∷◌, Option, none, some, String, arith,
  if◌then◌else◌, ltb, Bool-cases, inl, inr,
}
use deploy_monster.Prelude.Dict.{lookup, lookup-insert, lookup-delete}
use deploy_monster.Discovery.Health.{
  HealthCheck, HealthChecker, CheckResult, new_health_checker, register, deregister, is_healthy,
  healthy_of, after_probe, commit_found, commit_one, commit,
}

pub data Event : Type 0 where
  registers : (backend check_type path : String) → Event
  deregisters : (backend : String) → Event
  commits : List CheckResult → Event

unfoldable pub step : HealthChecker → Event → HealthChecker
unfolding register deregister commit
step hc (registers backend check_type path) = register hc backend check_type path
step hc (deregisters backend) = deregister hc backend
step hc (commits rs) = commit hc rs

unfoldable pub run : HealthChecker → List Event → HealthChecker
unfolding step
run hc [] = hc
run hc (e ∷ es) = run (step hc e) es

-- What is known of a backend: nothing, or the results of its probes since it was registered, the
-- last one first, `true` for a failure.
abbrev pub History : Type 0
History = Option (List Bool)

abbrev pub failed : Option ℕ → Bool
failed none = false
failed (some error) = true

abbrev pub probed : String → History → List CheckResult → History
probed b none rs = none
probed b (some bs) [] = some bs
probed b (some bs) (r ∷ rs) =
    probed b (some (if str_eq r.backend b then failed r.err ∷ bs else bs)) rs

abbrev pub noted : String → History → Event → History
noted b h (registers backend check_type path) = if str_eq backend b then some [] else h
noted b h (deregisters backend) = if str_eq backend b then none else h
noted b h (commits rs) = probed b h rs

abbrev pub history : String → History → List Event → History
history b h [] = h
history b h (e ∷ es) = history b (noted b h e) es

-- How many of the last probes failed in a row.
abbrev pub streak : List Bool → ℕ
streak [] = 0
streak (true ∷ bs) = suc (streak bs)
streak (false ∷ bs) = 0

-- The check of a backend says what its history says.
abbrev pub Shows : Option HealthCheck → History → Type 0
Shows none none = Unit
Shows none (some bs) = ⊥
Shows (some c) none = ⊥
Shows (some c) (some bs) =
    (c.threshold ≡ 3) × (c.failures ≡ streak bs) × (c.healthy ≡ ltb (streak bs) 3)

commit_one-other :
    (b : String) (hc : HealthChecker) (r : CheckResult) (o : Option HealthCheck)
    → str_eq r.backend b ≡ false
    → lookup b (commit_found hc r o).checks ≡ lookup b hc.checks
unfolding commit_found
commit_one-other b hc r none other = refl
commit_one-other b hc r (some c) other = rw (lookup-insert, other) refl

-- One result in the history of a backend.
abbrev one_more : History → CheckResult → History
one_more none r = none
one_more (some bs) r = some (failed r.err ∷ bs)

abbrev after : History → Bool → CheckResult → History
after none mine r = none
after (some bs) mine r = some (if mine then failed r.err ∷ bs else bs)

after-mine : (h : History) (r : CheckResult) → after h true r ≡ one_more h r
after-mine none r = refl
after-mine (some bs) r = refl

after-other : (h : History) (r : CheckResult) → after h false r ≡ h
after-other none r = refl
after-other (some bs) r = refl

after_probe-Shows :
    (c : HealthCheck) (bs : List Bool) (now : ℕ) (err : Option ℕ)
    → Shows (some c) (some bs)
    → Shows (some (after_probe c now err)) (some (failed err ∷ bs))
unfolding after_probe
after_probe-Shows c bs now none (three, count, fit) = (three, refl, refl)
after_probe-Shows c bs now (some error) (three, count, fit) = (three, ground arith, ground arith)

commit_found-Shows :
    (b : String) (hc : HealthChecker) (r : CheckResult) (o : Option HealthCheck) (h : History)
    → str_eq r.backend b ≡ true
    → lookup b hc.checks ≡ o
    → Shows o h
    → Shows (lookup b (commit_found hc r o).checks) (one_more h r)
unfolding commit_found
commit_found-Shows b hc r none none same found shows = rw found tt
commit_found-Shows b hc r none (some bs) same found shows = absurd shows
commit_found-Shows b hc r (some c) none same found shows = absurd shows
commit_found-Shows b hc r (some c) (some bs) same found shows =
    rw (lookup-insert, same) (after_probe-Shows c bs r.now r.err shows)

commit_one-Shows :
    (b : String) (hc : HealthChecker) (r : CheckResult) (h : History)
    → Shows (lookup b hc.checks) h
    → Shows (lookup b (commit_one hc r).checks) (after h (str_eq r.backend b) r)
unfolding commit_one
commit_one-Shows b hc r h shows = elim (Bool-cases (str_eq r.backend b)) [
  | inl same ↦
      let name : r.backend ≡ b = (eq_iff r.backend b).0 same in
      rw (same, after-mine h r)
        (commit_found-Shows b hc r (lookup r.backend hc.checks) h same
          (ap (λ n. lookup n hc.checks) (sym name))
          (subst (λ n. Shows (lookup n hc.checks) h) (sym name) shows))
  | inr other ↦
      rw (other, after-other h r, commit_one-other b hc r (lookup r.backend hc.checks) other) shows
]

commit-Shows :
    (b : String) (rs : List CheckResult) (hc : HealthChecker) (h : History)
    → Shows (lookup b hc.checks) h
    → Shows (lookup b (commit hc rs).checks) (probed b h rs)
unfolding commit
commit-Shows b [] hc none shows = shows
commit-Shows b [] hc (some bs) shows = shows
commit-Shows b (r ∷ rs) hc none shows =
    commit-Shows b rs (commit_one hc r) none (commit_one-Shows b hc r none shows)
commit-Shows b (r ∷ rs) hc (some bs) shows =
    commit-Shows b rs (commit_one hc r) _ (commit_one-Shows b hc r (some bs) shows)

step-Shows :
    (b : String) (e : Event) (hc : HealthChecker) (h : History)
    → Shows (lookup b hc.checks) h
    → Shows (lookup b (step hc e).checks) (noted b h e)
unfolding step register deregister
step-Shows b (registers backend check_type path) hc h shows = elim (Bool-cases (str_eq backend b)) [
  | inl same ↦ rw (lookup-insert, same) (refl, refl, refl)
  | inr other ↦ rw (lookup-insert, other) shows
]
step-Shows b (deregisters backend) hc h shows = elim (Bool-cases (str_eq backend b)) [
  | inl same ↦ rw (lookup-delete, same) tt
  | inr other ↦ rw (lookup-delete, other) shows
]
step-Shows b (commits rs) hc h shows = commit-Shows b rs hc h shows

run-Shows :
    (b : String) (es : List Event) (hc : HealthChecker) (h : History)
    → Shows (lookup b hc.checks) h
    → Shows (lookup b (run hc es).checks) (history b h es)
unfolding run
run-Shows b [] hc h shows = shows
run-Shows b (e ∷ es) hc h shows =
    run-Shows b es (step hc e) (noted b h e) (step-Shows b e hc h shows)

-- What the ingress should hear of a backend with this history.
abbrev pub fit : History → Bool
fit none = true
fit (some bs) = ltb (streak bs) 3

fit_lem : (o : Option HealthCheck) (h : History) → Shows o h → healthy_of o ≡ fit h
fit_lem none none shows = refl
fit_lem none (some bs) shows = absurd shows
fit_lem (some c) none shows = absurd shows
fit_lem (some c) (some bs) (three, count, healthy) = healthy

-- After any registrations, removals and sweeps, in any order, a backend is healthy exactly if it is
-- not registered or fewer than three of its probes, counted back from the last one and at most to
-- its last registration, have failed in a row. One probe without an error makes it healthy again.
pub is_healthy_lem :
    (b : String) (es : List Event)
    → is_healthy (run new_health_checker es) b ≡ fit (history b none es)
unfolding is_healthy new_health_checker lookup
is_healthy_lem b es =
    fit_lem (lookup b (run new_health_checker es).checks) (history b none es)
      (run-Shows b es new_health_checker none tt)
