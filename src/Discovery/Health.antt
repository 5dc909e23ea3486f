-- ===== src/Discovery/Health.antt =====
-- internal/discovery/health.go: the health checks of the backends.
-- What a probe over HTTP or TCP gives is the argument `probe`: `none`, or an error. A sweep copies
-- the list of checks, probes without a lock and then commits the results, so that registrations can
-- come in between.
pub mod Streaks
mod Tests
use text.Mathlib.Text.{◌==◌ as str_eq}
use deploy_monster.Prelude.{
  ℕ, ◌+◌, Bool, true, false, ◌&&◌, List, [], ◌∷◌, Option, none, some, String, if◌then◌else◌, leb,
  map,
}
use deploy_monster.Prelude.Dict.{lookup, insert, delete}

pub record HealthCheck : Type 0 where
  pub check_type : String
  pub path : String
  pub healthy : Bool
  pub last_checked : ℕ
  pub last_error : Option ℕ
  pub failures : ℕ
  pub threshold : ℕ

-- The checks by backend.
pub record HealthChecker : Type 0 where
  pub checks : List (String × HealthCheck)

unfoldable pub new_health_checker : HealthChecker
new_health_checker = record { checks = [] }

abbrev pub fresh_check : String → String → HealthCheck
fresh_check check_type path = record {
  check_type = check_type;
  path = path;
  healthy = true;
  last_checked = 0;
  last_error = none;
  failures = 0;
  threshold = 3;
}

unfoldable pub register : HealthChecker → (backend check_type path : String) → HealthChecker
register hc backend check_type path = record {
  checks = insert backend (fresh_check check_type path) hc.checks;
}

unfoldable pub deregister : HealthChecker → String → HealthChecker
deregister hc backend = record { checks = delete backend hc.checks }

abbrev healthy_of : Option HealthCheck → Bool
healthy_of none = true
healthy_of (some c) = c.healthy

unfoldable pub is_healthy : HealthChecker → String → Bool
is_healthy hc backend = healthy_of (lookup backend hc.checks)

unfoldable pub status : HealthChecker → List (String × HealthCheck)
status hc = hc.checks

pub record CheckResult : Type 0 where
  pub backend : String
  pub err : Option ℕ
  pub now : ℕ

-- One result at its check: an error, or none.
after_probe : HealthCheck → ℕ → Option ℕ → HealthCheck
after_probe c now none = record c {
  last_checked = now;
  healthy = true;
  failures = 0;
  last_error = none;
}
after_probe c now (some error) = record c {
  last_checked = now;
  failures = c.failures + 1;
  last_error = some error;
  healthy = if leb c.threshold (c.failures + 1) && c.healthy then false else c.healthy;
}

-- A result for a backend that is no longer registered is dropped.
commit_found : HealthChecker → CheckResult → Option HealthCheck → HealthChecker
commit_found hc r none = hc
commit_found hc r (some c) = record {
  checks = insert r.backend (after_probe c r.now r.err) hc.checks;
}

unfoldable pub commit_one : HealthChecker → CheckResult → HealthChecker
unfolding commit_found after_probe
commit_one hc r = commit_found hc r (lookup r.backend hc.checks)

-- The third phase of checkAll.
unfoldable pub commit : HealthChecker → List CheckResult → HealthChecker
unfolding commit_one
commit hc [] = hc
commit hc (r ∷ rs) = commit (commit_one hc r) rs

module _ (probe : String → HealthCheck → Option ℕ) where
  -- The first two phases: a result for each check that is there now.
  unfoldable pub probe_all : HealthChecker → ℕ → List CheckResult
  probe_all hc now = map (λ c. record { backend = c.0; err = probe c.0 c.1; now = now }) hc.checks

  -- checkAll, with what other goroutines do to the checks while it probes.
  unfoldable pub check_all : HealthChecker → (HealthChecker → HealthChecker) → ℕ → HealthChecker
  unfolding probe_all commit
  check_all hc meanwhile now = commit (meanwhile hc) (probe_all hc now)
