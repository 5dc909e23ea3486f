-- ===== src/Build/TenantQueue/Counting.antt =====
-- Counting the jobs of the queue, and its tokens for each tenant.
use text.Mathlib.Text.{◌==◌ as str_eq}
use deploy_monster.Prelude.{ℕ, ◌≡◌, Bool, ◌&&◌, List, String, arith, if◌then◌else◌, leb, ◌==◌}
use deploy_monster.Prelude.Dict.{lookup, insert, get_or, lookup-insert}
use deploy_monster.Build.TenantQueue.{Job, phase_index}

-- A job that runs holds a token of the global channel.
abbrev pub holds_global : Job → Bool
holds_global j = phase_index j.phase == 2

-- A job holds a token of its tenant from the second select of Submit until it gives it back.
abbrev pub holds_tenant : String → Job → Bool
holds_tenant tenant j =
    str_eq j.tenant tenant && (leb 1 (phase_index j.phase) && leb (phase_index j.phase) 3)

-- A job is counted by the WaitGroup until its end.
abbrev pub is_live : Job → Bool
is_live j = leb (phase_index j.phase) 4

abbrev pub tokens : String → List (String × ℕ) → ℕ
tokens tenant tenants = get_or (lookup tenant tenants) 0

pub tokens-insert :
    (tenant other : String) (n : ℕ) (tenants : List (String × ℕ))
    → tokens other (insert tenant n tenants)
      ≡ (if str_eq tenant other then n else tokens other tenants)
tokens-insert tenant other n tenants =
    let found = lookup-insert tenant other n tenants in ground arith
