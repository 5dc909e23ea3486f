-- ===== src/Ingress/Weighted/Tests.antt =====
-- The weighted balancer at concrete pools.
use deploy_monster.Prelude.{◌<◌, ◌≡◌, refl, true, List, [], ◌∷◌, String}
use deploy_monster.Prelude.Int.{pos, negsuc, ◌+ℤ◌}
use deploy_monster.Prelude.Names.{has}
use deploy_monster.Prelude.Dict.{lookup, insert}
use deploy_monster.Ingress.Weighted.{
  Weighted, next, weight, scan, scan_one, total_weight, current_of,
}
use deploy_monster.Ingress.Weighted.Sums.{sum_current}
use deploy_monster.Ingress.Weighted.Conservation.{
  IsPool, next_conserves, next_picks, serve, serve_conserves,
}

abbrev tiers : Weighted
tiers = record {
  weights = ("a", 5) ∷ ("b", 1) ∷ ("c", 0) ∷ [];
  current = ("a", negsuc 1) ∷ ("b", pos 1) ∷ [];
}

abbrev pool : List String
pool = "c" ∷ "a" ∷ "b" ∷ []

pool-IsPool : IsPool pool
unfolding has
pool-IsPool = record { distinct = (refl, (refl, (refl, tt))); named = refl }

next_conserves_example :
    ((next tiers pool).0.weights ≡ tiers.weights)
    × (sum_current (next tiers pool).0.current pool ≡ sum_current tiers.current pool)
next_conserves_example = next_conserves tiers pool pool-IsPool

served_by_a_backend :
    (has (next tiers pool).1 pool ≡ true)
    × (0 < total_weight tiers pool → 0 < weight tiers (next tiers pool).1)
served_by_a_backend = next_picks tiers "c" ("a" ∷ "b" ∷ []) pool-IsPool

serve_conserves_example :
    sum_current (serve 7 tiers pool).current pool ≡ sum_current tiers.current pool
serve_conserves_example = serve_conserves 7 tiers pool pool-IsPool

heavier_first : (next tiers pool).1 ≡ "a"
unfolding next scan scan_one total_weight weight current_of lookup insert ◌+ℤ◌
heavier_first = refl
