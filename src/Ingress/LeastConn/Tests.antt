-- ===== src/Ingress/LeastConn/Tests.antt =====
-- The least-connections balancer at a concrete pool.
use text.Mathlib.Text.{◌==◌ as str_eq}
use deploy_monster.Prelude.{◌+◌, ◌≡◌, refl, true, List, [], ◌∷◌, String, arith, if◌then◌else◌}
use deploy_monster.Prelude.Names.{has}
use deploy_monster.Prelude.Dict.{lookup}
use deploy_monster.Ingress.LeastConn.{LeastConn, conns_of, next, release, fewest}
use deploy_monster.Ingress.LeastConn.Accounting.{AtLeast, next_least, release-next}

abbrev busy : LeastConn
busy = record { conns = ("a", 4) ∷ ("b", 2) ∷ [] }

abbrev three : List String
three = "a" ∷ "b" ∷ "c" ∷ []

next_least_example :
    (has (next busy three).1 three ≡ true)
    × AtLeast busy (conns_of busy (next busy three).1) three
    × (conns_of (next busy three).0 "c"
        ≡ (if str_eq (next busy three).1 "c" then conns_of busy "c" + 1 else conns_of busy "c"))
unfolding conns_of lookup has
next_least_example = next_least busy three "b" "c" refl (omega arith)

picks_idle : (next busy three).1 ≡ "c"
unfolding next fewest conns_of lookup
picks_idle = refl

picked_and_released :
    conns_of (release (next busy three).0 (next busy three).1) "a" ≡ conns_of busy "a"
picked_and_released = release-next busy three "a"
