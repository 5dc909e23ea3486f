-- ===== src/Ingress/RouteTable/Order.antt =====
-- The order that a snapshot is sorted by.
use deploy_monster.Prelude.{◌≡◌, true, false, arith}
use deploy_monster.Ingress.Sorting.{IsStrictWeak}
use deploy_monster.Ingress.RouteTable.{RouteEntry, route_less}

route_less_asym : (a b : RouteEntry) → route_less a b ≡ true → route_less b a ≡ false
unfolding route_less
route_less_asym a b h = ground arith

route_less_trans :
    (a b c : RouteEntry) → route_less b a ≡ false → route_less c b ≡ false → route_less c a ≡ false
unfolding route_less
route_less_trans a b c h k = ground arith

pub route_less-IsStrictWeak : IsStrictWeak route_less
route_less-IsStrictWeak = record { asymmetric = route_less_asym; transitive = route_less_trans }
