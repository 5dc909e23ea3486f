-- ===== src/Ingress/RouteTable/Tests.antt =====
-- The table at concrete routes.
use mathlib.Core.List.{Memᴰ}
use deploy_monster.Prelude.{arith, ◌≡◌, refl, true, false, List, [], ◌∷◌, some}
use deploy_monster.Prelude.Int.{pos}
use deploy_monster.Prelude.Bytes.{Bytes, bytes, eq, has_prefix, has_suffix, count}
use deploy_monster.Prelude.Find.{find, count_if}
use deploy_monster.Ingress.Sorting.{insertion_sorter, insertion_sort}
use deploy_monster.Ingress.RouteTable.{
  RouteEntry, RouteTable, new_route_table, upsert, remove_by_app_id, match, takes, match_host,
  match_path, or_root, route_less,
}
use deploy_monster.Ingress.RouteTable.Keys.{HasUniqueKeys, entry_at, entry_at_writes, unless_of}
use deploy_monster.Ingress.RouteTable.Matching.{
  Write, upserts, removes_app, writes, Inv, writes-new-Inv, match-IsBest, IsBest,
}

abbrev route : Bytes → Bytes → Bytes → RouteEntry
route host path_prefix app_id = record {
  host = host;
  path_prefix = path_prefix;
  priority = pos 100;
  service_name = [];
  backends = [];
  lb_strategy = bytes "round-robin";
  middlewares = [];
  tls = false;
  strip_prefix = false;
  health_path = [];
  app_id = app_id;
}

abbrev exact : RouteEntry
exact = route (bytes "a.x.io") [] (bytes "app1")

abbrev wildcard : RouteEntry
wildcard = route (bytes "*.x.io") (bytes "/api") (bytes "app2")

abbrev deployed : List Write
deployed = upserts exact ∷ upserts wildcard ∷ upserts exact ∷ removes_app (bytes "app3") ∷ []

table_after_writes : Inv (writes insertion_sorter new_route_table deployed)
table_after_writes = writes-new-Inv insertion_sorter deployed

abbrev one_route : RouteTable
one_route = record { entries = wildcard ∷ [] }

one_route-HasUniqueKeys : HasUniqueKeys one_route.entries
unfolding count_if
one_route-HasUniqueKeys h p = ground arith

entry_at_writes_example :
    entry_at
      (remove_by_app_id insertion_sorter (bytes "app2") one_route)
      (bytes "*.x.io")
      (bytes "/api")
    ≡ unless_of (bytes "app2") (entry_at one_route (bytes "*.x.io") (bytes "/api"))
entry_at_writes_example =
    (entry_at_writes insertion_sorter one_route (bytes "*.x.io") (bytes "/api")
        one_route-HasUniqueKeys).2
      (bytes "app2")

-- The wildcard's longer prefix wins over the exact host.
wildcard_wins :
    match (writes insertion_sorter new_route_table deployed) (bytes "a.x.io") (bytes "/api/v1")
    ≡ some wildcard
unfolding match match_host match_path writes upsert remove_by_app_id or_root eq new_route_table find
    insertion_sort route_less has_prefix has_suffix count
wildcard_wins = refl

match-IsBest_example :
    (takes (bytes "a.x.io") (bytes "/api/v1") wildcard ≡ true)
    × Memᴰ wildcard (writes insertion_sorter new_route_table deployed).entries
    × IsBest
        (bytes "a.x.io")
        (bytes "/api/v1")
        wildcard
        (writes insertion_sorter new_route_table deployed).entries
match-IsBest_example =
    (match-IsBest insertion_sorter deployed (bytes "a.x.io") (bytes "/api/v1")).1 wildcard
      wildcard_wins
