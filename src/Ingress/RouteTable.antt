-- ===== src/Ingress/RouteTable.antt =====
-- internal/ingress/router.go: the table of routes.
-- The table is its current snapshot: a writer holds the mutex while it builds the next one, and a
-- reader loads one snapshot, so every call is one step. sort.Slice is the parameter `sorter`.
pub mod Order
pub mod Keys
pub mod Matching
mod Tests
use deploy_monster.Prelude.{
  ℕ, suc, Bool, true, false, not, ◌&&◌, ◌||◌, List, [], ◌∷◌, ◌++◌, Option, none, some,
  if◌then◌else◌, ltb, length, ◌==◌,
}
use deploy_monster.Prelude.Int.{ℤ, ltb_ℤ}
use deploy_monster.Prelude.Bytes.{is_empty, Bytes, bytes, eq, has_prefix, has_suffix, count}
use deploy_monster.Prelude.Find.{find}
use deploy_monster.Ingress.Sorting.{Sorter}

pub record RouteEntry : Type 0 where
  pub host : Bytes
  pub path_prefix : Bytes
  pub priority : ℤ
  pub service_name : Bytes
  pub backends : List Bytes
  pub lb_strategy : Bytes
  pub middlewares : List Bytes
  pub tls : Bool
  pub strip_prefix : Bool
  pub health_path : Bytes
  pub app_id : Bytes

pub record RouteTable : Type 0 where
  pub entries : List RouteEntry

unfoldable pub new_route_table : RouteTable
new_route_table = record { entries = [] }

-- The `less` of sortRoutes: priority descending, then length of the path prefix descending.
unfoldable pub route_less : RouteEntry → RouteEntry → Bool
route_less a b =
    if not (ltb_ℤ a.priority b.priority) && not (ltb_ℤ b.priority a.priority)
    then ltb (length b.path_prefix) (length a.path_prefix)
    else ltb_ℤ b.priority a.priority

-- Whether an entry stands for this host and prefix.
unfoldable pub has_key : Bytes → Bytes → RouteEntry → Bool
has_key host path_prefix r = eq r.host host && eq r.path_prefix path_prefix

-- `if p == "" { p = "/" }`
unfoldable pub or_root : Bytes → Bytes
or_root p = if is_empty p then b'/' ∷ [] else p

unfoldable pub put_entry : RouteEntry → List RouteEntry → List RouteEntry
unfolding has_key
put_entry entry [] = entry ∷ []
put_entry entry (r ∷ rs) =
    if has_key entry.host entry.path_prefix r then entry ∷ rs else r ∷ put_entry entry rs

unfoldable pub remove_entry : Bytes → Bytes → List RouteEntry → List RouteEntry
unfolding has_key
remove_entry host path_prefix [] = []
remove_entry host path_prefix (r ∷ rs) =
    if has_key host path_prefix r then rs else r ∷ remove_entry host path_prefix rs

unfoldable pub remove_app : Bytes → List RouteEntry → List RouteEntry
remove_app app_id [] = []
remove_app app_id (r ∷ rs) =
    let rest = remove_app app_id rs in if not (eq r.app_id app_id) then r ∷ rest else rest

-- `s[1:]` of a string that is not empty.
abbrev drop_first : Bytes → Bytes
drop_first [] = []
drop_first (c ∷ s) = s

unfoldable pub match_host : Bytes → Bytes → Bool
match_host pattern host =
    eq pattern host
    || (has_prefix pattern (bytes "*.")
        && (has_suffix host (drop_first pattern) && count host b'.' == count pattern b'.'))

unfoldable pub match_path : Bytes → Bytes → Bool
match_path prefix path = eq prefix (bytes "/") || has_prefix path prefix

-- Whether an entry takes a request.
abbrev pub takes : Bytes → Bytes → RouteEntry → Bool
takes host path r = match_host r.host host && match_path r.path_prefix path

unfoldable pub match : RouteTable → Bytes → Bytes → Option RouteEntry
match t host path = find (takes host path) t.entries

unfoldable pub all : RouteTable → List RouteEntry
all t = t.entries

unfoldable pub count_routes : RouteTable → ℕ
count_routes t = length t.entries

module _ (sorter : Sorter RouteEntry) where
  unfoldable pub replace : (List RouteEntry → List RouteEntry) → RouteTable → RouteTable
  replace mutate t = record { entries = sorter.sort route_less (mutate t.entries) }

  unfoldable pub upsert : RouteEntry → RouteTable → RouteTable
  unfolding replace put_entry
  upsert entry t = replace (put_entry (record entry { path_prefix = or_root entry.path_prefix })) t

  unfoldable pub remove : Bytes → Bytes → RouteTable → RouteTable
  unfolding replace remove_entry
  remove host path_prefix t = replace (remove_entry host (or_root path_prefix)) t

  unfoldable pub remove_by_app_id : Bytes → RouteTable → RouteTable
  unfolding replace remove_app
  remove_by_app_id app_id t = replace (remove_app app_id) t
