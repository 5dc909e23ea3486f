-- ===== src/Ingress/RouteTable/Keys.antt =====
-- The table as a finite map from host and path prefix to an entry.
use deploy_monster.Prelude.{
  ◌≤◌, ◌≡◌, refl, ◌∙◌, inl, inr, true, false, ◌&&◌, List, [], ◌∷◌, Option, none, some, arith,
  if◌then◌else◌, ◌==◌, Bool-cases,
}
use deploy_monster.Prelude.Bytes.{Bytes, eq, eq→≡, eq_self}
use deploy_monster.Prelude.Find.{find, count_if, find-perm, count_if-perm, find-none}
use deploy_monster.Ingress.Sorting.{Sorter}
use deploy_monster.Ingress.RouteTable.{
  RouteEntry, RouteTable, has_key, put_entry, remove_entry, remove_app, or_root, upsert, remove,
  remove_by_app_id, route_less,
}

pub RouteEntry-option-set : IsSet (Option RouteEntry)
RouteEntry-option-set = hlevel

-- The entry of a host and prefix.
abbrev pub entry_at : RouteTable → Bytes → Bytes → Option RouteEntry
entry_at t host path_prefix = find (has_key host path_prefix) t.entries

-- No two entries stand for one host and prefix.
abbrev pub HasUniqueKeys : List RouteEntry → Type 0
HasUniqueKeys rs = (host path_prefix : Bytes) → count_if (has_key host path_prefix) rs ≤ 1

has_key-eq :
    (host path_prefix : Bytes) (e r : RouteEntry)
    → has_key e.host e.path_prefix r ≡ true
    → has_key host path_prefix r ≡ has_key host path_prefix e
unfolding has_key
has_key-eq host path_prefix e r h =
    ground (arith, eq→≡ r.host e.host, eq→≡ r.path_prefix e.path_prefix)

has_key-both :
    (host path_prefix : Bytes) (e r : RouteEntry)
    → has_key host path_prefix r ≡ true
    → has_key host path_prefix e ≡ true
    → has_key e.host e.path_prefix r ≡ true
unfolding has_key
has_key-both host path_prefix e r h k = ground (
  arith,
  eq→≡ r.host host,
  eq→≡ r.path_prefix path_prefix,
  eq→≡ e.host host,
  eq→≡ e.path_prefix path_prefix,
  eq_self host,
  eq_self path_prefix,
)

count_if-put_entry :
    (host path_prefix : Bytes) (e : RouteEntry) (rs : List RouteEntry)
    → let n = count_if (has_key host path_prefix) rs in
      count_if (has_key host path_prefix) (put_entry e rs)
      ≡ (if has_key host path_prefix e then (if n == 0 then 1 else n) else n)
unfolding count_if put_entry
count_if-put_entry host path_prefix e [] = ground arith
count_if-put_entry host path_prefix e (r ∷ rs) = ground (
  arith,
  has_key-eq host path_prefix e r,
  has_key-both host path_prefix e r,
  count_if-put_entry host path_prefix e rs,
)

find-put_entry :
    (host path_prefix : Bytes) (e : RouteEntry) (rs : List RouteEntry)
    → find (has_key host path_prefix) (put_entry e rs)
      ≡ (if has_key host path_prefix e then some e else find (has_key host path_prefix) rs)
unfolding find put_entry
find-put_entry host path_prefix e [] = ground arith
find-put_entry host path_prefix e (r ∷ rs) = ground (
  arith,
  has_key-eq host path_prefix e r,
  has_key-both host path_prefix e r,
  find-put_entry host path_prefix e rs,
)

pub put_entry-HasUniqueKeys :
    (e : RouteEntry) (rs : List RouteEntry) → HasUniqueKeys rs → HasUniqueKeys (put_entry e rs)
put_entry-HasUniqueKeys e rs u host path_prefix =
    ground (arith, u host path_prefix, count_if-put_entry host path_prefix e rs)

count_if-remove_entry :
    (h p host path_prefix : Bytes) (rs : List RouteEntry)
    → count_if (has_key h p) (remove_entry host path_prefix rs) ≤ count_if (has_key h p) rs
unfolding count_if remove_entry
count_if-remove_entry h p host path_prefix [] = omega arith
count_if-remove_entry h p host path_prefix (r ∷ rs) =
    ground (arith, count_if-remove_entry h p host path_prefix rs)

pub remove_entry-HasUniqueKeys :
    (host path_prefix : Bytes) (rs : List RouteEntry)
    → HasUniqueKeys rs
    → HasUniqueKeys (remove_entry host path_prefix rs)
remove_entry-HasUniqueKeys host path_prefix rs u h p =
    omega (arith, u h p, count_if-remove_entry h p host path_prefix rs)

same_key :
    (h p host path_prefix : Bytes) (r : RouteEntry)
    → has_key host path_prefix r ≡ true
    → has_key h p r ≡ (eq host h && eq path_prefix p)
unfolding has_key
same_key h p host path_prefix r k = ground (arith, eq→≡ r.host host, eq→≡ r.path_prefix path_prefix)

other_key :
    (h p host path_prefix : Bytes) (r : RouteEntry)
    → has_key host path_prefix r ≡ false
    → (eq host h && eq path_prefix p) ≡ true
    → has_key h p r ≡ false
unfolding has_key
other_key h p host path_prefix r k e = ground (arith, eq→≡ host h, eq→≡ path_prefix p)

find-remove_entry :
    (h p host path_prefix : Bytes) (rs : List RouteEntry)
    → count_if (has_key h p) rs ≤ 1
    → find (has_key h p) (remove_entry host path_prefix rs)
      ≡ (if eq host h && eq path_prefix p then none else find (has_key h p) rs)
unfolding count_if find remove_entry
find-remove_entry h p host path_prefix [] u = ground arith
find-remove_entry h p host path_prefix (r ∷ rs) u = elim (Bool-cases (has_key host path_prefix r)) [
  | inl t ↦ ground (arith, same_key h p host path_prefix r t, find-none (has_key h p) rs)
  | inr f ↦
      ground (arith, other_key h p host path_prefix r f, find-remove_entry h p host path_prefix rs)
]

count_if-remove_app :
    (h p app_id : Bytes) (rs : List RouteEntry)
    → count_if (has_key h p) (remove_app app_id rs) ≤ count_if (has_key h p) rs
unfolding count_if remove_app
count_if-remove_app h p app_id [] = omega arith
count_if-remove_app h p app_id (r ∷ rs) = ground (arith, count_if-remove_app h p app_id rs)

pub remove_app-HasUniqueKeys :
    (app_id : Bytes) (rs : List RouteEntry)
    → HasUniqueKeys rs
    → HasUniqueKeys (remove_app app_id rs)
remove_app-HasUniqueKeys app_id rs u h p = omega (arith, u h p, count_if-remove_app h p app_id rs)

-- An entry, unless it is one of the application's.
abbrev pub unless_of : Bytes → Option RouteEntry → Option RouteEntry
unless_of app_id none = none
unless_of app_id (some r) = if eq r.app_id app_id then none else some r

find-remove_app :
    (h p app_id : Bytes) (rs : List RouteEntry)
    → count_if (has_key h p) rs ≤ 1
    → find (has_key h p) (remove_app app_id rs) ≡ unless_of app_id (find (has_key h p) rs)
unfolding count_if find remove_app
find-remove_app h p app_id [] u = refl
find-remove_app h p app_id (r ∷ rs) u =
    ground (arith, find-remove_app h p app_id rs, find-none (has_key h p) rs)

module _ (sorter : Sorter RouteEntry) where
  sorted-HasUniqueKeys :
      (rs : List RouteEntry) → HasUniqueKeys rs → HasUniqueKeys (sorter.sort route_less rs)
  sorted-HasUniqueKeys rs u h p =
      omega (arith, u h p, count_if-perm (has_key h p) (sorter.sort-perm route_less rs))

  entry_at_sorted :
      (rs : List RouteEntry) (h p : Bytes)
      → HasUniqueKeys rs
      → find (has_key h p) (sorter.sort route_less rs) ≡ find (has_key h p) rs
  entry_at_sorted rs h p u =
      find-perm RouteEntry-option-set (has_key h p) (sorter.sort-perm route_less rs)
        (sorted-HasUniqueKeys rs u h p)

  -- In a table with unique keys: `Upsert` sets the entry of its host and prefix (an empty prefix is
  -- the root), `Remove` takes the entry of its host and prefix away, `RemoveByAppID` takes away the
  -- application's entries; every other host and prefix keeps its entry, or its lack of one.
  pub entry_at_writes :
      (t : RouteTable) (h p : Bytes)
      → HasUniqueKeys t.entries
      → ((e : RouteEntry)
          → let e' = record e { path_prefix = or_root e.path_prefix } in
            entry_at (upsert sorter e t) h p ≡ (if has_key h p e' then some e' else entry_at t h p))
        × ((host path_prefix : Bytes)
            → entry_at (remove sorter host path_prefix t) h p
              ≡ (if eq host h && eq (or_root path_prefix) p then none else entry_at t h p))
        × ((app_id : Bytes)
            → entry_at (remove_by_app_id sorter app_id t) h p ≡ unless_of app_id (entry_at t h p))
  unfolding upsert remove remove_by_app_id
  entry_at_writes t h p u = (
    λ e.
        entry_at_sorted _ h p (put_entry-HasUniqueKeys _ t.entries u)
        ∙ find-put_entry h p (record e { path_prefix = or_root e.path_prefix }) t.entries,
    λ host path_prefix.
        entry_at_sorted _ h p (remove_entry-HasUniqueKeys host (or_root path_prefix) t.entries u)
        ∙ find-remove_entry h p host (or_root path_prefix) t.entries (u h p),
    λ app_id.
        entry_at_sorted _ h p (remove_app-HasUniqueKeys app_id t.entries u)
        ∙ find-remove_app h p app_id t.entries (u h p),
  )
