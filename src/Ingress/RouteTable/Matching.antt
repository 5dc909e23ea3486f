-- ===== src/Ingress/RouteTable/Matching.antt =====
-- What a table answers after any writes.
use mathlib.Core.List.{Memᴰ}
use deploy_monster.Prelude.{
  ℕ, ◌≤◌, ◌≡◌, inl, inr, Bool, true, false, List, [], ◌∷◌, none, some, arith, length, Bool-cases,
}
use deploy_monster.Prelude.Int.{◌≤ℤ◌}
use deploy_monster.Prelude.Bytes.{Bytes}
use deploy_monster.Prelude.Find.{All, find, count_if, count_if-perm, find-passes}
use deploy_monster.Ingress.Sorting.{Sorter, IsSorted}
use deploy_monster.Ingress.RouteTable.{
  RouteEntry, RouteTable, route_less, or_root, takes, match, new_route_table, upsert, remove,
  remove_by_app_id,
}
use deploy_monster.Ingress.RouteTable.Order.{route_less-IsStrictWeak}
use deploy_monster.Ingress.RouteTable.Keys.{
  HasUniqueKeys, put_entry-HasUniqueKeys, remove_entry-HasUniqueKeys, remove_app-HasUniqueKeys,
}

-- A write of the table.
pub data Write : Type 0 where
  upserts : RouteEntry → Write
  removes : (host path_prefix : Bytes) → Write
  removes_app : (app_id : Bytes) → Write

-- How many entries pass a test, of any table.
abbrev pub holds : (RouteEntry → Bool) → RouteTable → ℕ
holds p t = count_if p t.entries

pub record Inv (t : RouteTable) : Type 0 where
  pub unique : HasUniqueKeys t.entries
  pub sorted : IsSorted route_less t.entries

module _ (sorter : Sorter RouteEntry) where
  unfoldable pub write : RouteTable → Write → RouteTable
  write t (upserts e) = upsert sorter e t
  write t (removes host path_prefix) = remove sorter host path_prefix t
  write t (removes_app app_id) = remove_by_app_id sorter app_id t

  unfoldable pub writes : RouteTable → List Write → RouteTable
  unfolding write
  writes t [] = t
  writes t (w ∷ ws) = writes (write t w) ws

  sorted-Inv :
      (rs : List RouteEntry)
      → HasUniqueKeys rs
      → Inv (record { entries = sorter.sort route_less rs })
  sorted-Inv rs u = record {
    unique = λ h p. omega (arith, u h p, count_if-perm _ (sorter.sort-perm route_less rs));
    sorted = sorter.sort-IsSorted route_less route_less-IsStrictWeak rs;
  }

  write-Inv : (t : RouteTable) (w : Write) → Inv t → Inv (write t w)
  unfolding write upsert remove remove_by_app_id
  write-Inv t (upserts e) v = sorted-Inv _ (
      put_entry-HasUniqueKeys (record e { path_prefix = or_root e.path_prefix }) t.entries v.unique)
  write-Inv t (removes host path_prefix) v =
      sorted-Inv _ (remove_entry-HasUniqueKeys host (or_root path_prefix) t.entries v.unique)
  write-Inv t (removes_app app_id) v =
      sorted-Inv _ (remove_app-HasUniqueKeys app_id t.entries v.unique)

  writes-Inv : (t : RouteTable) (ws : List Write) → Inv t → Inv (writes t ws)
  unfolding writes
  writes-Inv t [] v = v
  writes-Inv t (w ∷ ws) v = writes-Inv (write t w) ws (write-Inv t w v)

  -- After any writes to an empty table, whatever sort of the library orders the snapshot: no two
  -- entries stand for one host and prefix, and the entries are in the order of sortRoutes.
  pub writes-new-Inv : (ws : List Write) → Inv (writes new_route_table ws)
  unfolding new_route_table count_if
  writes-new-Inv ws = writes-Inv _ ws (record { unique = λ h p. omega arith; sorted = tt })

-- `r` comes first among the entries of a list that pass a test.
abbrev pub IsFirst : (RouteEntry → Bool) → RouteEntry → List RouteEntry → Type 0
IsFirst p r = All (λ q. p q ≡ true → route_less q r ≡ false)

All-IsFirst :
    (p : RouteEntry → Bool) (r : RouteEntry) (rs : List RouteEntry)
    → All (λ q. route_less q r ≡ false) rs
    → IsFirst p r rs
All-IsFirst p r [] h = tt
All-IsFirst p r (q ∷ rs) (b, h) = (λ _. b, All-IsFirst p r rs h)

find-IsFirst :
    (p : RouteEntry → Bool) (r : RouteEntry) (rs : List RouteEntry)
    → IsSorted route_less rs
    → find p rs ≡ some r
    → IsFirst p r rs
unfolding find
find-IsFirst p r [] s e = tt
find-IsFirst p r (q ∷ rs) (a, s) e = elim (Bool-cases (p q)) [
  | inl t ↦ (λ _. ground (arith, self), ground (arith, All-IsFirst p q rs a))
  | inr f ↦ (λ t. cc, find-IsFirst p r rs s (ground arith))
]
  where
    self : route_less r r ≡ false
    self = elim (Bool-cases (route_less r r)) [
      | inl t ↦ route_less-IsStrictWeak.asymmetric r r t
      | inr f ↦ f
    ]

-- An entry that takes the request is of no higher priority, and of no longer prefix at an equal one.
abbrev pub IsBest : Bytes → Bytes → RouteEntry → List RouteEntry → Type 0
IsBest host path r = All λ q.
    takes host path q ≡ true
    → (q.priority ≤ℤ r.priority)
      × (q.priority ≡ r.priority → length q.path_prefix ≤ length r.path_prefix)

best_of_less :
    (q r : RouteEntry)
    → route_less q r ≡ false
    → (q.priority ≤ℤ r.priority)
      × (q.priority ≡ r.priority → length q.path_prefix ≤ length r.path_prefix)
unfolding route_less
best_of_less q r h = (ground arith, λ e. ground arith)

first-IsBest :
    (host path : Bytes) (r : RouteEntry) (rs : List RouteEntry)
    → IsFirst (takes host path) r rs
    → IsBest host path r rs
first-IsBest host path r [] h = tt
first-IsBest host path r (q ∷ rs) (b, h) =
    (λ t. best_of_less q r (b t), first-IsBest host path r rs h)

find-Memᴰ :
    (p : RouteEntry → Bool) (r : RouteEntry) (rs : List RouteEntry) → find p rs ≡ some r → Memᴰ r rs
unfolding find
find-Memᴰ p r [] e = absurd (cc)
find-Memᴰ p r (q ∷ rs) e = elim (Bool-cases (p q)) [
  | inl t ↦ Memᴰ.head (ground arith)
  | inr f ↦ Memᴰ.tail (find-Memᴰ p r rs (ground arith))
]

none_takes :
    (p : RouteEntry → Bool) (rs : List RouteEntry) → find p rs ≡ none → All (λ q. p q ≡ false) rs
unfolding find
none_takes p [] e = tt
none_takes p (q ∷ rs) e = elim (Bool-cases (p q)) [
  | inl t ↦ absurd (ground arith)
  | inr f ↦ (f, none_takes p rs (ground arith))
]

-- After any writes to an empty table: if `Match` finds no route then no entry takes the request, and
-- if it finds one, that is an entry of the table which takes the request, and every entry that takes
-- it has at most its priority, and at an equal priority at most its length of path prefix.
pub match-IsBest :
    (sorter : Sorter RouteEntry) (ws : List Write) (host path : Bytes)
    → let t = writes sorter new_route_table ws in
      (match t host path ≡ none → All (λ q. takes host path q ≡ false) t.entries)
      × ((r : RouteEntry)
          → match t host path ≡ some r
          → (takes host path r ≡ true) × Memᴰ r t.entries × IsBest host path r t.entries)
unfolding match
match-IsBest sorter ws host path =
    let t = writes sorter new_route_table ws in
    (
      none_takes (takes host path) t.entries,
      λ r e. (
        find-passes (takes host path) t.entries e,
        find-Memᴰ (takes host path) r t.entries e,
        first-IsBest host path r t.entries
            (find-IsFirst (takes host path) r t.entries (writes-new-Inv sorter ws).sorted e),
      ),
    )
