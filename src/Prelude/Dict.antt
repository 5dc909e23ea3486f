-- ===== src/Prelude/Dict.antt =====
-- A Go map with string keys, as an association list. A key stands in it once.
use text.Mathlib.Text.{◌==◌}
use text.Mathlib.TextEquality.{eq_iff}
use deploy_monster.Prelude.{
  ◌≡◌, refl, List, [], ◌∷◌, Option, none, some, String, arith, if◌then◌else◌,
}

module _ {ℓ} {Value : Type ℓ} where
  -- `m[key]` with the second result of the Go index expression.
  unfoldable pub lookup : String → List (String × Value) → Option Value
  lookup key [] = none
  lookup key (entry ∷ rest) = if entry.0 == key then some entry.1 else lookup key rest

  -- `m[key] = new`
  unfoldable pub insert : String → Value → List (String × Value) → List (String × Value)
  insert key new [] = (key, new) ∷ []
  insert key new (entry ∷ rest) =
      let later = insert key new rest in if entry.0 == key then (key, new) ∷ rest else entry ∷ later

  -- `delete(m, key)`
  unfoldable pub delete : String → List (String × Value) → List (String × Value)
  delete key [] = []
  delete key (entry ∷ rest) =
      let later = delete key rest in if entry.0 == key then later else entry ∷ later

  pub lookup-insert :
      (key other : String) (new : Value) (entries : List (String × Value))
      → lookup other (insert key new entries)
        ≡ (if key == other then some new else lookup other entries)
  unfolding lookup insert
  lookup-insert key other new [] = refl
  lookup-insert key other new (entry ∷ rest) =
      let ih = lookup-insert key other new rest in
      ground (arith, eq_iff entry.0 key, eq_iff entry.0 other, eq_iff key other)

  pub lookup-delete :
      (key other : String) (entries : List (String × Value))
      → lookup other (delete key entries) ≡ (if key == other then none else lookup other entries)
  unfolding lookup delete
  lookup-delete key other [] = ground arith
  lookup-delete key other (entry ∷ rest) =
      let ih = lookup-delete key other rest in
      ground (arith, eq_iff entry.0 key, eq_iff entry.0 other, eq_iff key other)

  abbrev pub get_or : Option Value → Value → Value
  get_or none default = default
  get_or (some found) default = found
