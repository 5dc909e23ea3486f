-- ===== src/Compose/Environment.antt =====
-- The environment of a service: what stands in it after a list of `KEY=value` items was read.
use text.Mathlib.Text.{◌==◌ as str_eq}
use text.Mathlib.TextLemmas.{cons-append, nil-append}
use Prim.Native.Char.{code}
use Prim.Native.String.{◌++◌}
use deploy_monster.Prelude.{
  ◌≡◌, refl, ap, ◌∙◌, false, List, [], ◌∷◌, Option, none, some, String, ◌==◌, if◌then◌else◌, map,
}
use deploy_monster.Prelude.Dict.{lookup, insert, lookup-insert}
use deploy_monster.Prelude.Find.{All}
use deploy_monster.Compose.{items, split_equals, from_items, or_empty, resolve_env}

-- A text without `=`.
abbrev pub IsKey : String → Type 0
IsKey String.[] = Unit
IsKey (String.◌∷◌ letter rest) = ((code letter == b'=') ≡ false) × IsKey rest

-- `k + "=" + v`, as deployService writes a variable for the container.
abbrev pub render : String × String → String
render entry = entry.0 ++ ("=" ++ entry.1)

split_equals-tail : (value : String) → split_equals ("=" ++ value) ≡ ("", some value)
unfolding split_equals
split_equals-tail value = rw (cons-append, nil-append) refl

split_equals-render :
    (key value : String) → IsKey key → split_equals (key ++ ("=" ++ value)) ≡ (key, some value)
unfolding split_equals
split_equals-render String.[] value h = rw (nil-append) (split_equals-tail value)
split_equals-render (String.◌∷◌ letter key) value (other, h) =
    rw (cons-append, other, split_equals-render key value h) refl

-- What a list of entries says of a key: the last of its values.
abbrev pub last_of : String → List (String × String) → Option String → Option String
last_of key [] sofar = sofar
last_of key (e ∷ entries) sofar = last_of key entries (if str_eq e.0 key then some e.1 else sofar)

abbrev pub AreKeys : List (String × String) → Type 0
AreKeys entries = All (λ e. IsKey e.0) entries

from_items-item :
    (item key value : String) (rest : List String) (result : List (String × String))
    → split_equals item ≡ (key, some value)
    → from_items (λ s. s) (item ∷ rest) result ≡ from_items (λ s. s) rest (insert key value result)
unfolding from_items
from_items-item item key value rest result split =
    ap (λ (p : String × Option String). from_items (λ s. s) rest (insert p.0 (or_empty p.1) result))
      split

from_items-render :
    (key : String) (entries result : List (String × String))
    → AreKeys entries
    → lookup key (from_items (λ s. s) (map render entries) result)
      ≡ last_of key entries (lookup key result)
unfolding from_items
from_items-render key [] result h = refl
from_items-render key (e ∷ entries) result (k, h) =
    ap (lookup key) (
      from_items-item (render e) e.0 e.1 (map render entries) result
        (split_equals-render e.0 e.1 k))
    ∙ from_items-render key entries (insert e.0 e.1 result) h
    ∙ ap (last_of key entries) (lookup-insert e.0 key e.1 result)

-- Rendered variables, read back as the `environment` list of a service, mean what they meant, if no
-- key has a `=`: for each key, the value of its last variable, and nothing for a key without one.
-- Values may have a `=`, and keys may be repeated.
pub resolve_env-render :
    (key : String) (entries : List (String × String))
    → AreKeys entries
    → lookup key (resolve_env (λ s. s) (items (map render entries))) ≡ last_of key entries none
unfolding resolve_env lookup
resolve_env-render key entries h = from_items-render key entries [] h
