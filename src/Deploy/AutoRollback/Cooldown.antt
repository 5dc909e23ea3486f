-- ===== src/Deploy/AutoRollback/Cooldown.antt =====
-- The attempts for one application are apart by the cooldown, whatever happens to the others.
use text.Mathlib.Text.{◌==◌ as str_eq}
use text.Mathlib.TextEquality.{eq_iff}
use mathlib.Core.Path.{subst}
use deploy_monster.Prelude.{
  ℕ, ◌+◌, ◌≤◌, ◌≡◌, refl, sym, ap, ◌∙◌, Bool, true, false, not, ◌&&◌, List, [], ◌∷◌, Option, none,
  some, String, arith, if◌then◌else◌, ltb, Bool-cases, inl, inr,
}
use deploy_monster.Prelude.Guards.{either_way}
use deploy_monster.Prelude.Dict.{lookup, insert, lookup-insert}
use deploy_monster.Deploy.AutoRollback.{
  AutoRollbackManager, new_auto_rollback_manager, stop, is_cooling, handle_failure,
}

-- A failed deployment of an application, or the end of the program.
pub data Event : Type 0 where
  fails : (app_id : String) → (checked stored : ℕ) → Event
  stops : Event

abbrev keep : Bool → ℕ × ℕ → List (ℕ × ℕ) → List (ℕ × ℕ)
keep true times rest = times ∷ rest
keep false times rest = rest

-- The attempts for one application, with the two times of each.
unfoldable pub attempts : String → AutoRollbackManager → List Event → List (ℕ × ℕ)
unfolding handle_failure stop
attempts app m [] = []
attempts app m (stops ∷ es) = attempts app (stop m) es
attempts app m (fails app_id checked stored ∷ es) =
    let (m', attempted) = handle_failure m app_id checked stored in
    keep (attempted && str_eq app_id app) (checked, stored) (attempts app m' es)

-- One application on its own: an attempt for each failure before the stop that is not cooling.
abbrev pub own_attempts : ℕ → String → Option ℕ → List Event → List (ℕ × ℕ)
own_attempts cooldown app last [] = []
own_attempts cooldown app last (stops ∷ es) = []
own_attempts cooldown app last (fails app_id checked stored ∷ es) =
    if str_eq app_id app && not (is_cooling cooldown checked last)
    then (checked, stored) ∷ own_attempts cooldown app (some stored) es
    else own_attempts cooldown app last es

-- Each attempt is checked no earlier than the cooldown after the one before it was stored.
abbrev pub AreApart : ℕ → Option ℕ → List (ℕ × ℕ) → Type 0
AreApart cooldown last [] = Unit
AreApart cooldown none ((checked, stored) ∷ times) = AreApart cooldown (some stored) times
AreApart cooldown (some last) ((checked, stored) ∷ times) =
    (last + cooldown ≤ checked) × AreApart cooldown (some stored) times

off : (mine : Bool) → (mine && not true) ≡ false
off true = refl
off false = refl

closed_attempts :
    (app : String) (m : AutoRollbackManager) (es : List Event)
    → m.closed ≡ true
    → attempts app m es ≡ []
unfolding attempts handle_failure stop
closed_attempts app m [] c = refl
closed_attempts app m (stops ∷ es) c = closed_attempts app (record m { closed = true }) es refl
closed_attempts app m (fails app_id checked stored ∷ es) c =
    let same : handle_failure m app_id checked stored ≡ (m, false) = rw c refl in
    ap (λ r. keep (r.1 && str_eq app_id app) (checked, stored) (attempts app r.0 es)) same
    ∙ closed_attempts app m es c

-- The entry for `app` after the entry for `app_id` is set.
entry_after :
    (app app_id : String) (stored : ℕ) (b : Bool) (entries : List (String × ℕ))
    → str_eq app_id app ≡ b
    → lookup app (insert app_id stored entries) ≡ (if b then some stored else lookup app entries)
entry_after app app_id stored b entries e =
    lookup-insert app_id app stored entries
    ∙ ap (λ x. if x then some stored else lookup app entries) e

kept :
    (mine : Bool) (cooldown : ℕ) (app : String) (checked stored : ℕ) (last : Option ℕ)
    (es : List Event)
    → keep mine
        (checked, stored)
        (own_attempts cooldown app (if mine then some stored else last) es)
      ≡ (if mine && not false
          then (checked, stored) ∷ own_attempts cooldown app (some stored) es
          else own_attempts cooldown app last es)
kept true cooldown app checked stored last es = refl
kept false cooldown app checked stored last es = refl

-- One failure, for an application and for the others.
failure_seen :
    (app app_id : String) (checked stored : ℕ) (m : AutoRollbackManager) (es : List Event)
    (cooling mine : Bool)
    → m.closed ≡ false
    → is_cooling m.cooldown checked (lookup app_id m.last_attempt) ≡ cooling
    → str_eq app_id app ≡ mine
    → ((n : AutoRollbackManager)
        → n.closed ≡ false
        → attempts app n es ≡ own_attempts n.cooldown app (lookup app n.last_attempt) es)
    → attempts app m (fails app_id checked stored ∷ es) ≡ (
        if mine && not cooling
        then (checked, stored) ∷ own_attempts m.cooldown app (some stored) es
        else own_attempts m.cooldown app (lookup app m.last_attempt) es)
unfolding attempts handle_failure
failure_seen app app_id checked stored m es true mine c cold same ih =
    let none_made : handle_failure m app_id checked stored ≡ (m, false) = rw (c, cold) refl in
    ap (λ r. keep (r.1 && str_eq app_id app) (checked, stored) (attempts app r.0 es)) none_made
    ∙ ih m c
    ∙ ap
        (λ b.
          if b
          then (checked, stored) ∷ own_attempts m.cooldown app (some stored) es
          else own_attempts m.cooldown app (lookup app m.last_attempt) es)
        (sym (off mine))
failure_seen app app_id checked stored m es false mine c cold same ih =
    let n = record m { last_attempt = insert app_id stored m.last_attempt } in
    let made : handle_failure m app_id checked stored ≡ (n, true) = rw (c, cold) refl in
    ap (λ r. keep (r.1 && str_eq app_id app) (checked, stored) (attempts app r.0 es)) made
    ∙ ap (λ b. keep b (checked, stored) (attempts app n es)) same
    ∙ ap (keep mine (checked, stored)) (
        ih n c
        ∙ ap (λ o. own_attempts m.cooldown app o es)
            (entry_after app app_id stored mine m.last_attempt same))
    ∙ kept mine m.cooldown app checked stored (lookup app m.last_attempt) es

guard_same :
    (app app_id : String) (checked stored : ℕ) (m : AutoRollbackManager) (es : List Event)
    → (if str_eq app_id app && not (is_cooling m.cooldown checked (lookup app_id m.last_attempt))
        then (checked, stored) ∷ own_attempts m.cooldown app (some stored) es
        else own_attempts m.cooldown app (lookup app m.last_attempt) es)
      ≡ own_attempts m.cooldown app (lookup app m.last_attempt) (fails app_id checked stored ∷ es)
guard_same app app_id checked stored m es = elim (Bool-cases (str_eq app_id app)) [
  | inl same ↦
      ap
        (λ x.
          if str_eq app_id app && not (is_cooling m.cooldown checked (lookup x m.last_attempt))
          then (checked, stored) ∷ own_attempts m.cooldown app (some stored) es
          else own_attempts m.cooldown app (lookup app m.last_attempt) es)
        ((eq_iff app_id app).0 same)
  | inr other ↦ rw other refl
]

attempts-own :
    (app : String) (m : AutoRollbackManager) (es : List Event)
    → m.closed ≡ false
    → attempts app m es ≡ own_attempts m.cooldown app (lookup app m.last_attempt) es
unfolding attempts stop
attempts-own app m [] c = refl
attempts-own app m (stops ∷ es) c = closed_attempts app (record m { closed = true }) es refl
attempts-own app m (fails app_id checked stored ∷ es) c =
    failure_seen app app_id checked stored m es
      (is_cooling m.cooldown checked (lookup app_id m.last_attempt)) (str_eq app_id app) c refl refl
      (λ n d. attempts-own app n es d)
    ∙ guard_same app app_id checked stored m es

own_attempts-AreApart :
    (cooldown : ℕ) (app : String) (last : Option ℕ) (es : List Event)
    → AreApart cooldown last (own_attempts cooldown app last es)
own_attempts-AreApart cooldown app last [] = tt
own_attempts-AreApart cooldown app last (stops ∷ es) = tt
own_attempts-AreApart cooldown app none (fails app_id checked stored ∷ es) =
    either_way (AreApart cooldown none) (str_eq app_id app && true)
      (own_attempts-AreApart cooldown app (some stored) es)
      (own_attempts-AreApart cooldown app none es)
own_attempts-AreApart cooldown app (some last) (fails app_id checked stored ∷ es) =
    elim (Bool-cases (str_eq app_id app && not (ltb checked (last + cooldown)))) [
      | inl due ↦ rw due (ground arith, own_attempts-AreApart cooldown app (some stored) es)
      | inr quiet ↦ rw quiet (own_attempts-AreApart cooldown app (some last) es)
    ]

-- Whatever fails in whatever order, the attempts for an application are those that it would have on
-- its own: each failure before the stop makes one unless the last attempt was less than the cooldown
-- of five minutes ago. So two attempts are at least the cooldown apart, and none follows the stop.
pub attempts_apart :
    (app : String) (es : List Event)
    → (attempts app new_auto_rollback_manager es ≡ own_attempts 300000000000 app none es)
      × AreApart 300000000000 none (attempts app new_auto_rollback_manager es)
unfolding new_auto_rollback_manager lookup
attempts_apart app es =
    let same = attempts-own app new_auto_rollback_manager es refl in
    (
      same,
      subst (AreApart 300000000000 none) (sym same)
          (own_attempts-AreApart 300000000000 app none es),
    )
