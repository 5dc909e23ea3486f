-- ===== src/Core/Events/Tests.antt =====
-- A bus with four subscriptions.
use deploy_monster.Prelude.{
  ℕ, ◌+◌, ◌≡◌, ◌↔◌, refl, Bool, true, false, [], ◌∷◌, Option, none, some, String, if◌then◌else◌,
}
use deploy_monster.Prelude.Bytes.{bytes, eq}
use deploy_monster.Core.Events.{
  Subscription, EventBus, ran, dispatched, reported, new_event_bus, subscribe, subscribe_async,
  unsubscribe, matches, match_subscriptions, publish, on_error,
}
use deploy_monster.Core.Events.Patterns.{Takes, matches_iff}
use deploy_monster.Core.Events.Publishing.{Selects, Delivers, publish-Delivers}
use deploy_monster.Core.Events.Removal.{Removes, unsubscribe-Removes}

abbrev bus : EventBus
bus =
    subscribe
      (subscribe
        (subscribe_async (subscribe new_event_bus (bytes "a") (bytes "app.*")) (bytes "b")
          (bytes "*"))
        (bytes "c") (bytes "app.created"))
      (bytes "d") (bytes "build.*")

abbrev sub : String → String → Bool → Subscription
sub id event_type async = record {
  id = bytes id;
  event_type = bytes event_type;
  name = [];
  async = async;
}

-- The handler of `c` fails.
abbrev failing_c : Subscription → Option ℕ
failing_c s = if eq s.id (bytes "c") then some 7 else none

published :
    (publish failing_c (on_error bus) (bytes "app.created")).1
    ≡ ran (sub "a" "app.*" false)
      ∷ dispatched (sub "b" "*" true)
      ∷ ran (sub "c" "app.created" false)
      ∷ reported (sub "c" "app.created" false) 7
      ∷ []
unfolding publish on_error subscribe subscribe_async new_event_bus eq
published = refl

-- A prefix wants something behind the dot's place: `app` itself is not taken by `app.*`.
prefixes :
    (matches (bytes "app.*") (bytes "app") ≡ false)
    × (matches (bytes "app.*") (bytes "apps.x") ≡ false)
    × (matches (bytes "app.*") (bytes "app.") ≡ true)
unfolding matches eq
prefixes = (refl, refl, refl)

-- Behind a removal the last handler stands where the removed one stood, before the others.
order_changed :
    (unsubscribe bus (bytes "a")).0.subscriptions
    ≡ sub "d" "build.*" false ∷ sub "b" "*" true ∷ sub "c" "app.created" false ∷ []
unfolding unsubscribe subscribe subscribe_async new_event_bus eq
order_changed = refl

matches_iff_example :
    (matches (bytes "app.*") (bytes "app.created") ≡ true)
    ↔ Takes (bytes "app.*") (bytes "app.created")
matches_iff_example = matches_iff (bytes "app.*") (bytes "app.created")

publish-Delivers_example :
    let (eb', calls, err) = publish failing_c bus (bytes "app.created") in
    Delivers failing_c false (match_subscriptions bus.subscriptions (bytes "app.created")) calls err
    × Selects
        (bytes "app.created")
        bus.subscriptions
        (match_subscriptions bus.subscriptions (bytes "app.created"))
    × (eb'.subscriptions ≡ bus.subscriptions)
    × (eb'.publish_count ≡ bus.publish_count + 1)
    × (eb'.error_count ≡ bus.error_count + (elim err as (λ _. ℕ) [ none ↦ 0 | some error ↦ 1 ]))
unfolding subscribe subscribe_async new_event_bus
publish-Delivers_example = publish-Delivers failing_c bus (bytes "app.created")

unsubscribe-Removes_example : Removes bus (bytes "a") (unsubscribe bus (bytes "a"))
unsubscribe-Removes_example = unsubscribe-Removes bus (bytes "a")
