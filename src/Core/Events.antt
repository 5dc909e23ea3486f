-- ===== src/Core/Events.antt =====
-- internal/core/events.go: subscriptions and the publishing of an event.
-- What the handler of a subscription gives for the event at hand is the argument `handler`: `none`,
-- or an error. The handlers of asynchronous subscriptions run in goroutines; Core.AsyncPool has them.
pub mod Patterns
pub mod Publishing
pub mod Removal
mod Tests
use deploy_monster.Prelude.{
  ℕ, ◌+◌, ◌-◌, Bool, true, false, ◌&&◌, ◌||◌, List, [], ◌∷◌, ◌++◌, Option, none, some, length, take,
  drop, get_elem?, set, if◌then◌else◌, ltb, ◌==◌,
}
use deploy_monster.Prelude.Bytes.{Bytes, bytes, eq, has_suffix}

pub record Subscription : Type 0 where
  pub id : Bytes
  pub event_type : Bytes
  pub name : Bytes
  pub async : Bool

pub record EventBus : Type 0 where
  pub subscriptions : List Subscription
  pub publish_count : ℕ
  pub error_count : ℕ
  pub has_on_error : Bool

unfoldable pub new_event_bus : EventBus
new_event_bus = record {
  subscriptions = [];
  publish_count = 0;
  error_count = 0;
  has_on_error = false;
}

-- OnError with a callback.
unfoldable pub on_error : EventBus → EventBus
on_error eb = record eb { has_on_error = true }

-- `id` is what GenerateID gives.
unfoldable pub subscribe_named : EventBus → (id event_type name : Bytes) → Bool → EventBus
subscribe_named eb id event_type name async = record eb {
  subscriptions =
      eb.subscriptions
      ++ (record { id = id; event_type = event_type; name = name; async = async } ∷ []);
}

unfoldable pub subscribe : EventBus → (id event_type : Bytes) → EventBus
unfolding subscribe_named
subscribe eb id event_type = subscribe_named eb id event_type [] false

unfoldable pub subscribe_async : EventBus → (id event_type : Bytes) → EventBus
unfolding subscribe_named
subscribe_async eb id event_type = subscribe_named eb id event_type [] true

abbrev next_index : Option ℕ → Option ℕ
next_index none = none
next_index (some i) = some (i + 1)

-- The index of the first subscription with the ID.
unfoldable pub index_of : Bytes → List Subscription → Option ℕ
index_of id [] = none
index_of id (s ∷ subs) = if eq s.id id then some 0 else next_index (index_of id subs)

-- `subs[i] = subs[len-1]; subs = subs[:len-1]`
swap_with : ℕ → List Subscription → Option Subscription → List Subscription
swap_with i subs none = subs
swap_with i subs (some moved) = take (length subs - 1) (set subs i moved)

unfoldable pub swap_remove : ℕ → List Subscription → List Subscription
unfolding swap_with
swap_remove i subs = swap_with i subs (get_elem? subs (length subs - 1))

unsubscribe_at : EventBus → Option ℕ → EventBus × Bool
unsubscribe_at eb none = (eb, false)
unsubscribe_at eb (some i) = (record eb { subscriptions = swap_remove i eb.subscriptions }, true)

unfoldable pub unsubscribe : EventBus → Bytes → EventBus × Bool
unfolding unsubscribe_at index_of swap_remove
unsubscribe eb id = unsubscribe_at eb (index_of id eb.subscriptions)

-- `s` without `suffix` at its end, if it stands there.
unfoldable pub cut_suffix : Bytes → Bytes → Option Bytes
cut_suffix s suffix =
    let start = length s - length suffix in
    if ltb (length s) (length suffix)
    then none
    else if eq (drop start s) suffix
    then some (take start s)
    else none

abbrev dot_at : Option ℕ → Bool
dot_at none = false
dot_at (some c) = c == b'.'

-- `len(t) > len(p) && t[:len(p)] == p && t[len(p)] == '.'`
under_prefix : Bytes → Option Bytes → Bool
under_prefix event_type none = false
under_prefix event_type (some prefix) =
    ltb (length prefix) (length event_type)
    && (eq (take (length prefix) event_type) prefix
        && dot_at (get_elem? event_type (length prefix)))

unfoldable pub matches : Bytes → Bytes → Bool
unfolding under_prefix cut_suffix
matches pattern event_type =
    if eq pattern (bytes "*")
    then true
    else if eq pattern event_type
    then true
    else under_prefix event_type (cut_suffix pattern (bytes ".*"))

unfoldable pub match_subscriptions : List Subscription → Bytes → List Subscription
unfolding matches
match_subscriptions [] event_type = []
match_subscriptions (s ∷ subs) event_type =
    let rest = match_subscriptions subs event_type in
    if matches s.event_type event_type then s ∷ rest else rest

-- A handler called in its turn, a handler given to a goroutine, or a call of the error callback.
pub data Call : Type 0 where
  ran dispatched : Subscription → Call
  reported : Subscription → (error : ℕ) → Call

module _ (handler : Subscription → Option ℕ) where
  -- The turn of a synchronous handler, with what comes behind it.
  sync_turn : Bool → Subscription → Option ℕ → List Call × Option ℕ → List Call × Option ℕ
  sync_turn has_on_error s none (calls, err) = (ran s ∷ calls, err)
  sync_turn has_on_error s (some error) rest =
      (ran s ∷ (if has_on_error then reported s error ∷ [] else []), some error)

  -- The loop of Publish: the calls, and the error that ends it.
  unfoldable pub deliver : Bool → List Subscription → List Call × Option ℕ
  unfolding sync_turn
  deliver has_on_error [] = ([], none)
  deliver has_on_error (s ∷ subs) =
      let rest = deliver has_on_error subs in
      if s.async then (dispatched s ∷ rest.0, rest.1) else sync_turn has_on_error s (handler s) rest

  unfoldable pub publish : EventBus → Bytes → EventBus × List Call × Option ℕ
  unfolding match_subscriptions deliver
  publish eb event_type =
      let (calls, err) =
        deliver eb.has_on_error (match_subscriptions eb.subscriptions event_type) in
      (
        record eb {
          publish_count = eb.publish_count + 1;
          error_count = elim err [ none ↦ eb.error_count | some error ↦ eb.error_count + 1 ];
        },
        calls,
        err,
      )
