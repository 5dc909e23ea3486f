-- ===== src/Core/Events/Publishing.antt =====
-- Which handlers an event reaches, in which order, and what the publisher gets.
use mathlib.Core.Path.{subst}
use deploy_monster.Prelude.{
  ℕ, ◌+◌, ◌≡◌, refl, sym, ap, ◌⊎◌, inl, inr, true, false, List, [], ◌∷◌, ◌++◌, Option, none, some,
  map, arith, if◌then◌else◌, Bool, Bool-cases, Option-cases,
}
use deploy_monster.Prelude.Find.{All}
use deploy_monster.Prelude.Bytes.{Bytes}
use deploy_monster.Core.Events.{
  Subscription, EventBus, Call, ran, dispatched, reported, sync_turn, deliver, publish,
  match_subscriptions, matches,
}
use deploy_monster.Core.Events.Patterns.{Takes, matches_iff}

-- What a publisher does for a subscription whose handler does not fail in its turn.
abbrev pub turn : Subscription → Call
turn s = if s.async then dispatched s else ran s

-- The second list has, in order, the subscriptions of the first that take the event, and no other.
pub data Selects (event_type : Bytes) : List Subscription → List Subscription → Type 0 where
  nothing : Selects event_type [] []
  taken :
      {s : Subscription} {subs out : List Subscription}
      → Takes s.event_type event_type
      → Selects event_type subs out
      → Selects event_type (s ∷ subs) (s ∷ out)
  skipped :
      {s : Subscription} {subs out : List Subscription}
      → ¬ Takes s.event_type event_type
      → Selects event_type subs out
      → Selects event_type (s ∷ subs) out

match_subscriptions-Selects :
    (subs : List Subscription) (event_type : Bytes)
    → Selects event_type subs (match_subscriptions subs event_type)
unfolding match_subscriptions
match_subscriptions-Selects [] event_type = nothing
match_subscriptions-Selects (s ∷ subs) event_type =
    let rest = match_subscriptions-Selects subs event_type in
    elim (Bool-cases (matches s.event_type event_type)) [
      | inl takes ↦ rw takes (taken ((matches_iff s.event_type event_type).0 takes) rest)
      | inr other ↦ rw other (
          skipped
            (λ takes.
              let found = (matches_iff s.event_type event_type).1 takes in absurd (ground arith))
            rest)
    ]

module _ (handler : Subscription → Option ℕ) where
  -- The loop goes on behind a goroutine, and behind a handler without an error.
  abbrev pub GoesOn : Subscription → Type 0
  GoesOn s = (s.async ≡ true) ⊎ (handler s ≡ none)

  -- A synchronous handler with an error is the last.
  abbrev pub Stops : Bool → List Subscription → List Call → ℕ → Type 0
  Stops has_on_error subs calls error =
      (before : List Subscription) × (s : Subscription) × (after : List Subscription) × (subs
        ≡ before ++ s ∷ after)
      × All GoesOn before
      × (s.async ≡ false)
      × (handler s ≡ some error)
      × (calls ≡ map turn before ++ ran s ∷ (if has_on_error then reported s error ∷ [] else []))

  abbrev pub Delivers : Bool → List Subscription → List Call → Option ℕ → Type 0
  Delivers has_on_error subs calls none = All GoesOn subs × (calls ≡ map turn subs)
  Delivers has_on_error subs calls (some error) = Stops has_on_error subs calls error

  -- A subscription that lets the loop go on, before what is delivered behind it.
  and_then :
      (has_on_error : Bool) (s : Subscription) (subs : List Subscription) (calls : List Call)
      (err : Option ℕ)
      → GoesOn s
      → Delivers has_on_error subs calls err
      → Delivers has_on_error (s ∷ subs) (turn s ∷ calls) err
  and_then has_on_error s subs calls none fine (all, same) =
      ((fine, all), ap (λ cs. turn s ∷ cs) same)
  and_then has_on_error s subs calls (some error) fine
        (before, last, after, split, all, sync, fails, same) =
      (
        s ∷ before,
        last,
        after,
        ap (λ ss. s ∷ ss) split,
        (fine, all),
        sync,
        fails,
        ap (λ cs. turn s ∷ cs) same,
      )

  deliver_on :
      (has_on_error : Bool) (s : Subscription) (subs : List Subscription)
      → GoesOn s
      → deliver handler has_on_error (s ∷ subs)
        ≡ (turn s ∷ (deliver handler has_on_error subs).0, (deliver handler has_on_error subs).1)
  unfolding deliver sync_turn
  deliver_on has_on_error s subs (inl async) = ground arith
  deliver_on has_on_error s subs (inr fine) = ground arith

  deliver_fails :
      (has_on_error : Bool) (s : Subscription) (subs : List Subscription) (error : ℕ)
      → s.async ≡ false
      → handler s ≡ some error
      → deliver handler has_on_error (s ∷ subs)
        ≡ (ran s ∷ (if has_on_error then reported s error ∷ [] else []), some error)
  unfolding deliver sync_turn
  deliver_fails has_on_error s subs error sync fails = ground arith

  -- A handler either lets the loop go on or ends it.
  turn-cases :
      (s : Subscription) → GoesOn s ⊎ ((error : ℕ) × (s.async ≡ false) × (handler s ≡ some error))
  turn-cases s = elim (Bool-cases s.async) [
    | inl async ↦ inl (inl async)
    | inr sync ↦ elim (Option-cases (handler s)) [
      | inl fine ↦ inl (inr fine)
      | inr (error, fails) ↦ inr (error, sync, fails)
    ]
  ]

  deliver-Delivers :
      (has_on_error : Bool) (subs : List Subscription)
      → Delivers has_on_error subs
          (deliver handler has_on_error subs).0
          (deliver handler has_on_error subs).1
  unfolding deliver
  deliver-Delivers has_on_error [] = (tt, refl)
  deliver-Delivers has_on_error (s ∷ subs) =
      let rest = deliver-Delivers has_on_error subs in
      elim (turn-cases s) [
        | inl fine ↦
            subst (λ d. Delivers has_on_error (s ∷ subs) d.0 d.1)
              (sym (deliver_on has_on_error s subs fine))
              (and_then has_on_error s subs (deliver handler has_on_error subs).0
                (deliver handler has_on_error subs).1 fine rest)
        | inr (error, sync, fails) ↦
            subst (λ d. Delivers has_on_error (s ∷ subs) d.0 d.1)
              (sym (deliver_fails has_on_error s subs error sync fails))
              ([], s, subs, refl, tt, sync, fails, refl)
      ]

  -- Publish goes over the subscriptions whose pattern takes the type of the event, all of them and no
  -- other, in the order in which they stand: an asynchronous handler is given to a goroutine, a
  -- synchronous one runs. Without an error each of them has its turn. Otherwise the first synchronous
  -- handler that fails is the last of them: its error is reported if there is a callback, is counted
  -- and is what the publisher gets, and none behind it is called.
  pub publish-Delivers :
      (eb : EventBus) (event_type : Bytes)
      → let (eb', calls, err) = publish handler eb event_type in
        Delivers eb.has_on_error (match_subscriptions eb.subscriptions event_type) calls err
        × Selects event_type eb.subscriptions (match_subscriptions eb.subscriptions event_type)
        × (eb'.subscriptions ≡ eb.subscriptions)
        × (eb'.publish_count ≡ eb.publish_count + 1)
        × (eb'.error_count ≡ eb.error_count + (elim err as (λ _. ℕ) [ none ↦ 0 | some error ↦ 1 ]))
  unfolding publish
  publish-Delivers eb event_type =
      let subs = match_subscriptions eb.subscriptions event_type in
      (
        deliver-Delivers eb.has_on_error subs,
        match_subscriptions-Selects eb.subscriptions event_type,
        refl,
        refl,
        ground arith,
      )
