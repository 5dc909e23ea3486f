-- ===== src/Compose/Stack/Calls.antt =====
-- What the calls of the runtime are.
use deploy_monster.Prelude.{◌≡◌, refl, ap, true, List, [], ◌∷◌, ◌++◌, String, inl, inr, map}
use deploy_monster.Compose.Stack.Deploying.{Call, creates, stops, removes, rollback}

module _ {Error : Type 0} where
  -- The names and the IDs of the containers whose creation and start was answered with an ID.
  abbrev pub started : List (Call Error) → List (String × String)
  started [] = []
  started (creates opts (inl why) ∷ calls) = started calls
  started (creates opts (inr id) ∷ calls) = (opts.name, id) ∷ started calls
  started (stops id seconds ∷ calls) = started calls
  started (removes id forced ∷ calls) = started calls

  abbrev pub names_of : List (Call Error) → List String
  names_of calls = map (λ e. e.0) (started calls)

  abbrev pub ids : List (Call Error) → List String
  ids calls = map (λ e. e.1) (started calls)

  -- Every call is a creation that was answered with an ID.
  abbrev pub AllCreated : List (Call Error) → Type 0
  AllCreated [] = Unit
  AllCreated (creates opts (inl why) ∷ calls) = ⊥
  AllCreated (creates opts (inr id) ∷ calls) = AllCreated calls
  AllCreated (stops id seconds ∷ calls) = ⊥
  AllCreated (removes id forced ∷ calls) = ⊥

  -- For each ID in turn a stop, with five seconds, and a forced removal, and no other call.
  abbrev pub CleansUp : List String → List (Call Error) → Type 0
  CleansUp [] calls = calls ≡ []
  CleansUp (id ∷ more) calls =
      (rest : List (Call Error)) × (calls ≡ stops id 5 ∷ removes id true ∷ rest)
      × CleansUp more rest

  pub AllCreated-append :
      (a b : List (Call Error)) → AllCreated a → AllCreated b → AllCreated (a ++ b)
  AllCreated-append [] b h k = k
  AllCreated-append (creates opts (inl why) ∷ a) b h k = h
  AllCreated-append (creates opts (inr id) ∷ a) b h k = AllCreated-append a b h k
  AllCreated-append (stops id seconds ∷ a) b h k = h
  AllCreated-append (removes id forced ∷ a) b h k = h

  pub started-append : (a b : List (Call Error)) → started (a ++ b) ≡ started a ++ started b
  started-append [] b = refl
  started-append (creates opts (inl why) ∷ a) b = started-append a b
  started-append (creates opts (inr id) ∷ a) b = ap (λ s. (opts.name, id) ∷ s) (started-append a b)
  started-append (stops id seconds ∷ a) b = started-append a b
  started-append (removes id forced ∷ a) b = started-append a b

pub rollback-CleansUp :
    (Error : Type 0) (created : List String) → CleansUp {Error = Error} created (rollback created)
unfolding rollback
rollback-CleansUp Error [] = refl
rollback-CleansUp Error (id ∷ created) = (rollback created, refl, rollback-CleansUp Error created)
