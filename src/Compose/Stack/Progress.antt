-- ===== src/Compose/Stack/Progress.antt =====
-- What a deployment has done so far, and how it ends.
use mathlib.Core.Path.{subst}
use mathlib.Core.List.{map-append}
use deploy_monster.Prelude.{
  ◌≡◌, sym, ap, ◌∙◌, Bool, true, false, List, [], ◌∷◌, ◌++◌, Option, none, some, String, ◌⊎◌, inl,
  inr, map,
}
use deploy_monster.Prelude.Dict.{lookup}
use deploy_monster.Compose.{ServiceConfig}
use deploy_monster.Compose.Stack.{ContainerOpts, DeployOpts}
use deploy_monster.Compose.Stack.Deploying.{
  Call, creates, Runtime, ServiceError, needs_build, no_image, not_created, network_error,
  stack_network, DeployError, no_runtime, no_network, service_failed, rollback, container_name,
}
use deploy_monster.Compose.Stack.Calls.{
  started, names_of, ids, AllCreated, CleansUp, AllCreated-append, started-append,
  rollback-CleansUp,
}

-- The names of services that are there and not nil.
abbrev pub is_present : {Item : Type 0} → Option (Option (ServiceConfig Item)) → Bool
is_present none = false
is_present (some none) = false
is_present (some (some svc)) = true

abbrev pub keep_if : Bool → String → List String → List String
keep_if true x xs = x ∷ xs
keep_if false x xs = xs

module _ {Item : Type 0} (opts : DeployOpts Item) where
  -- The containers of the services in `order`.
  abbrev pub containers : List String → List String
  containers [] = []
  containers (x ∷ order) =
      keep_if (is_present (lookup x opts.compose.services)) (container_name opts.stack_name x)
        (containers order)

module _ {Error : Type 0} where
  -- Every call is a creation that was answered with an ID, of the wanted containers in order.
  abbrev pub AllStarted : List String → List (Call Error) → Type 0
  AllStarted wanted calls = AllCreated calls × (names_of calls ≡ wanted)

  -- The calls for the service that failed, behind the calls `before`: none, or a creation that the
  -- runtime answered with an error.
  abbrev pub FailsWith :
      Runtime Error → List (Call Error) → String → ServiceError Error → List (Call Error) → Type 0
  FailsWith runtime before name needs_build last = last ≡ []
  FailsWith runtime before name no_image last = last ≡ []
  FailsWith runtime before name (not_created why) last =
      (copts : ContainerOpts) × (copts.name ≡ name)
      × (runtime.create before copts ≡ inl why)
      × (last ≡ creates copts (inl why) ∷ [])

  -- The containers before that of the service were started, that of the service was not, and then
  -- those that were are stopped and removed, and nothing else is.
  abbrev pub RolledBack :
      Runtime Error → List String → List (Call Error) → String → ServiceError Error → Type 0
  RolledBack runtime wanted calls name why =
      (before last after : List (Call Error)) × (later : List String) × AllCreated before
      × FailsWith runtime before name why last
      × CleansUp (ids before) after
      × (calls ≡ before ++ last ++ after)
      × (wanted ≡ names_of before ++ (name ∷ later))

  -- How a deployment of the stack with a runtime ends.
  abbrev pub Ends :
      String → Runtime Error → List String → List (Call Error) → Option (DeployError Error) → Type 0
  Ends stack runtime wanted calls none = AllStarted wanted calls
  Ends stack runtime wanted calls (some no_runtime) = ⊥
  Ends stack runtime wanted calls (some (no_network why)) =
      (network_error runtime.ensure_network (stack_network stack) ≡ some why) × (calls ≡ [])
  Ends stack runtime wanted calls (some (service_failed svc_name why)) =
      RolledBack runtime wanted calls (container_name stack svc_name) why

  abbrev pub Outcome :
      String
      → Option (Runtime Error)
      → List String
      → List (Call Error)
      → Option (DeployError Error)
      → Type 0
  Outcome stack none wanted calls result = (calls ≡ []) × (result ≡ some no_runtime)
  Outcome stack (some runtime) wanted calls result = Ends stack runtime wanted calls result

  -- The loop, behind the calls that started the containers `created`.
  pub record Progress (so_far : List String) (calls : List (Call Error)) (created : List String)
      : Type 0 where
    pub only : AllCreated calls
    pub named : names_of calls ≡ so_far
    pub held : ids calls ≡ created

  -- What deployService adds to it.
  unfoldable pub Stepped :
      Runtime Error
      → List String
      → String
      → List (Call Error)
      → List String
      → List (Call Error) × (ServiceError Error ⊎ String)
      → Type 0
  Stepped runtime so_far name calls created (calls', inl why) =
      (last : List (Call Error)) × FailsWith runtime calls name why last × (calls' ≡ calls ++ last)
  Stepped runtime so_far name calls created (calls', inr id) =
      Progress (so_far ++ (name ∷ [])) calls' (created ++ (id ∷ []))

  pub created-Progress :
      (so_far : List String) (calls : List (Call Error)) (created : List String)
      (copts : ContainerOpts) (id : String)
      → Progress so_far calls created
      → Progress
          (so_far ++ (copts.name ∷ []))
          (calls ++ (creates copts (inr id) ∷ []))
          (created ++ (id ∷ []))
  created-Progress so_far calls created copts id p =
      let same : started (calls ++ (creates copts (inr id) ∷ []))
          ≡ started calls ++ ((copts.name, id) ∷ []) =
        started-append calls _ in
      record {
        only = AllCreated-append calls _ p.only tt;
        named =
            ap (map (λ e. e.0)) same
            ∙ map-append (λ e. e.0) (started calls) _
            ∙ ap (λ l. l ++ (copts.name ∷ [])) p.named;
        held =
            ap (map (λ e. e.1)) same
            ∙ map-append (λ e. e.1) (started calls) _
            ∙ ap (λ l. l ++ (id ∷ [])) p.held;
      }

  pub rolled_back :
      (runtime : Runtime Error) (so_far later : List String) (calls calls' : List (Call Error))
      (created : List String) (name : String) (why : ServiceError Error)
      → Progress so_far calls created
      → (last : List (Call Error)) × FailsWith runtime calls name why last
        × (calls' ≡ calls ++ last)
      → RolledBack runtime (so_far ++ (name ∷ later)) (calls' ++ rollback created) name why
  rolled_back runtime so_far later calls calls' created name why p (last, fails, same) = (
    calls,
    last,
    rollback created,
    later,
    p.only,
    fails,
    subst (λ l. CleansUp {Error = Error} l (rollback created)) (sym p.held)
        (rollback-CleansUp Error created),
    ap (λ l. l ++ rollback created) same,
    ap (λ l. l ++ (name ∷ later)) (sym p.named),
  )
