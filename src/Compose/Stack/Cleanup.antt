-- ===== src/Compose/Stack/Cleanup.antt =====
-- A deployment starts every service, or stops and removes what it has started.
use mathlib.Core.Path.{subst}
use mathlib.Core.List.{append-nil, append_assoc}
use deploy_monster.Prelude.{
  ◌≡◌, refl, sym, ap, ◌∙◌, List, [], ◌∷◌, ◌++◌, Option, none, some, String, ◌⊎◌, inl, inr,
}
use deploy_monster.Prelude.Int.{ℤ}
use deploy_monster.Prelude.Dict.{lookup}
use deploy_monster.Prelude.Guards.{either_way}
use deploy_monster.Compose.{BuildConfig, ServiceConfig, names, deps, dependency_order}
use deploy_monster.Compose.Order.{Orders, dependency_order_sound}
use deploy_monster.Compose.Stack.{ContainerOpts, DeployOpts, Numbers}
use deploy_monster.Compose.Stack.Deploying.{
  Call, creates, Runtime, ServiceError, DeployError, no_runtime, no_network, container_name,
  container_opts, deploy_service, Next, deployed, deploy_found, deploy_from, in_order, in_network,
  deploy, without_image, created_as, is_blank, network_error, stack_network,
}
use deploy_monster.Compose.Stack.Progress.{
  is_present, keep_if, containers, Ends, Outcome, Progress, Stepped, created-Progress, rolled_back,
}

module _ {Item Error : Type 0} (numbers : Numbers) (show_port : ℤ → String)
    (runtime : Runtime Error) (opts : DeployOpts Item) (network : String) where
  abbrev Goes : List String → Next numbers show_port runtime opts network → Type 0
  Goes order next =
      (so_far : List String) (calls : List (Call Error)) (created : List String)
      → Progress so_far calls created
      → Ends opts.stack_name runtime (so_far ++ containers opts order) (next calls created).0
          (next calls created).1

  without_image-Stepped :
      (so_far : List String) (name : String) (calls : List (Call Error)) (created : List String)
      (build : Option BuildConfig)
      → Stepped runtime so_far name calls created
          (calls, without_image numbers show_port runtime opts network build)
  unfolding without_image Stepped
  without_image-Stepped so_far name calls created none = ([], refl, sym (append-nil calls))
  without_image-Stepped so_far name calls created (some build) = ([], refl, sym (append-nil calls))

  created_as-Stepped :
      (so_far : List String) (calls : List (Call Error)) (created : List String)
      (copts : ContainerOpts) (answer : Error ⊎ String)
      → Progress so_far calls created
      → runtime.create calls copts ≡ answer
      → Stepped runtime so_far copts.name calls created (
        calls ++ (creates copts answer ∷ []),
        created_as numbers show_port runtime opts network answer,
      )
  unfolding created_as Stepped
  created_as-Stepped so_far calls created copts (inl why) p answered =
      (creates copts (inl why) ∷ [], (copts, refl, answered, refl), refl)
  created_as-Stepped so_far calls created copts (inr id) p answered =
      created-Progress so_far calls created copts id p

  deploy_service-Stepped :
      (so_far : List String) (x : String) (calls : List (Call Error)) (created : List String)
      (svc : ServiceConfig Item)
      → Progress so_far calls created
      → Stepped runtime so_far
          (container_name opts.stack_name x)
          calls
          created
          (deploy_service numbers show_port runtime opts network calls x svc)
  unfolding deploy_service container_opts
  deploy_service-Stepped so_far x calls created svc p =
      let copts = container_opts numbers show_port opts x svc network in
      either_way (Stepped runtime so_far (container_name opts.stack_name x) calls created)
        (is_blank svc.image)
        (without_image-Stepped so_far (container_name opts.stack_name x) calls created svc.build)
        (created_as-Stepped so_far calls created copts (runtime.create calls copts) p refl)

  deployed-Goes :
      (order : List String) (next : Next numbers show_port runtime opts network)
      → Goes order next
      → (so_far : List String) (x : String) (calls : List (Call Error)) (created : List String)
        (r : List (Call Error) × (ServiceError Error ⊎ String))
      → Progress so_far calls created
      → Stepped runtime so_far (container_name opts.stack_name x) calls created r
      → let out = deployed numbers show_port runtime opts network next x created r in
        Ends opts.stack_name runtime
          (so_far ++ (container_name opts.stack_name x ∷ containers opts order))
          out.0
          out.1
  unfolding deployed Stepped
  deployed-Goes order next goes so_far x calls created (calls', inl why) p fails =
      rolled_back runtime so_far (containers opts order) calls calls' created
        (container_name opts.stack_name x) why p fails
  deployed-Goes order next goes so_far x calls created (calls', inr id) p more =
      let name = container_name opts.stack_name x in
      let out = next calls' (created ++ (id ∷ [])) in
      subst (λ l. Ends opts.stack_name runtime l out.0 out.1)
        (append_assoc so_far (name ∷ []) (containers opts order))
        (goes (so_far ++ (name ∷ [])) calls' (created ++ (id ∷ [])) more)

  deploy_found-Goes :
      (order : List String) (next : Next numbers show_port runtime opts network)
      → Goes order next
      → (so_far : List String) (x : String) (calls : List (Call Error)) (created : List String)
        (found : Option (Option (ServiceConfig Item)))
      → Progress so_far calls created
      → let out = deploy_found numbers show_port runtime opts network next x calls created found in
        Ends opts.stack_name runtime
          (so_far
            ++ keep_if
                (is_present found)
                (container_name opts.stack_name x)
                (containers opts order))
          out.0
          out.1
  unfolding deploy_found
  deploy_found-Goes order next goes so_far x calls created none p = goes so_far calls created p
  deploy_found-Goes order next goes so_far x calls created (some none) p =
      goes so_far calls created p
  deploy_found-Goes order next goes so_far x calls created (some (some svc)) p =
      deployed-Goes order next goes so_far x calls created
        (deploy_service numbers show_port runtime opts network calls x svc) p
        (deploy_service-Stepped so_far x calls created svc p)

  deploy_from-Goes :
      (order : List String) → Goes order (deploy_from numbers show_port runtime opts network order)
  unfolding deploy_from
  deploy_from-Goes [] so_far calls created p = (p.only, p.named ∙ sym (append-nil so_far))
  deploy_from-Goes (x ∷ order) so_far calls created p =
      deploy_found-Goes order (deploy_from numbers show_port runtime opts network order)
        (deploy_from-Goes order) so_far x calls created (lookup x opts.compose.services) p

in_network-Ends :
    {Item Error : Type 0} (numbers : Numbers) (show_port : ℤ → String) (show : Item → String)
    (runtime : Runtime Error) (opts : DeployOpts Item) (why : Option Error) (order : List String)
    → dependency_order show opts.compose ≡ some order
    → network_error runtime.ensure_network (stack_network opts.stack_name) ≡ why
    → (calls : List (Call Error)) × (result : Option (DeployError Error)) × (in_network numbers
          show_port show runtime opts
          (stack_network opts.stack_name)
          why
        ≡ some (calls, result))
      × Ends opts.stack_name runtime (containers opts order) calls result
unfolding in_network in_order
in_network-Ends numbers show_port show runtime opts (some why) order found refused =
    ([], some (no_network why), refl, (refused, refl))
in_network-Ends numbers show_port show runtime opts none order found made =
    let network = stack_network opts.stack_name in
    let out = deploy_from numbers show_port runtime opts network order [] [] in
    (
      out.0,
      out.1,
      ap (in_order numbers show_port show runtime opts network) found,
      deploy_from-Goes numbers show_port runtime opts network order [] [] []
          (record { only = tt; named = refl; held = refl }),
    )

ended :
    {Item Error : Type 0} (numbers : Numbers) (show_port : ℤ → String) (show : Item → String)
    (runtime : Option (Runtime Error)) (opts : DeployOpts Item) (order : List String)
    → dependency_order show opts.compose ≡ some order
    → (calls : List (Call Error)) × (result : Option (DeployError Error)) × (deploy numbers
          show_port show runtime opts
        ≡ some (calls, result))
      × Outcome opts.stack_name runtime (containers opts order) calls result
unfolding deploy
ended numbers show_port show none opts order found = ([], some no_runtime, refl, (refl, refl))
ended numbers show_port show (some runtime) opts order found =
    in_network-Ends numbers show_port show runtime opts _ order found refl

-- `Deploy` ends for every compose file, whatever the runtime answers. Without an error its calls are
-- creations, each answered with an ID, of one container for each service that is set, in an order
-- that has each service once and behind its dependencies except for cycles. If a service fails, the
-- calls are the creations of the containers before it in that order; for a service with an image its
-- own creation, which the runtime answered with the error; and then, for each container before it, a
-- stop and a forced removal by its ID, and nothing else: what a failed creation has left is not
-- touched, and whether a stop or a removal takes effect is not looked at. Nothing is called if the
-- network cannot be made, nor without a runtime, which alone gives the error of a missing runtime.
pub deploy_starts_or_rolls_back :
    {Item Error : Type 0} (numbers : Numbers) (show_port : ℤ → String) (show : Item → String)
    (runtime : Option (Runtime Error)) (opts : DeployOpts Item)
    → (order : List String) × Orders (deps show opts.compose) (names opts.compose) order
      × (calls : List (Call Error)) × (result : Option (DeployError Error)) × (deploy numbers
            show_port show runtime opts
          ≡ some (calls, result))
      × Outcome opts.stack_name runtime (containers opts order) calls result
unfolding deploy
deploy_starts_or_rolls_back numbers show_port show runtime opts =
    let (order, found, sound) = dependency_order_sound show opts.compose in
    let (calls, result, run, outcome) = ended numbers show_port show runtime opts order found in
    (order, sound, calls, result, run, outcome)
