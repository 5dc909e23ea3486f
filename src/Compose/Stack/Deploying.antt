-- ===== src/Compose/Stack/Deploying.antt =====
-- internal/compose/deployer.go: deployService, Deploy and rollback. The calls of the runtime are
-- listed with the answers of CreateAndStart; the errors of Stop and Remove are ignored by the code.
use Prim.Native.String.{◌++◌ as ◌⧺◌}
use text.Mathlib.Text.{◌==◌ as str_eq}
use deploy_monster.Prelude.{
  ℕ, Bool, true, false, not, ◌||◌, List, [], ◌∷◌, ◌++◌, Option, none, some, String, ◌⊎◌, inl, inr,
  if◌then◌else◌, map,
}
use deploy_monster.Prelude.Int.{ℤ, pos, ltb_ℤ}
use deploy_monster.Prelude.Bytes.{bytes}
use deploy_monster.Prelude.Dict.{lookup, insert}
use deploy_monster.Compose.{
  ServiceConfig, BuildConfig, DeployConfig, ResourceConfig, ResourceSpec, dependency_order,
}
use deploy_monster.Compose.Stack.{
  ContainerOpts, HttpRoute, DeployOpts, Numbers, parse_memory, parse_cpus, label_name,
  text_of_label,
}

abbrev pub is_blank : String → Bool
is_blank String.[] = true
is_blank (String.◌∷◌ c s) = false

-- The limits of a service, if every pointer on the way to them is set.
limits_in : Option ResourceConfig → Option ResourceSpec
limits_in none = none
limits_in (some resources) = resources.limits

limits_of : Option DeployConfig → Option ResourceSpec
unfolding limits_in
limits_of none = none
limits_of (some deploy) = limits_in deploy.resources

module _ (numbers : Numbers) where
  memory_mb_of : Option ResourceSpec → ℤ
  unfolding parse_memory
  memory_mb_of none = pos 0
  memory_mb_of (some spec) =
      if is_blank spec.memory then pos 0 else parse_memory numbers spec.memory

  cpu_quota_of : Option ResourceSpec → ℤ
  unfolding parse_cpus
  cpu_quota_of none = pos 0
  cpu_quota_of (some spec) = if is_blank spec.cpus then pos 0 else parse_cpus numbers spec.cpus

insert_all : List (String × String) → List (String × String) → List (String × String)
unfolding insert
insert_all [] labels = labels
insert_all ((k, v) ∷ rest) labels = insert_all rest (insert k v labels)

module _ (show_port : ℤ → String) where
  with_routes : String → String → List HttpRoute → List (String × String) → List (String × String)
  unfolding insert label_name text_of_label
  with_routes stack svc_name [] labels = labels
  with_routes stack svc_name (route ∷ routes) labels =
      let name = text_of_label (label_name (bytes (stack ⧺ ("-" ⧺ svc_name)))) in
      let rule = "monster.http.routers." ⧺ (name ⧺ ".rule") in
      let server = "monster.http.services." ⧺ (name ⧺ ".loadbalancer.server.port") in
      let labelled =
        insert server (show_port route.port)
          (insert rule ("Host(`" ⧺ (route.fqdn ⧺ "`)")) labels) in
      if not (str_eq route.service_name svc_name)
        || is_blank route.fqdn
        || not (ltb_ℤ (pos 0) route.port)
      then with_routes stack svc_name routes labels
      else with_routes stack svc_name routes labelled

abbrev pub container_name : String → String → String
container_name stack svc_name = "monster-" ⧺ (stack ⧺ ("-" ⧺ svc_name))

-- The options that deployService passes to the runtime.
module _ {Item : Type 0} (numbers : Numbers) (show_port : ℤ → String) where
  unfoldable pub container_opts :
      DeployOpts Item → String → ServiceConfig Item → String → ContainerOpts
  unfolding memory_mb_of cpu_quota_of limits_of insert_all with_routes
  container_opts opts svc_name svc network = record {
    name = container_name opts.stack_name svc_name;
    image = svc.image;
    env =
        map (λ e. e.0 ⧺ ("=" ⧺ e.1)) opts.env_vars ++ map (λ e. e.0 ⧺ ("=" ⧺ e.1)) svc.resolved_env;
    labels = with_routes show_port opts.stack_name svc_name opts.http_routes (
        insert_all svc.labels (
          ("monster.enable", "true")
          ∷ ("monster.app.id", opts.app_id)
          ∷ ("monster.stack", opts.stack_name)
          ∷ ("monster.stack.service", svc_name)
          ∷ ("monster.tenant", opts.tenant_id)
          ∷ []));
    network = network;
    cpu_quota = cpu_quota_of numbers (limits_of svc.deploy);
    memory_mb = memory_mb_of numbers (limits_of svc.deploy);
    restart_policy = if is_blank svc.restart then "unless-stopped" else svc.restart;
  }

-- A call of the runtime; a created container with its ID.
pub data Call (Error : Type 0) : Type 0 where
  creates : ContainerOpts → Error ⊎ String → Call Error
  stops : (id : String) → ℕ → Call Error
  removes : (id : String) → Bool → Call Error

pub data ServiceError (Error : Type 0) : Type 0 where
  needs_build no_image : ServiceError Error
  not_created : Error → ServiceError Error

pub data DeployError (Error : Type 0) : Type 0 where
  no_runtime : DeployError Error
  no_network : Error → DeployError Error
  service_failed : String → ServiceError Error → DeployError Error

-- The runtime: whether it can make networks, and how a creation ends after the calls before it.
pub record Runtime (Error : Type 0) : Type 0 where
  pub ensure_network : Option (String → Option Error)
  pub create : List (Call Error) → ContainerOpts → Error ⊎ String

-- `rollback`
unfoldable pub rollback : {Error : Type 0} → List String → List (Call Error)
rollback [] = []
rollback (id ∷ ids) = stops id 5 ∷ removes id true ∷ rollback ids

module _ {Item Error : Type 0} (numbers : Numbers) (show_port : ℤ → String)
    (runtime : Runtime Error) (opts : DeployOpts Item) (network : String) where
  unfoldable pub created_as : Error ⊎ String → ServiceError Error ⊎ String
  created_as (inl why) = inl (not_created why)
  created_as (inr id) = inr id

  unfoldable pub without_image : Option BuildConfig → ServiceError Error ⊎ String
  without_image none = inl no_image
  without_image (some build) = inl needs_build

  -- deployService, with the calls before it: the calls behind it, and its result.
  unfoldable pub deploy_service :
      List (Call Error)
      → String
      → ServiceConfig Item
      → List (Call Error) × (ServiceError Error ⊎ String)
  unfolding without_image created_as container_opts
  deploy_service calls svc_name svc =
      let copts = container_opts numbers show_port opts svc_name svc network in
      let answer = runtime.create calls copts in
      if is_blank svc.image
      then (calls, without_image svc.build)
      else (calls ++ (creates copts answer ∷ []), created_as answer)

  -- The body of the loop of Deploy: `next` is the rest of the loop, from the calls and the IDs so
  -- far; after a rollback there is a return.
  abbrev pub Next : Type 0
  Next = List (Call Error) → List String → List (Call Error) × Option (DeployError Error)

  unfoldable pub deployed :
      Next
      → String
      → List String
      → List (Call Error) × (ServiceError Error ⊎ String)
      → List (Call Error) × Option (DeployError Error)
  unfolding rollback
  deployed next svc_name created (calls, inl why) =
      (calls ++ rollback created, some (service_failed svc_name why))
  deployed next svc_name created (calls, inr id) = next calls (created ++ (id ∷ []))

  unfoldable pub deploy_found :
      Next
      → String
      → List (Call Error)
      → List String
      → Option (Option (ServiceConfig Item))
      → List (Call Error) × Option (DeployError Error)
  unfolding deployed deploy_service
  deploy_found next svc_name calls created none = next calls created
  deploy_found next svc_name calls created (some none) = next calls created
  deploy_found next svc_name calls created (some (some svc)) =
      deployed next svc_name created (deploy_service calls svc_name svc)

  unfoldable pub deploy_from : List String → Next
  unfolding deploy_found
  deploy_from [] calls created = (calls, none)
  deploy_from (svc_name ∷ names) calls created =
      deploy_found (deploy_from names) svc_name calls created
        (lookup svc_name opts.compose.services)

abbrev pub stack_network : String → String
stack_network stack = "monster-" ⧺ (stack ⧺ "-net")

abbrev pub network_error : {Error : Type 0} → Option (String → Option Error) → String → Option Error
network_error none name = none
network_error (some ensure) name = ensure name

module _ {Item Error : Type 0} (numbers : Numbers) (show_port : ℤ → String)
    (show : Item → String) where
  unfoldable pub in_order :
      Runtime Error
      → DeployOpts Item
      → String
      → Option (List String)
      → Option (List (Call Error) × Option (DeployError Error))
  unfolding deploy_from
  in_order runtime opts network none = none
  in_order runtime opts network (some order) =
      some (deploy_from numbers show_port runtime opts network order [] [])

  unfoldable pub in_network :
      Runtime Error
      → DeployOpts Item
      → String
      → Option Error
      → Option (List (Call Error) × Option (DeployError Error))
  unfolding in_order dependency_order
  in_network runtime opts network (some why) = some ([], some (no_network why))
  in_network runtime opts network none =
      in_order runtime opts network (dependency_order show opts.compose)

  -- `Deploy`. There would be no result if the order of the services ran out of fuel.
  unfoldable pub deploy :
      Option (Runtime Error)
      → DeployOpts Item
      → Option (List (Call Error) × Option (DeployError Error))
  unfolding in_network
  deploy none opts = some ([], some no_runtime)
  deploy (some runtime) opts =
      let network = stack_network opts.stack_name in
      in_network runtime opts network (network_error runtime.ensure_network network)
