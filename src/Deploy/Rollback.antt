-- ===== src/Deploy/Rollback.antt =====
-- internal/deploy/rollback.go: the rollback of an application to an earlier version. The store and the
-- container runtime are parameters: what they answer, in the order in which they are asked. The
-- errors that the code drops are not answers. What is done is listed, the first effect first.
pub mod Serving
pub mod Safety
mod Tests
use Prim.Native.String.{◌++◌ as ◌⧺◌}
use text.Mathlib.Text.{◌==◌ as str_eq}
use deploy_monster.Prelude.{
  ℕ, zero, suc, ◌+◌, Bool, true, false, not, List, [], ◌∷◌, ◌++◌, Option, none, some, String, ◌⊎◌,
  inl, inr, if◌then◌else◌, ◌==◌, length,
}
use deploy_monster.Prelude.Int.{ℤ, pos, ltb_ℤ}
use deploy_monster.Prelude.Find.{find}
use deploy_monster.Prelude.Dict.{insert}
use deploy_monster.Compose.Stack.{ContainerOpts}

pub record Deployment : Type 0 where
  pub version : ℕ
  pub image : String
  pub status : String
  pub commit_sha : String
  pub commit_message : String
  pub container_id : String
  pub triggered_by : String
  pub strategy : String

pub record Application : Type 0 where
  pub id : String
  pub name : String
  pub tenant_id : String
  pub port : ℤ

-- The store. The latest deployment is none also for an error, which the code drops.
pub record Store (Error : Type 0) : Type 0 where
  pub deployments : ℕ → Error ⊎ List Deployment
  pub app : Error ⊎ Application
  pub latest : Option Deployment
  pub next_version : Error ⊎ ℕ
  pub domains : List String
  pub update_deployment : Deployment → Option Error

-- The runtime. The n-th question for the statistics of a container has the answer whether it is
-- running, or none for an error and for no statistics.
pub record Runtime (Error : Type 0) : Type 0 where
  pub create : ContainerOpts → Error ⊎ String
  pub running : ℕ → Option Bool

pub data Effect (Error : Type 0) : Type 0 where
  inserts updates : Deployment → Effect Error
  sets_status : String → Effect Error
  creates : ContainerOpts → Error ⊎ String → Effect Error
  probes : (id : String) → Option Bool → Effect Error
  stops removes : (id : String) → Effect Error
  publishes : ℕ → Effect Error

pub data RollbackError (Error : Type 0) : Type 0 where
  not_listed no_app not_inserted not_created not_persisted : Error → RollbackError Error
  no_version no_image unhealthy : RollbackError Error

abbrev pub is_blank : String → Bool
is_blank String.[] = true
is_blank (String.◌∷◌ c s) = false

abbrev pub container_id_of : Option Deployment → String
container_id_of none = ""
container_id_of (some deployment) = deployment.container_id

-- What was done, and what the caller gets.
abbrev pub Done : Type 0 → Type 0
Done Error = List (Effect Error) × (RollbackError Error ⊎ Deployment)

-- The effects before the rest of a run.
abbrev pub before : {Error : Type 0} → List (Effect Error) → Done Error → Done Error
before effects (later, result) = (effects ++ later, result)

module _ (show : ℕ → String) (show_port : ℤ → String) where
  route_labels : String → String → ℕ → List String → List (String × String) → List (String × String)
  unfolding insert
  route_labels name port i [] labels = labels
  route_labels name port i (fqdn ∷ domains) labels =
      let router = name ⧺ ("-" ⧺ show i) in
      route_labels name port (suc i) domains (
        insert ("monster.http.services." ⧺ (router ⧺ ".loadbalancer.server.port")) port
          (insert ("monster.http.routers." ⧺ (router ⧺ ".rule")) ("Host(`" ⧺ (fqdn ⧺ "`)")) labels))

  unfoldable pub container_opts :
      String → ℕ → Application → List String → Deployment → ContainerOpts
  unfolding route_labels
  container_opts app_id target app domains deployment =
      let port = if ltb_ℤ (pos 0) app.port then app.port else pos 80 in
      record {
        name = "dm-" ⧺ (app.id ⧺ ("-" ⧺ show deployment.version));
        image = deployment.image;
        env = [];
        labels = route_labels app.name (show_port port) 0 domains (
            ("monster.enable", "true")
            ∷ ("monster.app.id", app_id)
            ∷ ("monster.app.name", app.name)
            ∷ ("monster.tenant", app.tenant_id)
            ∷ ("monster.deploy.version", show deployment.version)
            ∷ ("monster.rollback.from", show target)
            ∷ []);
        network = "monster-network";
        cpu_quota = pos 0;
        memory_mb = pos 0;
        restart_policy = "unless-stopped";
      }

-- One round of the health check, before the rest of the rounds.
unfoldable pub health_round :
    {Error : Type 0}
    → String
    → Option Bool
    → List (Effect Error) × Bool
    → List (Effect Error) × Bool
health_round id (some true) rest = (probes id (some true) ∷ [], true)
health_round id (some false) rest = (probes id (some false) ∷ [], false)
health_round id none rest = (probes id none ∷ rest.0, rest.1)

-- The deployment that Rollback makes; the store gives it its version.
abbrev pub new_row : String → Deployment → Deployment
new_row target found = record {
  version = 0;
  image = found.image;
  status = "deploying";
  commit_sha = found.commit_sha;
  commit_message = "Rollback to v" ⧺ target;
  container_id = "";
  triggered_by = "rollback";
  strategy = "recreate";
}

module _ {Error : Type 0} where
  -- The loop of the health check, of which `left` rounds are left and `asked` are over: the probes,
  -- and whether the container was seen running.
  unfoldable pub health_loop : Runtime Error → String → ℕ → ℕ → List (Effect Error) × Bool
  unfolding health_round
  health_loop runtime id zero asked = ([], false)
  health_loop runtime id (suc left) asked =
      health_round id (runtime.running asked) (health_loop runtime id left (suc asked))

  unfoldable pub persisted : Deployment → Option Error → Done Error
  persisted d (some why) = (updates d ∷ [], inl (not_persisted why))
  persisted d none = (updates d ∷ sets_status "running" ∷ publishes d.version ∷ [], inr d)

  -- From `deployment.Status = "running"` on.
  unfoldable pub finish : Store Error → Deployment → Done Error
  unfolding persisted
  finish store d =
      let running = record d { status = "running" } in
      persisted running (store.update_deployment running)

  -- The old container is stopped and removed.
  unfoldable pub swap : Store Error → String → Deployment → Done Error
  unfolding finish
  swap store old d =
      if is_blank old
      then finish store d
      else before (stops old ∷ removes old ∷ []) (finish store d)

  -- The new container is stopped and removed; the application runs in the old one.
  abbrev pub given_up : Deployment → Done Error
  given_up d = (
    stops d.container_id
        ∷ removes d.container_id
        ∷ updates (record d { status = "failed" })
        ∷ sets_status "running"
        ∷ [],
    inl unhealthy,
  )

  -- What follows the last question whether the new container is running.
  unfoldable pub last_check :
      Store Error → String → Deployment → List (Effect Error) → Option Bool → Done Error
  unfolding swap
  last_check store old d asked (some true) =
      before (asked ++ (probes d.container_id (some true) ∷ [])) (swap store old d)
  last_check store old d asked answer =
      before (asked ++ (probes d.container_id answer ∷ [])) (given_up d)

  unfoldable pub checked :
      Store Error → Runtime Error → String → Deployment → List (Effect Error) × Bool → Done Error
  unfolding last_check swap
  checked store runtime old d (asked, true) = before asked (swap store old d)
  checked store runtime old d (asked, false) =
      last_check store old d asked (runtime.running (length asked))

  unfoldable pub health_check : Store Error → Runtime Error → String → Deployment → Done Error
  unfolding checked health_loop
  health_check store runtime old d =
      if is_blank d.container_id
      then swap store old d
      else checked store runtime old d (health_loop runtime d.container_id 10 0)

  unfoldable pub created :
      Store Error
      → Runtime Error
      → String
      → Deployment
      → ContainerOpts
      → Error ⊎ String
      → Done Error
  unfolding health_check
  created store runtime old d opts (inl why) = (
    creates opts (inl why)
        ∷ updates (record d { status = "failed" })
        ∷ sets_status "failed"
        ∷ stops opts.name
        ∷ removes opts.name
        ∷ [],
    inl (not_created why),
  )
  created store runtime old d opts (inr id) =
      before (creates opts (inr id) ∷ [])
        (health_check store runtime old (record d { container_id = id }))

  unfoldable pub started :
      Store Error → Option (Runtime Error) → String → Deployment → ContainerOpts → Done Error
  unfolding created finish
  started store none old d opts = finish store d
  started store (some runtime) old d opts = created store runtime old d opts (runtime.create opts)

  module _ (show : ℕ → String) (show_port : ℤ → String) (store : Store Error)
      (runtime : Option (Runtime Error)) (app_id : String) (target : ℕ) where
    unfoldable pub inserted : Application → Deployment → Error ⊎ ℕ → Done Error
    unfolding started container_opts
    inserted app d (inl why) = ([], inl (not_inserted why))
    inserted app d (inr version) =
        let new = record d { version = version } in
        before (inserts new ∷ sets_status "deploying" ∷ []) (
          started store runtime (container_id_of store.latest) new
            (container_opts show show_port app_id target app store.domains new))

    unfoldable pub with_app : Deployment → Error ⊎ Application → Done Error
    unfolding inserted
    with_app found (inl why) = ([], inl (no_app why))
    with_app found (inr app) = inserted app (new_row (show target) found) store.next_version

    unfoldable pub with_target : Option Deployment → Done Error
    unfolding with_app
    with_target none = ([], inl no_version)
    with_target (some found) =
        if is_blank found.image then ([], inl no_image) else with_app found store.app

    unfoldable pub with_list : Error ⊎ List Deployment → Done Error
    unfolding with_target find
    with_list (inl why) = ([], inl (not_listed why))
    with_list (inr ds) = with_target (find (λ d. d.version == target) ds)

    -- `Rollback`
    unfoldable pub rollback : Done Error
    unfolding with_list
    rollback = with_list (store.deployments 50)
