-- ===== src/Deploy/Rollback/Safety.antt =====
-- A rollback never leaves its application without a container that runs.
use text.Mathlib.TextEquality.{eq_iff}
use Prim.Native.String.{◌++◌ as ◌⧺◌}
use deploy_monster.Prelude.{
  ℕ, ◌≡◌, ◌≢◌, refl, Bool, true, false, List, [], ◌∷◌, Option, none, some, String, ◌⊎◌, inl, inr,
  arith, ◌==◌, length,
}
use deploy_monster.Prelude.Int.{ℤ}
use deploy_monster.Prelude.Find.{find}
use deploy_monster.Prelude.Guards.{either_way}
use deploy_monster.Prelude.Names.{has}
use deploy_monster.Compose.Stack.{ContainerOpts}
use deploy_monster.Deploy.Rollback.{
  Deployment, Application, Store, Runtime, Effect, inserts, sets_status, creates, RollbackError,
  not_listed, no_app, not_inserted, no_version, no_image, is_blank, Done, container_id_of,
  container_opts, health_loop, swap, checked, health_check, created, started, new_row, inserted,
  with_app, with_target, with_list, rollback,
}
use deploy_monster.Deploy.Rollback.Serving.{
  serving, Ends, IsSafe, IsChecked, has_some, differ, before-IsSafe, swap-IsSafe, last_check-IsSafe,
  health_loop-IsChecked, discarded,
}

module _ {Error : Type 0} (old : String) (store : Store Error) (runtime : Runtime Error)
    (set : is_blank old ≡ false) where
  checked-IsSafe :
      (d : Deployment) (result : List (Effect Error) × Bool) (now : List String)
      → d.container_id ≢ old
      → IsChecked old d.container_id now result
      → IsSafe old (checked store runtime old d result) now
  unfolding checked IsChecked
  checked-IsSafe d (asked, true) now other (served, kept, seen) =
      before-IsSafe old asked (swap store old d) now served
        (swap-IsSafe old store d (serving asked now) set other (seen refl))
  checked-IsSafe d (asked, false) now other (served, kept, seen) =
      last_check-IsSafe old store d asked (runtime.running (length asked)) now set other served kept

  health_check-IsSafe :
      (d : Deployment) (now : List String)
      → is_blank d.container_id ≡ false
      → d.container_id ≢ old
      → has old now ≡ true
      → IsSafe old (health_check store runtime old d) now
  unfolding health_check
  health_check-IsSafe d now named other held = rw named (
      checked-IsSafe d (health_loop runtime d.container_id 10 0) now other
        (health_loop-IsChecked old runtime d.container_id 10 0 now held))

  created-IsSafe :
      (d : Deployment) (opts : ContainerOpts) (answer : Error ⊎ String) (now : List String)
      → opts.name ≢ old
      → ((id : String) → answer ≡ inr id → (id ≢ old) × (is_blank id ≡ false))
      → has old now ≡ true
      → IsSafe old (created store runtime old d opts answer) now
  unfolding created
  created-IsSafe d opts (inl why) now other fresh held =
      let one = has_some old now held in
      let (rest, kept) =
        discarded {Error = Error} old opts.name now [] (differ opts.name old other) held
          (λ left h. (has_some old left h, refl)) in
      ((one, (one, (one, rest))), kept)
  created-IsSafe d opts (inr id) now other fresh held =
      let (apart, named) = fresh id refl in
      let one = has_some old now held in
      before-IsSafe old (creates opts (inr id) ∷ []) _ now (one, one)
        (health_check-IsSafe (record d { container_id = id }) now named apart held)

  -- Where the new row is inserted.
  started-IsSafe :
      (d : Deployment) (opts : ContainerOpts) (now : List String)
      → opts.name ≢ old
      → ((id : String) → runtime.create opts ≡ inr id → (id ≢ old) × (is_blank id ≡ false))
      → has old now ≡ true
      → IsSafe old (started store (some runtime) old d opts) now
  unfolding started
  started-IsSafe d opts now other fresh held =
      created-IsSafe d opts (runtime.create opts) now other fresh held

module _ {Error : Type 0} (show : ℕ → String) (show_port : ℤ → String) (store : Store Error)
    (runtime : Runtime Error) (app_id : String) (target : ℕ)
    (set : is_blank (container_id_of store.latest) ≡ false)
    (names : (app : Application) (version : ℕ)
      → ("dm-" ⧺ (app.id ⧺ ("-" ⧺ show version))) ≢ container_id_of store.latest)
    (fresh : (opts : ContainerOpts) (id : String)
      → runtime.create opts ≡ inr id
      → (id ≢ container_id_of store.latest) × (is_blank id ≡ false)) where
  abbrev old : String
  old = container_id_of store.latest

  refused-IsSafe :
      (why : RollbackError Error)
      → Ends old (inl why) (old ∷ [])
      → IsSafe old ([], inl why) (old ∷ [])
  refused-IsSafe why ends = (λ e. cc, ends)

  there : has old (old ∷ []) ≡ true
  unfolding has
  there = ground (arith, eq_iff old old)

  inserted-IsSafe :
      (app : Application) (d : Deployment) (version : Error ⊎ ℕ)
      → IsSafe old
          (inserted show show_port store (some runtime) app_id target app d version)
          (old ∷ [])
  unfolding inserted container_opts
  inserted-IsSafe app d (inl why) = refused-IsSafe (not_inserted why) there
  inserted-IsSafe app d (inr version) =
      let new = record d { version = version } in
      let one = has_some old (old ∷ []) there in
      before-IsSafe old (inserts new ∷ sets_status "deploying" ∷ [])
        (started store (some runtime) old new
          (container_opts show show_port app_id target app store.domains new))
        (old ∷ []) (one, (one, one))
        (started-IsSafe old store runtime set new
          (container_opts show show_port app_id target app store.domains new) (old ∷ [])
          (names app version)
          (fresh (container_opts show show_port app_id target app store.domains new)) there)

  with_app-IsSafe :
      (found : Deployment) (app : Error ⊎ Application)
      → IsSafe old (with_app show show_port store (some runtime) app_id target found app) (old ∷ [])
  unfolding with_app
  with_app-IsSafe found (inl why) = refused-IsSafe (no_app why) there
  with_app-IsSafe found (inr app) =
      inserted-IsSafe app (new_row (show target) found) store.next_version

  with_target-IsSafe :
      (found : Option Deployment)
      → IsSafe old (with_target show show_port store (some runtime) app_id target found) (old ∷ [])
  unfolding with_target
  with_target-IsSafe none = refused-IsSafe no_version there
  with_target-IsSafe (some found) =
      either_way {A = Done Error} (λ done. IsSafe {Error = Error} old done (old ∷ []))
        (is_blank found.image) (refused-IsSafe no_image there) (with_app-IsSafe found store.app)

  with_list-IsSafe :
      (ds : Error ⊎ List Deployment)
      → IsSafe old (with_list show show_port store (some runtime) app_id target ds) (old ∷ [])
  unfolding with_list
  with_list-IsSafe (inl why) = refused-IsSafe (not_listed why) there
  with_list-IsSafe (inr ds) = with_target-IsSafe (find (λ d. d.version == target) ds)

  -- A rollback of an application whose latest deployment has a container, which runs, over a runtime
  -- that gives each new container an ID of its own, not empty; the ID of the old one is not the name
  -- of a new one: at every moment a container runs, the old one or a new one that was seen running. With a result,
  -- the new container runs in the end, and the old one is gone if its stop or its removal takes
  -- effect. With an error, the old one still runs, except where only the last update of the row
  -- failed: then it is gone in the same sense.
  pub rollback-IsSafe :
      IsSafe old (rollback show show_port store (some runtime) app_id target) (old ∷ [])
  unfolding rollback
  rollback-IsSafe = with_list-IsSafe (store.deployments 50)
