-- ===== src/Deploy/Rollback/Serving.antt =====
-- During a rollback there is always a container that serves: the old one, or the new one from the
-- moment on in which it was seen running.
use text.Mathlib.Text.{◌==◌ as str_eq}
use text.Mathlib.TextEquality.{eq_iff}
use mathlib.Core.Path.{subst}
use deploy_monster.Prelude.{
  ℕ, zero, suc, ◌≡◌, ◌≢◌, refl, sym, ap, ◌∙◌, Bool, true, false, not, ◌&&◌, List, [], ◌∷◌, ◌++◌,
  Option, none, some, String, ◌⊎◌, inl, inr, arith, Bool-cases,
}
use deploy_monster.Prelude.Names.{has, remove, has-remove}
use deploy_monster.Deploy.Rollback.{
  Deployment, Store, Runtime, Effect, updates, sets_status, probes, stops, removes, RollbackError,
  not_persisted, is_blank, Done, before, health_round, health_loop, persisted, finish, swap,
  given_up, last_check,
}

-- The containers that are known to run, after one effect and after several. A container that was to be
-- stopped or removed counts as gone, although the code drops the errors of Stop and Remove: of those
-- that may have gone none is counted, so what is shown of a container that serves holds in any case.
module _ {Error : Type 0} where
  abbrev pub after : Effect Error → List String → List String
  after (probes id (some true)) now = id ∷ now
  after (stops id) now = remove id now
  after (removes id) now = remove id now
  after _ now = now

  abbrev pub serving : List (Effect Error) → List String → List String
  serving [] now = now
  serving (e ∷ es) now = serving es (after e now)

  -- There is one at every moment.
  abbrev pub AlwaysServed : List (Effect Error) → List String → Type 0
  AlwaysServed [] now = now ≢ []
  AlwaysServed (e ∷ es) now = (now ≢ []) × AlwaysServed es (after e now)

  serving-append :
      (a b : List (Effect Error)) (now : List String)
      → serving (a ++ b) now ≡ serving b (serving a now)
  serving-append [] b now = refl
  serving-append (e ∷ a) b now = serving-append a b (after e now)

  AlwaysServed-append :
      (a b : List (Effect Error)) (now : List String)
      → AlwaysServed a now
      → AlwaysServed b (serving a now)
      → AlwaysServed (a ++ b) now
  AlwaysServed-append [] b now h k = k
  AlwaysServed-append (e ∷ a) b now (some_one, h) k =
      (some_one, AlwaysServed-append a b (after e now) h k)

pub has_some : (x : String) (now : List String) → has x now ≡ true → now ≢ []
unfolding has
has_some x [] h = λ e. cc
has_some x (y ∷ now) h = λ e. cc

pub differ : (a b : String) → a ≢ b → str_eq a b ≡ false
differ a b other = elim (Bool-cases (str_eq a b)) [
  | inl same ↦ absurd (other ((eq_iff a b).0 same))
  | inr h ↦ h
]

-- What is left when a container is stopped and removed.
has-without :
    (j id : String) (now : List String)
    → has j (remove id (remove id now)) ≡ (has j now && not (str_eq id j))
has-without j id now = ground (arith, has-remove j id (remove id now), has-remove j id now)

-- Which containers run in the end, by the result.
module _ {Error : Type 0} (old : String) where
  abbrev pub Ends : RollbackError Error ⊎ Deployment → List String → Type 0
  Ends (inr d) now = (has d.container_id now ≡ true) × (has old now ≡ false)
  Ends (inl (not_persisted why)) now = has old now ≡ false
  Ends (inl _) now = has old now ≡ true

  abbrev pub IsSafe : Done Error → List String → Type 0
  IsSafe done now = AlwaysServed done.0 now × Ends done.1 (serving done.0 now)

  pub before-IsSafe :
      (es : List (Effect Error)) (done : Done Error) (now : List String)
      → AlwaysServed es now
      → IsSafe done (serving es now)
      → IsSafe (before es done) now
  before-IsSafe es (later, result) now h (served, ends) = (
    AlwaysServed-append es later now h served,
    subst (Ends result) (sym (serving-append es later now)) ends,
  )

  persisted-IsSafe :
      (d : Deployment) (why : Option Error) (now : List String)
      → has d.container_id now ≡ true
      → has old now ≡ false
      → IsSafe (persisted d why) now
  unfolding persisted
  persisted-IsSafe d (some why) now new gone =
      let one = has_some d.container_id now new in ((one, one), gone)
  persisted-IsSafe d none now new gone =
      let one = has_some d.container_id now new in ((one, (one, (one, one))), (new, gone))

  finish-IsSafe :
      (store : Store Error) (d : Deployment) (now : List String)
      → has d.container_id now ≡ true
      → has old now ≡ false
      → IsSafe (finish store d) now
  unfolding finish
  finish-IsSafe store d now new gone =
      let running = record d { status = "running" } in
      persisted-IsSafe running (store.update_deployment running) now new gone

  pub swap-IsSafe :
      (store : Store Error) (d : Deployment) (now : List String)
      → is_blank old ≡ false
      → d.container_id ≢ old
      → has d.container_id now ≡ true
      → IsSafe (swap store old d) now
  unfolding swap
  swap-IsSafe store d now set other new =
      let apart : str_eq old d.container_id ≡ false =
        differ old d.container_id (λ e. other (sym e)) in
      let kept : has d.container_id (remove old now) ≡ true =
        ground (arith, has-remove d.container_id old now) in
      let still : has d.container_id (remove old (remove old now)) ≡ true =
        ground (arith, has-without d.container_id old now) in
      let gone : has old (remove old (remove old now)) ≡ false =
        ground (arith, has-without old old now, eq_iff old old) in
      rw set (
        before-IsSafe (stops old ∷ removes old ∷ []) (finish store d) now
          (
            has_some d.container_id now new,
            (has_some d.container_id (remove old now) kept, has_some d.container_id _ still),
          )
          (finish-IsSafe store d (remove old (remove old now)) still gone))

  -- A container that does not run is stopped and removed, and the old one goes on.
  pub discarded :
      (id : String) (now : List String) (rest : List (Effect Error))
      → str_eq id old ≡ false
      → has old now ≡ true
      → ((left : List String)
          → has old left ≡ true
          → AlwaysServed rest left × (serving rest left ≡ left))
      → AlwaysServed (stops id ∷ removes id ∷ rest) now
        × (has old (serving (stops id ∷ removes id ∷ rest) now) ≡ true)
  discarded id now rest other held quiet =
      let once : has old (remove id now) ≡ true = ground (arith, has-remove old id now) in
      let twice : has old (remove id (remove id now)) ≡ true =
        ground (arith, has-without old id now) in
      let (served, same) = quiet (remove id (remove id now)) twice in
      (
        (has_some old now held, (has_some old (remove id now) once, served)),
        ap (has old) same ∙ twice,
      )

  -- The probes of the health check: nothing is lost, and after a good one the new container runs.
  unfoldable pub IsChecked : String → List String → List (Effect Error) × Bool → Type 0
  IsChecked id now (asked, healthy) =
      AlwaysServed asked now
      × (has old (serving asked now) ≡ true)
      × (healthy ≡ true → has id (serving asked now) ≡ true)

  health_round-IsChecked :
      (id : String) (answer : Option Bool) (rest : List (Effect Error) × Bool) (now : List String)
      → has old now ≡ true
      → IsChecked id now rest
      → IsChecked id now (health_round id answer rest)
  unfolding health_round IsChecked has
  health_round-IsChecked id none (asked, healthy) now held (served, kept, seen) =
      ((has_some old now held, served), kept, seen)
  health_round-IsChecked id (some true) (asked, healthy) now held h = (
    (has_some old now held, has_some old (id ∷ now) (ground arith)),
    ground arith,
    λ e. ground (arith, eq_iff id id),
  )
  health_round-IsChecked id (some false) (asked, healthy) now held h =
      ((has_some old now held, has_some old now held), held, λ e. absurd (cc))

  pub health_loop-IsChecked :
      (runtime : Runtime Error) (id : String) (left asked : ℕ) (now : List String)
      → has old now ≡ true
      → IsChecked id now (health_loop runtime id left asked)
  unfolding health_loop IsChecked
  health_loop-IsChecked runtime id zero asked now held =
      (has_some old now held, held, λ e. absurd (cc))
  health_loop-IsChecked runtime id (suc left) asked now held =
      health_round-IsChecked id (runtime.running asked) (health_loop runtime id left (suc asked))
        now held (health_loop-IsChecked runtime id left (suc asked) now held)

  given_up-IsSafe :
      (d : Deployment) (asked : List (Effect Error)) (answer : Option Bool) (now : List String)
      → d.container_id ≢ old
      → serving {Error = Error} (probes d.container_id answer ∷ []) (serving asked now)
        ≡ serving asked now
      → AlwaysServed asked now
      → has old (serving asked now) ≡ true
      → IsSafe (before (asked ++ (probes d.container_id answer ∷ [])) (given_up d)) now
  given_up-IsSafe d asked answer now other still served kept =
      let probe = probes d.container_id answer ∷ [] in
      let mid = serving asked now in
      let one = has_some old mid kept in
      let (rest, held) =
        discarded d.container_id mid
          (updates (record d { status = "failed" }) ∷ sets_status "running" ∷ [])
          (differ d.container_id old other) kept
          (λ left h.
            let some_one = has_some old left h in ((some_one, (some_one, some_one)), refl)) in
      before-IsSafe (asked ++ probe) (given_up d) now
        (AlwaysServed-append asked probe now served (one, subst (λ l. l ≢ []) (sym still) one))
        (subst (IsSafe (given_up d)) (sym (serving-append asked probe now ∙ still)) (rest, held))

  pub last_check-IsSafe :
      (store : Store Error) (d : Deployment) (asked : List (Effect Error)) (answer : Option Bool)
      (now : List String)
      → is_blank old ≡ false
      → d.container_id ≢ old
      → AlwaysServed asked now
      → has old (serving asked now) ≡ true
      → IsSafe (last_check store old d asked answer) now
  unfolding last_check has
  last_check-IsSafe store d asked (some true) now set other served kept =
      let mid = serving asked now in
      let seen = d.container_id ∷ mid in
      let new : has d.container_id seen ≡ true =
        ground (arith, eq_iff d.container_id d.container_id) in
      before-IsSafe (asked ++ (probes d.container_id (some true) ∷ [])) (swap store old d) now
        (AlwaysServed-append asked (probes d.container_id (some true) ∷ []) now served
          (has_some old mid kept, has_some d.container_id seen new))
        (subst (IsSafe (swap store old d))
          (sym (serving-append asked (probes d.container_id (some true) ∷ []) now))
          (swap-IsSafe store d seen set other new))
  last_check-IsSafe store d asked (some false) now set other served kept =
      given_up-IsSafe d asked (some false) now other refl served kept
  last_check-IsSafe store d asked none now set other served kept =
      given_up-IsSafe d asked none now other refl served kept
