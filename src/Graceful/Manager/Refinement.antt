-- ===== src/Graceful/Manager/Refinement.antt =====
-- The manager is a family of independent breakers, one for each backend.
use text.Mathlib.Text.{◌==◌}
use text.Mathlib.TextEquality.{eq_iff}
use deploy_monster.Prelude.{
  ℕ, ◌≡◌, refl, sym, ap, ◌∙◌, inl, inr, List, [], ◌∷◌, Option, none, some, String, arith,
  Bool-cases, if◌then◌else◌,
}
use deploy_monster.Prelude.Dict.{lookup, insert, lookup-insert, get_or}
use deploy_monster.Graceful.Circuit.{
  CircuitBreaker, CircuitConfig, new_circuit_breaker, Call, allows, succeeds, fails, resets,
}
use deploy_monster.Graceful.Circuit
use deploy_monster.Graceful.Manager.{
  CircuitBreakerManager, new_manager, find_or_new, success_of, reset_of, step, run,
}

-- A breaker without the time of its last change of state, which no decision reads.
abbrev pub forget : CircuitBreaker → CircuitBreaker
forget cb = record cb { last_state_change = 0 }

-- The breaker of a backend: a backend with none yet has a new one.
abbrev view_in : CircuitConfig → Option CircuitBreaker → CircuitBreaker
view_in config found = forget (get_or found (new_circuit_breaker config 0))

abbrev pub view : CircuitBreakerManager → String → CircuitBreaker
view m backend = view_in m.config (lookup backend m.breakers)

forget-step :
    (cb : CircuitBreaker) (c : Call)
    → forget (Circuit.step cb c) ≡ forget (Circuit.step (forget cb) c)
unfolding Circuit.step
forget-step cb (allows now later) = ground arith
forget-step cb (succeeds now) = ground arith
forget-step cb (fails now later) = ground arith
forget-step cb (resets now) = ground arith

forget-new :
    (config : CircuitConfig) (s t : ℕ)
    → forget (new_circuit_breaker config s) ≡ forget (new_circuit_breaker config t)
unfolding new_circuit_breaker
forget-new config s t = refl

abbrev pub moved : CircuitBreakerManager → String → Call → String → CircuitBreaker
moved m backend c j = if backend == j then forget (Circuit.step (view m backend) c) else view m j

view-put :
    (m : CircuitBreakerManager) (backend j : String) (cb : CircuitBreaker)
    → view_in m.config (lookup j (insert backend cb m.breakers))
      ≡ (if backend == j then forget cb else view m j)
view-put m backend j cb = rw (lookup-insert backend j cb m.breakers) (ground arith)

forget-found :
    (m : CircuitBreakerManager) (backend : String) (made : ℕ)
    → forget (find_or_new m backend made) ≡ view m backend
unfolding find_or_new new_circuit_breaker
forget-found m backend made = ground arith

stepped :
    (m : CircuitBreakerManager) (backend : String) (made : ℕ) (c : Call)
    → forget (Circuit.step (find_or_new m backend made) c)
      ≡ forget (Circuit.step (view m backend) c)
stepped m backend made c =
    forget-step (find_or_new m backend made) c
    ∙ ap (λ x. forget (Circuit.step x c)) (forget-found m backend made)

-- A success or a reset changes nothing of a breaker that is new.
new_succeeds :
    (config : CircuitConfig) (now : ℕ)
    → forget (Circuit.step (forget (new_circuit_breaker config 0)) (succeeds now))
      ≡ forget (new_circuit_breaker config 0)
unfolding Circuit.step new_circuit_breaker
new_succeeds config now = refl

new_resets :
    (config : CircuitConfig) (now : ℕ)
    → forget (Circuit.step (forget (new_circuit_breaker config 0)) (resets now))
      ≡ forget (new_circuit_breaker config 0)
unfolding Circuit.step new_circuit_breaker
new_resets config now = refl

-- A call that changes nothing, for a backend with no breaker yet.
view_absent :
    (m : CircuitBreakerManager) (backend : String) (c : Call) (j : String)
    → lookup backend m.breakers ≡ none
    → forget (Circuit.step (forget (new_circuit_breaker m.config 0)) c)
      ≡ forget (new_circuit_breaker m.config 0)
    → view m j ≡ moved m backend c j
view_absent m backend c j e same = elim (Bool-cases (backend == j)) [
  | inl t ↦
      let k : backend ≡ j = (eq_iff backend j).0 t in
      let ej : lookup j m.breakers ≡ none = ap (λ x. lookup x m.breakers) (sym k) ∙ e in
      rw (t, e, ej) (sym same)
  | inr f ↦ rw f refl
]

view_present :
    (m : CircuitBreakerManager) (backend : String) (cb : CircuitBreaker) (c : Call) (j : String)
    → lookup backend m.breakers ≡ some cb
    → view_in m.config (lookup j (insert backend (Circuit.step cb c) m.breakers))
      ≡ moved m backend c j
view_present m backend cb c j e =
    view-put m backend j (Circuit.step cb c)
    ∙ ap (λ x. if backend == j then x else view m j)
        (forget-step cb c ∙ ap (λ o. forget (Circuit.step (view_in m.config o) c)) (sym e))

succeeds_view :
    (m : CircuitBreakerManager) (backend : String) (now : ℕ) (j : String)
    (found : Option CircuitBreaker)
    → lookup backend m.breakers ≡ found
    → view (success_of m backend now found) j ≡ moved m backend (succeeds now) j
unfolding success_of Circuit.step
succeeds_view m backend now j none e =
    view_absent m backend (succeeds now) j e (new_succeeds m.config now)
succeeds_view m backend now j (some cb) e = view_present m backend cb (succeeds now) j e

resets_view :
    (m : CircuitBreakerManager) (backend : String) (now : ℕ) (j : String)
    (found : Option CircuitBreaker)
    → lookup backend m.breakers ≡ found
    → view (reset_of m backend now found) j ≡ moved m backend (resets now) j
unfolding reset_of Circuit.step
resets_view m backend now j none e =
    view_absent m backend (resets now) j e (new_resets m.config now)
resets_view m backend now j (some cb) e = view_present m backend cb (resets now) j e

made_view :
    (m : CircuitBreakerManager) (made : ℕ) (backend : String) (c : Call) (j : String)
    → view_in m.config
        (lookup j (insert backend (Circuit.step (find_or_new m backend made) c) m.breakers))
      ≡ moved m backend c j
made_view m made backend c j =
    view-put m backend j (Circuit.step (find_or_new m backend made) c)
    ∙ ap (λ x. if backend == j then x else view m j) (stepped m backend made c)

-- A call for one backend acts on its breaker as the breaker's own method does, and on no other.
pub view-step :
    (m : CircuitBreakerManager) (made : ℕ) (backend : String) (c : Call) (j : String)
    → view (step m (made, backend, c)) j ≡ moved m backend c j
unfolding step Circuit.step
view-step m made backend (allows now later) j = made_view m made backend (allows now later) j
view-step m made backend (fails now later) j = made_view m made backend (fails now later) j
view-step m made backend (succeeds now) j = succeeds_view m backend now j _ refl
view-step m made backend (resets now) j = resets_view m backend now j _ refl

-- The calls for one backend, in their order.
abbrev pub calls_for : String → List (ℕ × String × Call) → List Call
calls_for j [] = []
calls_for j ((made, backend, c) ∷ cs) = if backend == j then c ∷ calls_for j cs else calls_for j cs

forget-run :
    (cb : CircuitBreaker) (cs : List Call)
    → forget (Circuit.run cb cs) ≡ forget (Circuit.run (forget cb) cs)
unfolding Circuit.run
forget-run cb [] = refl
forget-run cb (c ∷ cs) =
    forget-run (Circuit.step cb c) cs
    ∙ ap (λ x. forget (Circuit.run x cs)) (forget-step cb c)
    ∙ sym (forget-run (Circuit.step (forget cb) c) cs)

run-cons :
    (cb : CircuitBreaker) (c : Call) (cs : List Call)
    → forget (Circuit.run (forget (Circuit.step cb c)) cs) ≡ forget (Circuit.run cb (c ∷ cs))
unfolding Circuit.run
run-cons cb c cs = sym (forget-run (Circuit.step cb c) cs)

run_refines :
    (m : CircuitBreakerManager) (cs : List (ℕ × String × Call)) (j : String)
    → view (run m cs) j ≡ forget (Circuit.run (view m j) (calls_for j cs))
unfolding run Circuit.run
run_refines m [] j = refl
run_refines m ((made, backend, c) ∷ cs) j =
    run_refines (step m (made, backend, c)) cs j
    ∙ ap (λ x. forget (Circuit.run x (calls_for j cs))) (view-step m made backend c j)
    ∙ rest
  where
    rest :
        forget (Circuit.run (moved m backend c j) (calls_for j cs))
        ≡ forget (Circuit.run (view m j) (calls_for j ((made, backend, c) ∷ cs)))
    rest = elim (Bool-cases (backend == j)) [
      | inl t ↦
          let k : backend ≡ j = (eq_iff backend j).0 t in
          rw t (
            run-cons (view m backend) c (calls_for j cs)
            ∙ ap (λ x. forget (Circuit.run (view m x) (c ∷ calls_for j cs))) k)
      | inr f ↦ rw f refl
    ]

-- After any calls for any backends, the breaker of each backend is what its own calls alone, in
-- their order, make of a new breaker, up to the time of the last change of state.
pub run-new_refines :
    (config : CircuitConfig) (cs : List (ℕ × String × Call)) (j : String)
    → view (run (new_manager config) cs) j
      ≡ forget (Circuit.run (new_circuit_breaker config 0) (calls_for j cs))
unfolding new_manager lookup
run-new_refines config cs j =
    run_refines (new_manager config) cs j
    ∙ sym (forget-run (new_circuit_breaker config 0) (calls_for j cs))
