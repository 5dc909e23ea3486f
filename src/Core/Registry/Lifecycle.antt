-- ===== src/Core/Registry/Lifecycle.antt =====
-- The order of the calls of InitAll, StartAll and StopAll.
use mathlib.Core.List.{reverse}
use deploy_monster.Prelude.{
  ◌≡◌, refl, ap, ◌∙◌, inl, inr, Bool, List, [], ◌∷◌, Option, none, some, String, arith,
  if◌then◌else◌, Bool-cases,
}
use deploy_monster.Prelude.Find.{find}
use deploy_monster.Core.Registry.{
  Registry, ok, resolve, run_in_order, init_all, start_all, stop_from, stop_all, first_of_two,
}
use deploy_monster.Core.Registry.Order.{DepsFirst, resolve_sound}

-- What a run in order calls stands in the order's beginning, and nothing is called after a failure.
run_in_order_lem :
    (fails : String → Bool) (modules : List (String × List String)) (seen ids : List String)
    → DepsFirst modules seen ids
    → DepsFirst modules seen (run_in_order fails ids).0
unfolding run_in_order
run_in_order_lem fails modules seen [] d = tt
run_in_order_lem fails modules seen (id ∷ ids) (new, m, d) = elim (Bool-cases (fails id)) [
  | inl t ↦ rw t (new, m, tt)
  | inr f ↦ rw f (new, m, run_in_order_lem fails modules (id ∷ seen) ids d)
]

run_in_order_failed :
    (fails : String → Bool) (ids : List String) → (run_in_order fails ids).1 ≡ find fails ids
unfolding run_in_order find
run_in_order_failed fails [] = refl
run_in_order_failed fails (id ∷ ids) = ground (arith, run_in_order_failed fails ids)

run_in_order_all :
    (fails : String → Bool) (ids : List String)
    → (run_in_order fails ids).1 ≡ none
    → (run_in_order fails ids).0 ≡ ids
unfolding run_in_order
run_in_order_all fails [] e = refl
run_in_order_all fails (id ∷ ids) e = elim (Bool-cases (fails id)) [
  | inl t ↦ absurd (ground arith)
  | inr f ↦ rw f (ap (λ x. id ∷ x) (run_in_order_all fails ids (ground arith)))
]

-- After a successful `Resolve`, `InitAll` (and so `StartAll`) calls each module after all its
-- dependencies and at most once; it fails with the first module of the order whose call fails, and
-- if none does it calls the whole order.
pub init_all_in_order :
    (r r' : Registry) (keys : List String) (fails : String → Bool)
    → resolve r keys ≡ ok r'
    → DepsFirst r.modules [] (init_all fails r').0
      × ((init_all fails r').1 ≡ find fails r'.order)
      × ((init_all fails r').1 ≡ none → (init_all fails r').0 ≡ r'.order)
      × (start_all fails r' ≡ init_all fails r')
unfolding init_all start_all
init_all_in_order r r' keys fails e = (
  run_in_order_lem fails r.modules [] r'.order (resolve_sound r r' keys e).2,
  run_in_order_failed fails r'.order,
  run_in_order_all fails r'.order,
  refl,
)

stop_from_calls :
    (fails : String → Bool) (first : Option String) (ids : List String)
    → (stop_from fails first ids).0 ≡ ids
unfolding stop_from
stop_from_calls fails first [] = refl
stop_from_calls fails first (id ∷ ids) = ap (λ x. id ∷ x) (stop_from_calls fails _ ids)

stop_from_error :
    (fails : String → Bool) (first : Option String) (ids : List String)
    → (stop_from fails first ids).1 ≡ first_of_two first (find fails ids)
unfolding stop_from find
stop_from_error fails none [] = refl
stop_from_error fails (some x) [] = refl
stop_from_error fails none (id ∷ ids) =
    stop_from_error fails (if fails id then some id else none) ids ∙ ground arith
stop_from_error fails (some x) (id ∷ ids) = stop_from_error fails (some x) ids

-- `StopAll` calls every module of the order, the last one first, also behind a failure, and gives
-- the first error that it met.
pub stop_all_in_reverse :
    (r : Registry) (fails : String → Bool)
    → ((stop_all fails r).0 ≡ reverse r.order)
      × ((stop_all fails r).1 ≡ find fails (reverse r.order))
unfolding stop_all
stop_all_in_reverse r fails =
    (stop_from_calls fails none (reverse r.order), stop_from_error fails none (reverse r.order))
