-- ===== src/Api/Idempotency.antt =====
-- internal/api/middleware/idempotency.go: requests with an idempotency key. The scoped key of a request,
-- with its hashes, is its `key` here; requests that the middleware passes on are left out. A run is
-- any interleaving of the moves of the requests; the handler behind the middleware ends with any
-- status, or panics; an entry can expire at any time, and any read or write of the store can fail.
pub mod Counts
pub mod Once
mod Tests
use deploy_monster.Prelude.{
  ℕ, Bool, true, false, ◌&&◌, List, [], ◌∷◌, ◌++◌, Option, none, some, String, if◌then◌else◌, leb,
  ltb, ◌==◌, get_elem?, set,
}
use deploy_monster.Prelude.Dict.{lookup, insert, delete}
use deploy_monster.Prelude.Names.{has, remove}

-- Where a request stands: before the mutex; answered 409; before the look into the store; in the
-- handler; behind it with a status from 200 to 299; before the deferred function; at its end.
pub data Phase : Type 0 where
  arrived refused looking executing : Phase
  answered : (status : ℕ) → Phase
  leaving gone : Phase

abbrev pub phase_index : Phase → ℕ
phase_index arrived = 0
phase_index refused = 1
phase_index looking = 2
phase_index executing = 3
phase_index (answered status) = 4
phase_index leaving = 5
phase_index gone = 6

pub record Request : Type 0 where
  pub key : String
  pub phase : Phase

-- `inFlight` as the list of its keys, the entries of the store and the requests; and, as a record of
-- the run, the keys for which an entry was written, and those for which an entry has expired or a
-- read has failed, each as often as that was so.
pub record Middleware : Type 0 where
  pub in_flight : List String
  pub entries : List (String × ℕ)
  pub requests : List Request
  pub written : List String
  pub lapsed : List String

unfoldable pub new_middleware : Middleware
new_middleware = record { in_flight = []; entries = []; requests = []; written = []; lapsed = [] }

abbrev pub at : ℕ → Request → Bool
at n r = phase_index r.phase == n

abbrev pub goto : Middleware → ℕ → Request → Phase → List Request
goto m i r p = set m.requests i (record r { phase = p })

abbrev pub is_2xx : ℕ → Bool
is_2xx status = leb 200 status && ltb status 300

-- The moves of the request `r`, number `i`; none if it is not its next one.
module _ (m : Middleware) (i : ℕ) (r : Request) where
  -- The part under the mutex.
  unfoldable pub admit : Option Middleware
  unfolding has
  admit =
      let marked = record m { in_flight = r.key ∷ m.in_flight; requests = goto m i r looking } in
      if at 0 r
      then some
          (if has r.key m.in_flight then record m { requests = goto m i r refused } else marked)
      else none

  looked : Option ℕ → Middleware
  looked none = record m { requests = goto m i r executing }
  looked (some status) = record m { requests = goto m i r leaving }

  -- `kv.Get`: the answer is replayed, or the handler is called.
  unfoldable pub look : Option Middleware
  unfolding looked lookup
  look = if at 2 r then some (looked (lookup r.key m.entries)) else none

  -- `kv.Get` with another error than ErrKVNotFound: the handler is called all the same.
  unfoldable pub look_fails : Option Middleware
  look_fails =
      if at 2 r
      then some (record m { requests = goto m i r executing; lapsed = r.key ∷ m.lapsed })
      else none

  unfoldable pub respond : ℕ → Option Middleware
  respond status =
      if at 3 r
      then some
          (record m { requests = goto m i r (if is_2xx status then answered status else leaving) })
      else none

  -- A panic in the handler: the deferred function is next.
  unfoldable pub panics : Option Middleware
  panics = if at 3 r then some (record m { requests = goto m i r leaving }) else none

  write_entry : Phase → Option Middleware
  unfolding insert
  write_entry (answered status) = some (record m {
    entries = insert r.key status m.entries;
    requests = goto m i r leaving;
    written = r.key ∷ m.written;
  })
  write_entry _ = none

  -- `kv.Set`, and the same with an error, which is logged.
  unfoldable pub write : Option Middleware
  unfolding write_entry
  write = write_entry r.phase

  unfoldable pub write_fails : Option Middleware
  write_fails = if at 4 r then some (record m { requests = goto m i r leaving }) else none

  -- The deferred function.
  unfoldable pub leave : Option Middleware
  unfolding remove
  leave =
      if at 5 r
      then some (record m { in_flight = remove r.key m.in_flight; requests = goto m i r gone })
      else none

pub data Move : Type 0 where
  admits looks misreads panic writes loses leaves : Move
  responds : ℕ → Move

pub data Action : Type 0 where
  arrives : String → Action
  moves : Move → ℕ → Action
  expires : String → Action

move_of : Middleware → Move → ℕ → Option Request → Option Middleware
unfolding admit look look_fails respond panics write write_fails leave
move_of m mv i none = none
move_of m admits i (some r) = admit m i r
move_of m looks i (some r) = look m i r
move_of m misreads i (some r) = look_fails m i r
move_of m panic i (some r) = panics m i r
move_of m writes i (some r) = write m i r
move_of m loses i (some r) = write_fails m i r
move_of m leaves i (some r) = leave m i r
move_of m (responds status) i (some r) = respond m i r status

-- The time to live of an entry is over: from now on `kv.Get` does not find it.
expire : Middleware → String → Option ℕ → Option Middleware
unfolding delete
expire m key none = none
expire m key (some status) =
    some (record m { entries = delete key m.entries; lapsed = key ∷ m.lapsed })

unfoldable pub step : Middleware → Action → Option Middleware
unfolding move_of expire lookup
step m (arrives key) =
    some (record m { requests = m.requests ++ (record { key = key; phase = arrived } ∷ []) })
step m (moves mv i) = move_of m mv i (get_elem? m.requests i)
step m (expires key) = expire m key (lookup key m.entries)

run_from : (Middleware → Option Middleware) → Option Middleware → Option Middleware
run_from next none = none
run_from next (some m) = next m

unfoldable pub run : Middleware → List Action → Option Middleware
unfolding step run_from
run m [] = some m
run m (a ∷ rest) = run_from (λ m'. run m' rest) (step m a)
