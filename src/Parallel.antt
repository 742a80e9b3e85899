-- ===== src/Parallel.antt =====
-- capa-x/src/parallel.rs: a map over work items on scoped threads. A schedule says which worker
-- takes its next atomic step, and whether a relaxed load of the stop flag sees a store of it.
pub mod Claims
pub mod Outcomes
pub mod Collected
pub mod Joined
pub mod Serial
pub mod Ends
pub mod Bounds
use capa_x.Prelude.{
  ℕ, zero, suc, min, Bool, true, false, ◌&&◌, ◌||◌, Option, none, some, List, [], ◌∷◌, ◌++◌, map,
  ltb, leb, ◌==◌, if◌then◌else◌, length, get_elem?,
}
use capa_x.Prelude.Result.{Result, ok, err, collect}
use capa_x.Prelude.Sort.{sort}

-- a positive number of threads
pub record Jobs : Type 0 where
  pub count : ℕ

pub data ZeroJobs : Type 0 where
  zero_jobs : ZeroJobs

abbrev pub serial_jobs : Jobs
serial_jobs = record { count = 1 }

unfoldable pub new_jobs : ℕ → Result ZeroJobs Jobs
new_jobs count = if count == 0 then err zero_jobs else ok (record { count = count })

abbrev pub is_serial : Jobs → Bool
is_serial jobs = jobs.count == 1

-- where a worker stands in its loop
pub data Pc (T E : Type 0) : Type 0 where
  checking claiming : Pc T E
  calling : ℕ → T → Pc T E
  storing : ℕ → E → Pc T E
  finished : Pc T E

-- where it stands, what it has produced, and its error
pub data Worker (T R E : Type 0) : Type 0 where
  worker : Pc T E → List (ℕ × R) → Option (ℕ × E) → Worker T R E

-- the two atomics: the cursor and the stop flag
abbrev pub Shared : Type 0
Shared = ℕ × Bool

module _ {E : Type 0} where
  -- the error with the lower index, the earlier one of two
  abbrev pub replace : Option (ℕ × E) → Option (ℕ × E) → Option (ℕ × E)
  replace first none = first
  replace none (some later) = some later
  replace (some earlier) (some later) = if ltb later.0 earlier.0 then some later else some earlier

module _ {R : Type 0} where
  abbrev pub by_key : ℕ × R → ℕ × R → Bool
  by_key a b = leb a.0 b.0

module _ {R E : Type 0} where
  abbrev pub conclude : List (ℕ × R) × Option (ℕ × E) → Result E (List R)
  conclude (produced, none) = ok (map (λ p. p.1) (sort by_key produced))
  conclude (produced, some (i, e)) = err e

module _ {T R E : Type 0} where
  abbrev pub produced_of : Worker T R E → List (ℕ × R)
  produced_of (worker pc produced error) = produced

  abbrev pub error_of : Worker T R E → Option (ℕ × E)
  error_of (worker pc produced error) = error

  abbrev pub is_finished : Worker T R E → Bool
  is_finished (worker finished produced error) = true
  is_finished _ = false

  abbrev pub all_finished : List (Worker T R E) → Bool
  all_finished [] = true
  all_finished (w ∷ ws) = is_finished w && all_finished ws

  abbrev pub fresh : Worker T R E
  fresh = worker checking [] none

  abbrev pub spawn : ℕ → List (Worker T R E)
  spawn zero = []
  spawn (suc n) = fresh ∷ spawn n

  -- what a call of `f` makes of the worker
  abbrev pub after_call : ℕ → List (ℕ × R) → Option (ℕ × E) → Result E R → Worker T R E
  after_call i produced error (ok value) = worker checking (produced ++ (i, value) ∷ []) error
  after_call i produced error (err e) = worker (storing i e) produced error

  abbrev pub after_claim : ℕ → List (ℕ × R) → Option (ℕ × E) → Option T → Worker T R E
  after_claim i produced error none = worker finished produced error
  after_claim i produced error (some item) = worker (calling i item) produced error

  -- the loop over the joined workers
  unfoldable pub join :
      List (Worker T R E) → List (ℕ × R) → Option (ℕ × E) → List (ℕ × R) × Option (ℕ × E)
  join [] produced first_error = (produced, first_error)
  join (w ∷ ws) produced first_error =
      join ws (produced ++ produced_of w) (replace first_error (error_of w))

  unfoldable pub outcome : List (Worker T R E) → Result E (List R)
  unfolding join
  outcome ws = conclude (join ws [] none)

-- the serial loop's result at once, or the workers' when they have ended
abbrev pub answer {ℓ} : {A : Type ℓ} → Bool → Bool → A → A → Option A
answer true ended serial joined = some serial
answer false true serial joined = some joined
answer false false serial joined = none

module _ {T R E : Type 0} (f : T → Result E R) (items : List T) where
  -- One atomic step of a worker; `seen` is whether a load of the flag sees its store.
  unfoldable pub turn : Bool → Shared → Worker T R E → Shared × Worker T R E
  turn seen (cursor, failed) (worker checking produced error) =
      ((cursor, failed), worker (if seen && failed then finished else claiming) produced error)
  turn seen (cursor, failed) (worker claiming produced error) =
      ((suc cursor, failed), after_claim cursor produced error (get_elem? items cursor))
  turn seen shared (worker (calling i item) produced error) =
      (shared, after_call i produced error (f item))
  turn seen (cursor, failed) (worker (storing i e) produced error) =
      ((cursor, true), worker finished produced (some (i, e)))
  turn seen shared (worker finished produced error) = (shared, worker finished produced error)

  -- the worker at a position takes a step
  unfoldable pub turn_at : ℕ → Bool → Shared → List (Worker T R E) → Shared × List (Worker T R E)
  unfolding turn
  turn_at k seen shared [] = (shared, [])
  turn_at zero seen shared (w ∷ ws) = let r = turn seen shared w in (r.0, r.1 ∷ ws)
  turn_at (suc k) seen shared (w ∷ ws) = let r = turn_at k seen shared ws in (r.0, w ∷ r.1)

  abbrev pub Pool : Type 0
  Pool = Shared × List (Worker T R E)

  unfoldable pub run : List (ℕ × Bool) → Pool → Pool
  unfolding turn_at
  run [] pool = pool
  run ((k, seen) ∷ schedule) pool = run schedule (turn_at k seen pool.0 pool.1)

  abbrev pub start : Jobs → Pool
  start jobs = ((0, false), spawn (min jobs.count (length items)))

  -- `try_map` under a schedule; `none` when the schedule ends before the workers do
  unfoldable pub try_map : Jobs → List (ℕ × Bool) → Option (Result E (List R))
  unfolding run outcome
  try_map jobs schedule =
      let pool = run schedule (start jobs) in
      answer (is_serial jobs || ltb (length items) 2) (all_finished pool.1) (collect f items)
        (outcome pool.1)
