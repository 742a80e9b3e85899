-- ===== src/Parallel/Ends.antt =====
-- Every step of a worker that has not ended brings the pool closer to its end.
use capa_x.Parallel.Serial.{try_map-collect}
use capa_x.Prelude.{
  ℕ, zero, suc, ◌+◌, ◌*◌, ◌-◌, ◌<◌, ◌≡◌, refl, Bool, true, false, ◌&&◌, not, Option, none, some,
  List, [], ◌∷◌, ◌++◌, length, get_elem?, arith, Bool-cases, if◌then◌else◌, inl, inr, le_of_get,
  lt_of_get, ap, ◌∙◌, subst, ◌||◌, ltb, sym,
}
use capa_x.Prelude.Result.{Result, ok, err, collect}
use capa_x.Parallel.{
  Pc, Worker, worker, checking, claiming, calling, storing, finished, Shared, run, turn, turn_at,
  Pool, after_call, after_claim, all_finished, is_finished, answer, try_map, Jobs, collect, start,
  is_serial, ltb, outcome,
}

module _ {T E : Type 0} where
  -- steps to the next claim, or to the end
  abbrev rank : Pc T E → ℕ
  rank (calling i x) = 3
  rank checking = 2
  rank claiming = 1
  rank (storing i e) = 1
  rank finished = 0

module _ {T R E : Type 0} where
  abbrev rank_of : Worker T R E → ℕ
  rank_of (worker pc p e) = rank pc

  abbrev ranks : List (Worker T R E) → ℕ
  ranks [] = 0
  ranks (w ∷ ws) = rank_of w + ranks ws

  -- the worker at a position can take a step
  abbrev pub can_step : ℕ → List (Worker T R E) → Bool
  can_step k [] = false
  can_step zero (w ∷ ws) = not (is_finished w)
  can_step (suc k) (w ∷ ws) = can_step k ws

  -- the first worker that has not ended
  abbrev pub first_live : List (Worker T R E) → ℕ
  first_live [] = 0
  first_live (w ∷ ws) = let rest = first_live ws in if is_finished w then suc rest else 0

  can_step-first_live :
      (ws : List (Worker T R E)) → all_finished ws ≡ false → can_step (first_live ws) ws ≡ true
  can_step-first_live [] h = cc
  can_step-first_live (w ∷ ws) h = elim (Bool-cases (is_finished w)) [
    | inl e ↦ rw e (can_step-first_live ws (ground arith))
    | inr e ↦ rw e (rw e refl)
  ]

module _ {T R E : Type 0} (f : T → Result E R) (items : List T) where
  abbrev left : ℕ → ℕ
  left cursor = 4 * (length items - cursor)

  -- how far a pool is from its end
  abbrev pub distance : Shared → List (Worker T R E) → ℕ
  distance s ws = ranks ws + left s.0

  rank-after_claim :
      (c : ℕ) (p : List (ℕ × R)) (e : Option (ℕ × E)) (found : Option T)
      → get_elem? items c ≡ found
      → rank_of (after_claim c p e found) + left (suc c) < 1 + left c
  rank-after_claim c p e none h = omega (arith, le_of_get items c h)
  rank-after_claim c p e (some x) h = omega (arith, lt_of_get items c x h)

  rank-after_call :
      (i : ℕ) (p : List (ℕ × R)) (e : Option (ℕ × E)) (r : Result E R)
      → rank_of {T = T} (after_call i p e r) < 3
  rank-after_call i p e (ok v) = omega arith
  rank-after_call i p e (err x) = omega arith

  rank-turn :
      (seen : Bool) (s : Shared) (w : Worker T R E)
      → is_finished w ≡ false
      → rank_of (turn f items seen s w).1 + left (turn f items seen s w).0.0 < rank_of w + left s.0
  unfolding turn
  rank-turn seen (c, b) (worker checking p e) h = elim (Bool-cases (seen && b)) [
    | inl k ↦ rw k (omega arith)
    | inr k ↦ rw k (omega arith)
  ]
  rank-turn seen (c, b) (worker claiming p e) h = rank-after_claim c p e (get_elem? items c) refl
  rank-turn seen (c, b) (worker (calling i x) p e) h = omega (arith, rank-after_call i p e (f x))
  rank-turn seen (c, b) (worker (storing i x) p e) h = omega arith
  rank-turn seen s (worker finished p e) h = cc

  -- Whatever a load of the flag sees, a step of a worker that has not ended shortens the distance.
  pub distance-turn_at :
      (k : ℕ) (seen : Bool) (s : Shared) (ws : List (Worker T R E))
      → can_step k ws ≡ true
      → distance (turn_at f items k seen s ws).0 (turn_at f items k seen s ws).1 < distance s ws
  unfolding turn_at
  distance-turn_at k seen s [] h = cc
  distance-turn_at zero seen s (w ∷ ws) h = omega (arith, rank-turn seen s w (ground arith))
  distance-turn_at (suc k) seen s (w ∷ ws) h = omega (arith, distance-turn_at k seen s ws h)

  -- the steps of the first worker that has not ended, as many as there is fuel
  unfoldable pub finishing : ℕ → Pool f items → List (ℕ × Bool)
  finishing zero pool = []
  finishing (suc fuel) pool =
      let k = first_live pool.1 in
      let rest = finishing fuel (turn_at f items k true pool.0 pool.1) in
      if all_finished pool.1 then [] else (k, true) ∷ rest

  finishing-ends :
      (fuel : ℕ) (pool : Pool f items)
      → distance pool.0 pool.1 < fuel
      → all_finished (run f items (finishing fuel pool) pool).1 ≡ true
  unfolding finishing run
  finishing-ends zero pool h = absurd (omega arith)
  finishing-ends (suc fuel) pool h = elim (Bool-cases (all_finished pool.1)) [
    | inl e ↦ rw e e
    | inr e ↦
        let k = first_live pool.1 in
        let closer = distance-turn_at k true pool.0 pool.1 (can_step-first_live pool.1 e) in
        rw e (finishing-ends fuel (turn_at f items k true pool.0 pool.1) (omega arith))
  ]

  run-append :
      (a b : List (ℕ × Bool)) (pool : Pool f items)
      → run f items (a ++ b) pool ≡ run f items b (run f items a pool)
  unfolding run
  run-append [] b pool = refl
  run-append ((k, seen) ∷ a) b pool = run-append a b (turn_at f items k seen pool.0 pool.1)

ended_answer :
    {A : Type 0} (serial_mode : Bool) (serial joined : A)
    → (result : A) × (answer serial_mode true serial joined ≡ some result)
ended_answer true serial joined = (serial, refl)
ended_answer false serial joined = (joined, refl)

-- For a positive number of jobs, and however far the workers have come, they can be run on to the
-- result of the serial loop: no schedule leads to a deadlock.
pub try_map-completes :
    {T R E : Type 0} (f : T → Result E R) (items : List T) (jobs : Jobs)
    (schedule : List (ℕ × Bool))
    → 0 < jobs.count
    → (rest : List (ℕ × Bool)) × (try_map f items jobs (schedule ++ rest) ≡ some (collect f items))
unfolding try_map
try_map-completes {T} {R} {E} f items jobs schedule positive = (rest, completed)
  where
    pool : Pool f items
    pool = run f items schedule (start f items jobs)

    rest : List (ℕ × Bool)
    rest = finishing f items (suc (distance f items pool.0 pool.1)) pool

    last : Pool f items
    last = run f items (schedule ++ rest) (start f items jobs)

    ended : all_finished last.1 ≡ true
    ended =
        ap (λ (p : Pool f items). all_finished p.1)
          (run-append f items schedule rest (start f items jobs))
        ∙ finishing-ends f items (suc (distance f items pool.0 pool.1)) pool (omega arith)

    found : (result : Result E (List R)) × (try_map f items jobs (schedule ++ rest) ≡ some result)
    found =
        subst
          (λ b.
            (result : Result E (List R)) × (answer (is_serial jobs || ltb (length items) 2) b
                (collect f items) (outcome last.1)
              ≡ some result))
          (sym ended)
          (ended_answer (is_serial jobs || ltb (length items) 2) (collect f items) (outcome last.1))

    completed : try_map f items jobs (schedule ++ rest) ≡ some (collect f items)
    completed =
        found.1 ∙ ap some (try_map-collect f items jobs (schedule ++ rest) found.0 positive found.1)
