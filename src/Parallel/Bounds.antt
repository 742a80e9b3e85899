-- ===== src/Parallel/Bounds.antt =====
-- The cursor passes the end of the items at most once for each worker, so that `fetch_add` does not
-- wrap where the two numbers fit a `usize` together.
use capa_x.Parallel.Serial.{length-turn_at, length-spawn}
use capa_x.Prelude.{
  ℕ, zero, suc, ◌+◌, ◌≤◌, ◌≡◌, refl, Bool, ◌&&◌, Option, none, some, List, [], ◌∷◌, length,
  get_elem?, arith, Bool-cases, inl, inr, lt_of_get, min,
}
use capa_x.Prelude.Result.{Result, ok, err}
use capa_x.Parallel.{
  Jobs, Worker, worker, checking, claiming, calling, storing, finished, Shared, run, start, turn,
  turn_at, Pool, after_call, after_claim, is_finished,
}
use capa_x.Parallel.Claims.{one}

module _ {T R E : Type 0} where
  abbrev ended : List (Worker T R E) → ℕ
  ended [] = 0
  ended (w ∷ ws) = one (is_finished w) + ended ws

  ended_le : (ws : List (Worker T R E)) → ended ws ≤ length ws
  ended_le [] = omega arith
  ended_le (w ∷ ws) = ground (arith, ended_le ws)

module _ {T R E : Type 0} (f : T → Result E R) (items : List T) where
  -- the cursor, against the workers that have ended
  abbrev Within : ℕ → ℕ → Type 0
  Within cursor ends = cursor ≤ length items + ends

  Within-after_claim :
      (c : ℕ) (p : List (ℕ × R)) (e : Option (ℕ × E)) (found : Option T) (others : ℕ)
      → get_elem? items c ≡ found
      → Within c others
      → Within (suc c) (one (is_finished (after_claim c p e found)) + others)
  Within-after_claim c p e none others k h = omega arith
  Within-after_claim c p e (some x) others k h = omega (arith, lt_of_get items c x k)

  Within-after_call :
      (c i : ℕ) (p : List (ℕ × R)) (e : Option (ℕ × E)) (r : Result E R) (others : ℕ)
      → Within c others
      → Within c (one (is_finished {T = T} (after_call i p e r)) + others)
  Within-after_call c i p e (ok v) others h = omega arith
  Within-after_call c i p e (err x) others h = omega arith

  Within-turn :
      (seen : Bool) (s : Shared) (w : Worker T R E) (others : ℕ)
      → Within s.0 (one (is_finished w) + others)
      → Within (turn f items seen s w).0.0 (one (is_finished (turn f items seen s w).1) + others)
  unfolding turn
  Within-turn seen (c, b) (worker checking p e) others h = elim (Bool-cases (seen && b)) [
    | inl k ↦ rw k (omega arith)
    | inr k ↦ rw k (omega arith)
  ]
  Within-turn seen (c, b) (worker claiming p e) others h =
      Within-after_claim c p e (get_elem? items c) others refl (omega arith)
  Within-turn seen (c, b) (worker (calling i x) p e) others h =
      Within-after_call c i p e (f x) others (omega arith)
  Within-turn seen (c, b) (worker (storing i x) p e) others h = omega arith
  Within-turn seen (c, b) (worker finished p e) others h = h

  Within-turn_at :
      (k : ℕ) (seen : Bool) (s : Shared) (ws : List (Worker T R E)) (others : ℕ)
      → Within s.0 (ended ws + others)
      → Within (turn_at f items k seen s ws).0.0 (ended (turn_at f items k seen s ws).1 + others)
  unfolding turn_at
  Within-turn_at k seen s [] others h = h
  Within-turn_at zero seen s (w ∷ ws) others h =
      omega (arith, Within-turn seen s w (ended ws + others) (omega arith))
  Within-turn_at (suc k) seen s (w ∷ ws) others h =
      omega (arith, Within-turn_at k seen s ws (one (is_finished w) + others) (omega arith))

  Within-run :
      (schedule : List (ℕ × Bool)) (pool : Pool f items)
      → Within pool.0.0 (ended pool.1)
      → Within (run f items schedule pool).0.0 (length pool.1)
  unfolding run
  Within-run [] pool h = omega (arith, ended_le pool.1)
  Within-run ((k, seen) ∷ schedule) pool h = omega (
    arith,
    length-turn_at f items k seen pool.0 pool.1,
    Within-run schedule (turn_at f items k seen pool.0 pool.1)
        (omega (arith, Within-turn_at k seen pool.0 pool.1 0 (omega arith))),
  )

  -- In every state that a schedule leads to, the cursor is at most the number of items and the number
  -- of workers together.
  pub cursor_bounded :
      (schedule : List (ℕ × Bool)) (jobs : Jobs)
      → (run f items schedule (start f items jobs)).0.0
        ≤ length items + min jobs.count (length items)
  cursor_bounded schedule jobs = omega (
    arith,
    Within-run schedule (start f items jobs) (omega arith),
    length-spawn f items (min jobs.count (length items)),
  )
