-- ===== src/Parallel/Outcomes.antt =====
-- What the workers hold is what `f` gives, and why they end.
use capa_x.Prelude.{
  if◌then◌else◌, ℕ, zero, suc, ◌≡◌, refl, Bool, true, false, ◌||◌, ◌&&◌, Option, none, some, List,
  [], ◌∷◌, ◌++◌, map, leb, length, get_elem?, arith, All, any, not, le_of_get, Bool-cases, min, inl,
  inr,
}
use capa_x.Prelude.Result.{Result, ok, err}
use capa_x.Parallel.{
  Jobs, Pc, checking, claiming, calling, storing, finished, Worker, worker, Shared, after_call,
  after_claim, turn, turn_at, Pool, spawn, start, min,
}

module _ {T R E : Type 0} where
  abbrev pub has_error : Worker T R E → Bool
  has_error (worker pc produced none) = false
  has_error (worker pc produced (some e)) = true

module _ {T R E : Type 0} (f : T → Result E R) (items : List T) where
  -- what a serial loop finds at an index
  abbrev pub outcome_at : ℕ → Option (Result E R)
  outcome_at i = get_elem? (map f items) i

  abbrev pub IsRightPc : Pc T E → Type 0
  IsRightPc (calling i x) = outcome_at i ≡ some (f x)
  IsRightPc (storing i e) = outcome_at i ≡ some (err e)
  IsRightPc _ = Unit

  abbrev pub AreRight : List (ℕ × R) → Type 0
  AreRight produced = All (λ p. outcome_at p.0 ≡ some (ok p.1)) produced

  abbrev pub IsRightError : Option (ℕ × E) → Type 0
  IsRightError none = Unit
  IsRightError (some (i, e)) = outcome_at i ≡ some (err e)

  abbrev pub IsRight : Worker T R E → Type 0
  IsRight (worker pc produced error) = IsRightPc pc × (AreRight produced × IsRightError error)

  get-map :
      (xs : List T) (i : ℕ) (x : T) → get_elem? xs i ≡ some x → get_elem? (map f xs) i ≡ some (f x)
  get-map [] i x h = cc
  get-map (y ∷ xs) zero x h = cc
  get-map (y ∷ xs) (suc i) x h = get-map xs i x h

  pub AreRight-append : (ps qs : List (ℕ × R)) → AreRight ps → AreRight qs → AreRight (ps ++ qs)
  AreRight-append [] qs h k = k
  AreRight-append (p ∷ ps) qs h k = (h.0, AreRight-append ps qs h.1 k)

  IsRight-after_call :
      (i : ℕ) (p : List (ℕ × R)) (e : Option (ℕ × E)) (r : Result E R)
      → outcome_at i ≡ some r
      → AreRight p
      → IsRightError e
      → IsRight (after_call i p e r)
  IsRight-after_call i p e (ok v) h a b = (tt, (AreRight-append p ((i, v) ∷ []) a (h, tt), b))
  IsRight-after_call i p e (err x) h a b = (h, (a, b))

  IsRight-after_claim :
      (i : ℕ) (p : List (ℕ × R)) (e : Option (ℕ × E)) (found : Option T)
      → get_elem? items i ≡ found
      → AreRight p
      → IsRightError e
      → IsRight (after_claim i p e found)
  IsRight-after_claim i p e none h a b = (tt, (a, b))
  IsRight-after_claim i p e (some x) h a b = (get-map items i x h, (a, b))

  IsRight-turn :
      (seen : Bool) (s : Shared) (w : Worker T R E) → IsRight w → IsRight (turn f items seen s w).1
  unfolding turn
  IsRight-turn seen (c, b) (worker checking p e) h = elim (Bool-cases (seen && b)) [
    | inl k ↦ rw k (tt, h.1)
    | inr k ↦ rw k (tt, h.1)
  ]
  IsRight-turn seen (c, b) (worker claiming p e) h =
      IsRight-after_claim c p e (get_elem? items c) refl h.1.0 h.1.1
  IsRight-turn seen (c, b) (worker (calling i x) p e) h =
      IsRight-after_call i p e (f x) h.0 h.1.0 h.1.1
  IsRight-turn seen (c, b) (worker (storing i x) p e) h = (tt, (h.1.0, h.0))
  IsRight-turn seen (c, b) (worker finished p e) h = h

  -- Why a worker has ended: its error, the end of the items, or the flag.
  abbrev pub has_reason : Shared → Worker T R E → Bool
  has_reason (c, b) (worker finished p none) = leb (length items) c || b
  has_reason s w = true

  -- the shared state only grows
  abbrev pub grows : Shared → Shared → Bool
  grows (c, b) (d, e) = leb c d && (not b || e)

  grows-turn :
      (seen : Bool) (s : Shared) (w : Worker T R E) → grows s (turn f items seen s w).0 ≡ true
  unfolding turn
  grows-turn seen (c, b) (worker checking p e) = ground arith
  grows-turn seen (c, b) (worker claiming p e) = ground arith
  grows-turn seen (c, b) (worker (calling i x) p e) = ground arith
  grows-turn seen (c, b) (worker (storing i x) p e) = ground arith
  grows-turn seen (c, b) (worker finished p e) = ground arith

  has_reason-grows :
      (s t : Shared) (w : Worker T R E)
      → grows s t ≡ true
      → has_reason s w ≡ true
      → has_reason t w ≡ true
  has_reason-grows (c, b) (d, e) (worker finished p none) g h = ground arith
  has_reason-grows (c, b) (d, e) (worker finished p (some x)) g h = refl
  has_reason-grows (c, b) (d, e) (worker checking p x) g h = refl
  has_reason-grows (c, b) (d, e) (worker claiming p x) g h = refl
  has_reason-grows (c, b) (d, e) (worker (calling i y) p x) g h = refl
  has_reason-grows (c, b) (d, e) (worker (storing i y) p x) g h = refl

  reason-after_claim :
      (c : ℕ) (b : Bool) (p : List (ℕ × R)) (e : Option (ℕ × E)) (found : Option T)
      → get_elem? items c ≡ found
      → has_reason (suc c, b) (after_claim c p e found) ≡ true
  reason-after_claim c b p none none h = let bound = le_of_get items c h in ground arith
  reason-after_claim c b p (some x) none h = refl
  reason-after_claim c b p e (some x) h = refl

  reason-after_call :
      (i : ℕ) (s : Shared) (p : List (ℕ × R)) (e : Option (ℕ × E)) (r : Result E R)
      → has_reason s (after_call i p e r) ≡ true
  reason-after_call i (c, b) p e (ok v) = refl
  reason-after_call i (c, b) p e (err x) = refl

  stopped :
      (s : Shared) (stop : Bool) (p : List (ℕ × R)) (e : Option (ℕ × E))
      → (stop ≡ true → s.1 ≡ true)
      → has_reason s (worker (if stop then finished else claiming) p e) ≡ true
  stopped (c, b) true p none h = ground (arith, h refl)
  stopped (c, b) true p (some x) h = refl
  stopped (c, b) false p e h = refl

  reason-turn :
      (seen : Bool) (s : Shared) (w : Worker T R E)
      → has_reason s w ≡ true
      → has_reason (turn f items seen s w).0 (turn f items seen s w).1 ≡ true
  unfolding turn
  reason-turn seen (c, b) (worker checking p e) h =
      stopped (c, b) (seen && b) p e (λ k. ground arith)
  reason-turn seen (c, b) (worker claiming p e) h =
      reason-after_claim c b p e (get_elem? items c) refl
  reason-turn seen (c, b) (worker (calling i x) p e) h = reason-after_call i (c, b) p e (f x)
  reason-turn seen (c, b) (worker (storing i x) p e) h = refl
  reason-turn seen (c, b) (worker finished p e) h = h

  error-after_claim :
      (c : ℕ) (p : List (ℕ × R)) (x : ℕ × E) (found : Option T)
      → has_error (after_claim c p (some x) found) ≡ true
  error-after_claim c p x none = refl
  error-after_claim c p x (some y) = refl

  error-after_call :
      (i : ℕ) (p : List (ℕ × R)) (x : ℕ × E) (r : Result E R)
      → has_error {T = T} (after_call i p (some x) r) ≡ true
  error-after_call i p x (ok v) = refl
  error-after_call i p x (err y) = refl

  has_error-turn :
      (seen : Bool) (s : Shared) (w : Worker T R E)
      → has_error w ≡ true
      → has_error (turn f items seen s w).1 ≡ true
  unfolding turn
  has_error-turn seen s (worker pc p none) h = cc
  has_error-turn seen (c, b) (worker checking p (some x)) h = refl
  has_error-turn seen (c, b) (worker claiming p (some x)) h =
      error-after_claim c p x (get_elem? items c)
  has_error-turn seen (c, b) (worker (calling i y) p (some x)) h = error-after_call i p x (f y)
  has_error-turn seen (c, b) (worker (storing i y) p (some x)) h = refl
  has_error-turn seen (c, b) (worker finished p (some x)) h = refl

  -- only a store of an error sets the flag
  flag-turn :
      (seen : Bool) (s : Shared) (w : Worker T R E)
      → (turn f items seen s w).0.1 ≡ true
      → (s.1 || has_error (turn f items seen s w).1) ≡ true
  unfolding turn
  flag-turn seen (c, b) (worker checking p e) h = ground arith
  flag-turn seen (c, b) (worker claiming p e) h = ground arith
  flag-turn seen (c, b) (worker (calling i x) p e) h = ground arith
  flag-turn seen (c, b) (worker (storing i x) p e) h = ground arith
  flag-turn seen (c, b) (worker finished p e) h = ground arith

  of_or : (a b : Bool) → a ≡ false → (a || b) ≡ true → b ≡ true
  of_or a b h k = ground arith

  -- what a pool keeps: right outcomes, reasons for ending, and an error behind the flag
  pub record IsSound (pool : Pool f items) : Type 0 where
    pub right : All IsRight pool.1
    pub reasons : All (λ w. has_reason pool.0 w ≡ true) pool.1
    pub flagged : pool.0.1 ≡ true → any has_error pool.1 ≡ true

  grows-turn_at :
      (k : ℕ) (seen : Bool) (s : Shared) (ws : List (Worker T R E))
      → grows s (turn_at f items k seen s ws).0 ≡ true
  unfolding turn_at
  grows-turn_at k seen s [] = ground arith
  grows-turn_at zero seen s (w ∷ ws) = grows-turn seen s w
  grows-turn_at (suc k) seen s (w ∷ ws) = grows-turn_at k seen s ws

  IsRight-turn_at :
      (k : ℕ) (seen : Bool) (s : Shared) (ws : List (Worker T R E))
      → All IsRight ws
      → All IsRight (turn_at f items k seen s ws).1
  unfolding turn_at
  IsRight-turn_at k seen s [] h = tt
  IsRight-turn_at zero seen s (w ∷ ws) h = (IsRight-turn seen s w h.0, h.1)
  IsRight-turn_at (suc k) seen s (w ∷ ws) h = (h.0, IsRight-turn_at k seen s ws h.1)

  all_reasons-grow :
      (s t : Shared) (ws : List (Worker T R E))
      → grows s t ≡ true
      → All (λ w. has_reason s w ≡ true) ws
      → All (λ w. has_reason t w ≡ true) ws
  all_reasons-grow s t [] g h = tt
  all_reasons-grow s t (w ∷ ws) g h = (has_reason-grows s t w g h.0, all_reasons-grow s t ws g h.1)

  reasons-turn_at :
      (k : ℕ) (seen : Bool) (s : Shared) (ws : List (Worker T R E))
      → All (λ w. has_reason s w ≡ true) ws
      → All
          (λ w. has_reason (turn_at f items k seen s ws).0 w ≡ true)
          (turn_at f items k seen s ws).1
  unfolding turn_at
  reasons-turn_at k seen s [] h = tt
  reasons-turn_at zero seen s (w ∷ ws) h = (
    reason-turn seen s w h.0,
    all_reasons-grow s (turn f items seen s w).0 ws (grows-turn seen s w) h.1,
  )
  reasons-turn_at (suc k) seen s (w ∷ ws) h = (
    has_reason-grows s (turn_at f items k seen s ws).0 w (grows-turn_at k seen s ws) h.0,
    reasons-turn_at k seen s ws h.1,
  )

  any_error-turn_at :
      (k : ℕ) (seen : Bool) (s : Shared) (ws : List (Worker T R E))
      → any has_error ws ≡ true
      → any has_error (turn_at f items k seen s ws).1 ≡ true
  unfolding turn_at
  any_error-turn_at k seen s [] h = cc
  any_error-turn_at zero seen s (w ∷ ws) h = ground (arith, has_error-turn seen s w)
  any_error-turn_at (suc k) seen s (w ∷ ws) h = ground (arith, any_error-turn_at k seen s ws)

  flag-turn_at :
      (k : ℕ) (seen : Bool) (s : Shared) (ws : List (Worker T R E))
      → (turn_at f items k seen s ws).0.1 ≡ true
      → (s.1 || any has_error (turn_at f items k seen s ws).1) ≡ true
  unfolding turn_at
  flag-turn_at k seen s [] h = ground arith
  flag-turn_at zero seen s (w ∷ ws) h = ground (arith, flag-turn seen s w)
  flag-turn_at (suc k) seen s (w ∷ ws) h = ground (arith, flag-turn_at k seen s ws)

  pub IsSound-turn_at :
      (k : ℕ) (seen : Bool) (pool : Pool f items)
      → IsSound pool
      → IsSound (turn_at f items k seen pool.0 pool.1)
  IsSound-turn_at k seen pool h = record {
    right = IsRight-turn_at k seen pool.0 pool.1 h.right;
    reasons = reasons-turn_at k seen pool.0 pool.1 h.reasons;
    flagged = λ e. elim (Bool-cases pool.0.1) [
      | inl was ↦ any_error-turn_at k seen pool.0 pool.1 (h.flagged was)
      | inr not_yet ↦ of_or _ _ not_yet (flag-turn_at k seen pool.0 pool.1 e)
    ];
  }

  spawn-IsRight : (n : ℕ) → All IsRight (spawn n)
  spawn-IsRight zero = tt
  spawn-IsRight (suc n) = ((tt, (tt, tt)), spawn-IsRight n)

  spawn-reasons : (n : ℕ) (s : Shared) → All (λ w. has_reason s w ≡ true) (spawn n)
  spawn-reasons zero s = tt
  spawn-reasons (suc n) (c, b) = (refl, spawn-reasons n (c, b))

  pub IsSound-start : (jobs : Jobs) → IsSound (start f items jobs)
  IsSound-start jobs = record {
    right = spawn-IsRight (min jobs.count (length items));
    reasons = spawn-reasons (min jobs.count (length items)) (0, false);
    flagged = λ e. cc;
  }
