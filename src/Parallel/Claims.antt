-- ===== src/Parallel/Claims.antt =====
-- Every index below the cursor is with exactly one worker.
use capa_x.Prelude.{
  ℕ, zero, suc, ◌+◌, ◌≡◌, refl, Bool, true, false, ◌&&◌, Option, none, some, List, [], ◌∷◌, ◌++◌,
  ltb, ◌==◌, length, get_elem?, arith, Option-cases, inl, inr, Bool-cases, All, lt_of_get,
  le_of_get, ap, min,
}
use capa_x.Prelude.Result.{Result, ok, err}
use capa_x.Parallel.{
  Pc, checking, claiming, calling, storing, finished, Worker, worker, Shared, after_call,
  after_claim, turn, turn_at, spawn, Pool, Jobs, start, min,
}

abbrev pub one : Bool → ℕ
one true = 1
one false = 0

module _ {T E : Type 0} where
  abbrev pub pc_has : ℕ → Pc T E → ℕ
  pc_has i (calling j item) = one (j == i)
  pc_has i (storing j e) = one (j == i)
  pc_has i _ = 0

module _ {A : Type 0} where
  abbrev pub error_has : ℕ → Option (ℕ × A) → ℕ
  error_has i none = 0
  error_has i (some (j, e)) = one (j == i)

  abbrev pub count : ℕ → List (ℕ × A) → ℕ
  count i [] = 0
  count i (p ∷ ps) = one (p.0 == i) + count i ps

  pub count-append : (i : ℕ) (ps qs : List (ℕ × A)) → count i (ps ++ qs) ≡ count i ps + count i qs
  count-append i [] qs = omega arith
  count-append i (p ∷ ps) qs = omega (arith, count-append i ps qs)

module _ {T R E : Type 0} where
  -- how often an index is with a worker, and with a list of them
  abbrev pub has : ℕ → Worker T R E → ℕ
  has i (worker pc produced error) = pc_has i pc + (count i produced + error_has i error)

  abbrev pub all_have : ℕ → List (Worker T R E) → ℕ
  all_have i [] = 0
  all_have i (w ∷ ws) = has i w + all_have i ws

  -- a worker has an error only where it stands at its end
  abbrev pub HasNoError : Worker T R E → Type 0
  HasNoError (worker finished produced error) = Unit
  HasNoError (worker pc produced error) = error ≡ none

module _ {T R E : Type 0} (f : T → Result E R) (items : List T) where
  -- 1 for an index below the cursor that names an item
  abbrev pub claimed : ℕ → ℕ → ℕ
  claimed i cursor = one (ltb i cursor && ltb i (length items))

  claimed-none : (i c : ℕ) → get_elem? items c ≡ none → claimed i (suc c) ≡ claimed i c
  claimed-none i c h = let bound = le_of_get items c h in ground arith

  claimed-some :
      (i c : ℕ) (x : T)
      → get_elem? items c ≡ some x
      → claimed i (suc c) ≡ claimed i c + one (c == i)
  claimed-some i c x h = let bound = lt_of_get items c x h in ground arith

  HasNoError-turn :
      (seen : Bool) (s : Shared) (w : Worker T R E)
      → HasNoError w
      → HasNoError (turn f items seen s w).1
  unfolding turn
  HasNoError-turn seen (c, b) (worker checking p e) h = elim (Bool-cases (seen && b)) [
    | inl k ↦ rw k tt
    | inr k ↦ rw k h
  ]
  HasNoError-turn seen (c, b) (worker claiming p e) h = elim (Option-cases (get_elem? items c)) [
    | inl k ↦ rw k tt
    | inr k ↦ rw k.1 h
  ]
  HasNoError-turn seen s (worker (calling i x) p e) h = called (f x)
    where
      called : (r : Result E R) → HasNoError {T = T} (after_call i p e r)
      called (ok v) = h
      called (err x) = h
  HasNoError-turn seen (c, b) (worker (storing i x) p e) h = tt
  HasNoError-turn seen s (worker finished p e) h = tt

  has-after_claim :
      (i c : ℕ) (p : List (ℕ × R)) (e : Option (ℕ × E)) (found : Option T)
      → get_elem? items c ≡ found
      → has i (after_claim c p e found) + claimed i c
        ≡ (count i p + error_has i e) + claimed i (suc c)
  has-after_claim i c p e none k = omega (arith, claimed-none i c k)
  has-after_claim i c p e (some x) k = omega (arith, claimed-some i c x k)

  has-after_call :
      (i j : ℕ) (p : List (ℕ × R)) (e : Option (ℕ × E)) (r : Result E R)
      → has {T = T} i (after_call j p e r) ≡ one (j == i) + (count i p + error_has i e)
  has-after_call i j p e (ok v) = omega (arith, count-append i p ((j, v) ∷ []))
  has-after_call i j p e (err x) = refl

  -- A step moves an index from the unclaimed ones to the worker, and nothing else.
  has-turn :
      (i : ℕ) (seen : Bool) (s : Shared) (w : Worker T R E)
      → HasNoError w
      → has i (turn f items seen s w).1 + claimed i s.0
        ≡ has i w + claimed i (turn f items seen s w).0.0
  unfolding turn
  has-turn i seen (c, b) (worker checking p e) h = elim (Bool-cases (seen && b)) [
    | inl k ↦ rw k refl
    | inr k ↦ rw k refl
  ]
  has-turn i seen (c, b) (worker claiming p e) h =
      omega (arith, has-after_claim i c p e (get_elem? items c) refl)
  has-turn i seen (c, b) (worker (calling j x) p e) h =
      ap (λ n. n + claimed i c) (has-after_call i j p e (f x))
  has-turn i seen (c, b) (worker (storing j x) p e) h = rw h (omega arith)
  has-turn i seen (c, b) (worker finished p e) h = refl

  AllHaveNoError-turn_at :
      (k : ℕ) (seen : Bool) (s : Shared) (ws : List (Worker T R E))
      → All HasNoError ws
      → All HasNoError (turn_at f items k seen s ws).1
  unfolding turn_at
  AllHaveNoError-turn_at k seen s [] h = tt
  AllHaveNoError-turn_at zero seen s (w ∷ ws) h = (HasNoError-turn seen s w h.0, h.1)
  AllHaveNoError-turn_at (suc k) seen s (w ∷ ws) h = (h.0, AllHaveNoError-turn_at k seen s ws h.1)

  all_have-turn_at :
      (i k : ℕ) (seen : Bool) (s : Shared) (ws : List (Worker T R E))
      → All HasNoError ws
      → all_have i (turn_at f items k seen s ws).1 + claimed i s.0
        ≡ all_have i ws + claimed i (turn_at f items k seen s ws).0.0
  unfolding turn_at
  all_have-turn_at i k seen s [] h = refl
  all_have-turn_at i zero seen s (w ∷ ws) h = omega (arith, has-turn i seen s w h.0)
  all_have-turn_at i (suc k) seen s (w ∷ ws) h = omega (arith, all_have-turn_at i k seen s ws h.1)

  -- every index below the cursor is with one worker, and no other index is with any
  pub record IsClaimed (pool : Pool f items) : Type 0 where
    pub errors : All HasNoError pool.1
    pub owned : (i : ℕ) → all_have i pool.1 ≡ claimed i pool.0.0

  pub IsClaimed-turn_at :
      (k : ℕ) (seen : Bool) (pool : Pool f items)
      → IsClaimed pool
      → IsClaimed (turn_at f items k seen pool.0 pool.1)
  IsClaimed-turn_at k seen pool h = record {
    errors = AllHaveNoError-turn_at k seen pool.0 pool.1 h.errors;
    owned = λ i. omega (arith, all_have-turn_at i k seen pool.0 pool.1 h.errors, h.owned i);
  }

  all_have-spawn : (i n : ℕ) → all_have i (spawn {T = T} {R = R} {E = E} n) ≡ 0
  all_have-spawn i zero = refl
  all_have-spawn i (suc n) = omega (arith, all_have-spawn i n)

  spawn-HasNoError : (n : ℕ) → All HasNoError (spawn {T = T} {R = R} {E = E} n)
  spawn-HasNoError zero = tt
  spawn-HasNoError (suc n) = (refl, spawn-HasNoError n)

  pub IsClaimed-start : (jobs : Jobs) → IsClaimed (start f items jobs)
  IsClaimed-start jobs = record {
    errors = spawn-HasNoError (min jobs.count (length items));
    owned = λ i. grind (arith, all_have-spawn i (min jobs.count (length items)));
  }
