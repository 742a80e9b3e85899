-- ===== src/Parallel/Joined.antt =====
-- What the loop over the joined workers of capa-x/src/parallel.rs gathers.
use capa_x.Prelude.{
  ℕ, ◌+◌, ◌≤◌, ◌<◌, ◌≡◌, refl, Bool, true, ◌&&◌, Option, none, some, List, [], ◌∷◌, ◌++◌, leb,
  arith,
}
use capa_x.Parallel.{
  Worker, worker, checking, claiming, calling, storing, finished, error_of, produced_of, join,
  replace, all_finished,
}
use capa_x.Parallel.Claims.{count, count-append, error_has, all_have}

module _ {E : Type 0} where
  -- the error, if there is one, is not below the index
  abbrev pub not_below : ℕ → Option (ℕ × E) → Bool
  not_below i none = true
  not_below i (some x) = leb i x.0

  pub not_below-replace :
      (i : ℕ) (a b : Option (ℕ × E))
      → not_below i (replace a b) ≡ true
      → (not_below i a && not_below i b) ≡ true
  not_below-replace i none none h = refl
  not_below-replace i none (some x) h = h
  not_below-replace i (some x) none h = ground arith
  not_below-replace i (some x) (some y) h = ground arith

  pub error_has-replace :
      (i : ℕ) (a b : Option (ℕ × E)) → error_has i (replace a b) ≤ error_has i a + error_has i b
  error_has-replace i none none = omega arith
  error_has-replace i none (some x) = omega arith
  error_has-replace i (some x) none = omega arith
  error_has-replace i (some x) (some y) = ground arith

module _ {T R E : Type 0} where
  abbrev pub all_not_below : ℕ → List (Worker T R E) → Bool
  all_not_below i [] = true
  all_not_below i (w ∷ ws) = not_below i (error_of w) && all_not_below i ws

  abbrev pub counts : ℕ → List (Worker T R E) → ℕ
  counts i [] = 0
  counts i (w ∷ ws) = count i (produced_of w) + counts i ws

  abbrev pub errors : ℕ → List (Worker T R E) → ℕ
  errors i [] = 0
  errors i (w ∷ ws) = error_has i (error_of w) + errors i ws

  pub count-join :
      (i : ℕ) (ws : List (Worker T R E)) (p : List (ℕ × R)) (e : Option (ℕ × E))
      → count i (join ws p e).0 ≡ count i p + counts i ws
  unfolding join
  count-join i [] p e = omega arith
  count-join i (w ∷ ws) p e = omega (
    arith,
    count-join i ws (p ++ produced_of w) (replace e (error_of w)),
    count-append i p (produced_of w),
  )

  -- the error that is kept is no later than any
  pub not_below-join :
      (i : ℕ) (ws : List (Worker T R E)) (p : List (ℕ × R)) (e : Option (ℕ × E))
      → not_below i (join ws p e).1 ≡ true
      → (not_below i e && all_not_below i ws) ≡ true
  unfolding join
  not_below-join i [] p e h = ground arith
  not_below-join i (w ∷ ws) p e h =
      let rest = not_below-join i ws (p ++ produced_of w) (replace e (error_of w)) h in
      ground (arith, not_below-replace i e (error_of w))

  pub errors_not_below :
      (i j : ℕ) (ws : List (Worker T R E)) → j < i → all_not_below i ws ≡ true → errors j ws ≡ 0
  errors_not_below i j [] lt h = refl
  errors_not_below i j (worker pc p none ∷ ws) lt h = omega (arith, errors_not_below i j ws lt h)
  errors_not_below i j (worker pc p (some x) ∷ ws) lt h = ground (arith, errors_not_below i j ws lt)

  pub error_has-join :
      (i : ℕ) (ws : List (Worker T R E)) (p : List (ℕ × R)) (e : Option (ℕ × E))
      → error_has i (join ws p e).1 ≤ error_has i e + errors i ws
  unfolding join
  error_has-join i [] p e = omega arith
  error_has-join i (w ∷ ws) p e = omega (
    arith,
    error_has-join i ws (p ++ produced_of w) (replace e (error_of w)),
    error_has-replace i e (error_of w),
  )

  -- the workers' indices, where they have ended
  pub have_finished :
      (i : ℕ) (ws : List (Worker T R E))
      → all_finished ws ≡ true
      → all_have i ws ≡ counts i ws + errors i ws
  have_finished i [] h = refl
  have_finished i (worker finished p e ∷ ws) h = omega (arith, have_finished i ws h)
  have_finished i (worker checking p e ∷ ws) h = cc
  have_finished i (worker claiming p e ∷ ws) h = cc
  have_finished i (worker (calling j x) p e ∷ ws) h = cc
  have_finished i (worker (storing j x) p e ∷ ws) h = cc
