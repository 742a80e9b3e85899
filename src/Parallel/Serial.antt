-- ===== src/Parallel/Serial.antt =====
-- A run that ends gives what a serial loop gives.
use capa_x.Parallel.Joined.{
  all_not_below, count-join, have_finished, errors, errors_not_below, error_has-join, not_below,
  not_below-join,
}
use capa_x.Prelude.{
  ℕ, zero, suc, ◌≤◌, ◌<◌, ◌≡◌, refl, sym, ap, ◌∙◌, Bool, true, false, ◌||◌, Option, none, some,
  List, [], ◌∷◌, ◌++◌, ltb, ◌==◌, length, arith, All, any, Bool-cases, inl, inr, subst, min,
}
use capa_x.Prelude.Result.{Result, ok, err, collect}
use capa_x.Prelude.Sort.{sort}
use capa_x.Parallel.{
  Jobs, Worker, worker, checking, claiming, calling, storing, finished, Shared, run, start, spawn,
  turn_at, Pool, join, replace, conclude, by_key, outcome, all_finished, try_map, is_serial, answer,
}
use capa_x.Parallel.Claims.{
  count, error_has, claimed, IsClaimed, IsClaimed-start, IsClaimed-turn_at,
}
use capa_x.Parallel.Outcomes.{
  outcome_at, AreRight, AreRight-append, IsRight, IsRightError, has_reason, has_error, IsSound,
  IsSound-start, IsSound-turn_at,
}
use capa_x.Parallel.Collected.{
  within, collect_ordered, collect_error, sort-IsOrdered, count-sort, All-sort,
}

module _ {T R E : Type 0} (f : T → Result E R) (items : List T) where
  -- a value at an index that is produced
  right_value :
      (j : ℕ) (ps : List (ℕ × R))
      → 0 < count j ps
      → AreRight f items ps
      → (v : R) × (outcome_at f items j ≡ some (ok v))
  right_value j [] h r = absurd (omega arith)
  right_value j ((i, v) ∷ ps) h r = elim (Bool-cases (i == j)) [
    | inl e ↦ let same : i ≡ j = ground arith in (v, ap (outcome_at f items) (sym same) ∙ r.0)
    | inr e ↦ right_value j ps (ground arith) r.1
  ]

  AreRight-join :
      (ws : List (Worker T R E)) (p : List (ℕ × R)) (e : Option (ℕ × E))
      → All (IsRight f items) ws
      → AreRight f items p
      → AreRight f items (join ws p e).0
  unfolding join
  AreRight-join [] p e h r = r
  AreRight-join (worker pc q x ∷ ws) p e h r =
      AreRight-join ws (p ++ q) (replace e x) h.1 (AreRight-append f items p q r h.0.1.0)

  IsRightError-replace :
      (a b : Option (ℕ × E))
      → IsRightError f items a
      → IsRightError f items b
      → IsRightError f items (replace a b)
  IsRightError-replace a none h k = h
  IsRightError-replace none (some x) h k = k
  IsRightError-replace (some x) (some y) h k = elim (Bool-cases (ltb y.0 x.0)) [
    | inl e ↦ rw e k
    | inr e ↦ rw e h
  ]

  IsRightError-join :
      (ws : List (Worker T R E)) (p : List (ℕ × R)) (e : Option (ℕ × E))
      → All (IsRight f items) ws
      → IsRightError f items e
      → IsRightError f items (join ws p e).1
  unfolding join
  IsRightError-join [] p e h r = r
  IsRightError-join (worker pc q x ∷ ws) p e h r =
      IsRightError-join ws (p ++ q) (replace e x) h.1 (IsRightError-replace e x r h.0.1.1)

  -- where the join finds no error, no worker has one
  no_error-join :
      (ws : List (Worker T R E)) (p : List (ℕ × R)) (e : Option (ℕ × E))
      → (join ws p e).1 ≡ none
      → (e ≡ none) × (any has_error ws ≡ false)
  unfolding join
  no_error-join [] p e h = (h, refl)
  no_error-join (worker pc q none ∷ ws) p e h = no_error-join ws (p ++ q) e h
  no_error-join (worker pc q (some x) ∷ ws) p e h =
      absurd (kept e x (no_error-join ws (p ++ q) (replace e (some x)) h).0)
    where
      kept : (e : Option (ℕ × E)) (x : ℕ × E) → replace e (some x) ≡ none → ⊥
      kept none x k = cc
      kept (some y) x k = ground arith

  errors-no_error : (i : ℕ) (ws : List (Worker T R E)) → any has_error ws ≡ false → errors i ws ≡ 0
  errors-no_error i [] h = refl
  errors-no_error i (worker pc p none ∷ ws) h = omega (arith, errors-no_error i ws h)
  errors-no_error i (worker pc p (some x) ∷ ws) h = cc

  -- with no error and no flag, a worker that has ended saw the end of the items
  items_done :
      (s : Shared) (ws : List (Worker T R E))
      → 0 < length ws
      → all_finished ws ≡ true
      → any has_error ws ≡ false
      → s.1 ≡ false
      → All (λ w. has_reason f items s w ≡ true) ws
      → length items ≤ s.0
  items_done s [] lt h k b r = absurd (omega arith)
  items_done (c, b) (worker finished p none ∷ ws) lt h k e r = ground (arith, r.0)
  items_done (c, b) (worker finished p (some x) ∷ ws) lt h k e r = cc
  items_done s (worker checking p x ∷ ws) lt h k b r = cc
  items_done s (worker claiming p x ∷ ws) lt h k b r = cc
  items_done s (worker (calling j y) p x ∷ ws) lt h k b r = cc
  items_done s (worker (storing j y) p x ∷ ws) lt h k b r = cc

  -- A pool that has ended.
  module _ (s : Shared) (ws : List (Worker T R E)) (claims : IsClaimed f items (s, ws))
      (sound : IsSound f items (s, ws)) (some_worker : 0 < length ws)
      (ended : all_finished ws ≡ true) where
    abbrev values : List (ℕ × R)
    values = (join ws [] none).0

    values_right : AreRight f items values
    values_right = AreRight-join ws [] none sound.right tt

    without_error :
        (join ws [] none).1 ≡ none → conclude {R = R} {E = E} (values, none) ≡ collect f items
    without_error h =
        let clean : any has_error ws ≡ false = (no_error-join ws [] none h).1 in
        let unset : s.1 ≡ false = ground (arith, sound.flagged) in
        let done : length items ≤ s.0 =
          items_done s ws some_worker ended clean unset sound.reasons in
        sym (
          collect_ordered f items items 0 (length items) (sort by_key values) (omega arith)
            (λ j. ap (outcome_at f items) (omega arith)) (sort-IsOrdered values)
            (λ i. count-sort i values ∙ every_index i clean done)
            (All-sort (λ p. outcome_at f items p.0 ≡ some (ok p.1)) values values_right))
      where
        every_index :
            (i : ℕ)
            → any has_error ws ≡ false
            → length items ≤ s.0
            → count i values ≡ within i 0 (length items)
        every_index i clean done = ground (
          arith,
          count-join i ws [] none,
          have_finished i ws ended,
          errors-no_error i ws clean,
          claims.owned i,
        )

    with_error :
        (i : ℕ) (e : E)
        → (join ws [] none).1 ≡ some (i, e)
        → conclude (values, some (i, e)) ≡ collect f items
    with_error i e h =
        let wrong : outcome_at f items i ≡ some (err e) =
          subst (IsRightError f items) h (IsRightError-join ws [] none sound.right tt) in
        let known : 1 ≤ error_has i (join ws [] none).1 = rw h (ground arith) in
        let held : 1 ≤ claimed f items i s.0 =
          omega (arith, error_has-join i ws [] none, have_finished i ws ended, claims.owned i) in
        let first : not_below i (join ws [] none).1 ≡ true = rw h (ground arith) in
        let lowest : all_not_below i ws ≡ true =
          ground (arith, not_below-join i ws [] none first) in
        sym (
          collect_error f items items 0 i e (λ j. ap (outcome_at f items) (omega arith))
            (λ j lt. right_value j values (earlier j lt held lowest) values_right) i (omega arith)
            wrong)
      where
        earlier :
            (j : ℕ)
            → j < i
            → 1 ≤ claimed f items i s.0
            → all_not_below i ws ≡ true
            → 0 < count j values
        earlier j lt held lowest = ground (
          arith,
          count-join j ws [] none,
          have_finished j ws ended,
          errors_not_below i j ws lt lowest,
          claims.owned j,
        )

    join_cases :
        (found : Option (ℕ × E))
        → (join ws [] none).1 ≡ found
        → conclude (values, found) ≡ collect f items
    join_cases none h = without_error h
    join_cases (some (i, e)) h = with_error i e h

    outcome-collect : outcome ws ≡ collect f items
    unfolding outcome
    outcome-collect = join_cases (join ws [] none).1 refl

  -- The invariants along a run.
  pub length-turn_at :
      (k : ℕ) (seen : Bool) (s : Shared) (ws : List (Worker T R E))
      → length (turn_at f items k seen s ws).1 ≡ length ws
  unfolding turn_at
  length-turn_at k seen s [] = refl
  length-turn_at zero seen s (w ∷ ws) = refl
  length-turn_at (suc k) seen s (w ∷ ws) = omega (arith, length-turn_at k seen s ws)

  pub length-spawn : (n : ℕ) → length (spawn {T = T} {R = R} {E = E} n) ≡ n
  length-spawn zero = refl
  length-spawn (suc n) = omega (arith, length-spawn n)

  pub record IsRun (count : ℕ) (pool : Pool f items) : Type 0 where
    pub claims : IsClaimed f items pool
    pub sound : IsSound f items pool
    pub workers : length pool.1 ≡ count

  pub IsRun-start : (jobs : Jobs) → IsRun (min jobs.count (length items)) (start f items jobs)
  IsRun-start jobs = record {
    claims = IsClaimed-start f items jobs;
    sound = IsSound-start f items jobs;
    workers = length-spawn (min jobs.count (length items));
  }

  pub IsRun-run :
      (count : ℕ) (schedule : List (ℕ × Bool)) (pool : Pool f items)
      → IsRun count pool
      → IsRun count (run f items schedule pool)
  unfolding run
  IsRun-run count [] pool h = h
  IsRun-run count ((k, seen) ∷ schedule) pool h =
      IsRun-run count schedule (turn_at f items k seen pool.0 pool.1) (record {
        claims = IsClaimed-turn_at f items k seen pool h.claims;
        sound = IsSound-turn_at f items k seen pool h.sound;
        workers = length-turn_at k seen pool.0 pool.1 ∙ h.workers;
      })

  ended_run :
      (jobs : Jobs) (schedule : List (ℕ × Bool))
      → 0 < jobs.count
      → 1 < length items
      → all_finished (run f items schedule (start f items jobs)).1 ≡ true
      → outcome (run f items schedule (start f items jobs)).1 ≡ collect f items
  ended_run jobs schedule positive many ended =
      let pool = run f items schedule (start f items jobs) in
      let h =
        IsRun-run (min jobs.count (length items)) schedule (start f items jobs)
          (IsRun-start jobs) in
      outcome-collect pool.0 pool.1 h.claims h.sound (omega (arith, h.workers)) ended

answered :
    {A : Type 0} (serial_mode ended : Bool) (serial joined result : A)
    → (serial_mode ≡ false → ended ≡ true → joined ≡ serial)
    → answer serial_mode ended serial joined ≡ some result
    → result ≡ serial
answered true ended serial joined result agree h = cc
answered false true serial joined result agree h =
    let same : joined ≡ serial = agree refl refl in cc
answered false false serial joined result agree h = cc

many_items : (a : Bool) (n : ℕ) → (a || ltb n 2) ≡ false → 1 < n
many_items a n h = ground arith

-- For a positive number of jobs, and for every order in which the workers take their steps and every
-- staleness of their loads of the stop flag, a result is the one of the serial loop: the values in
-- input order, or the error with the lowest index.
pub try_map-collect :
    {T R E : Type 0} (f : T → Result E R) (items : List T) (jobs : Jobs)
    (schedule : List (ℕ × Bool)) (result : Result E (List R))
    → 0 < jobs.count
    → try_map f items jobs schedule ≡ some result
    → result ≡ collect f items
unfolding try_map
try_map-collect f items jobs schedule result positive h =
    let pool = run f items schedule (start f items jobs) in
    answered (is_serial jobs || ltb (length items) 2) (all_finished pool.1) (collect f items)
      (outcome pool.1) result
      (λ a ended.
        ended_run f items jobs schedule positive (many_items (is_serial jobs) (length items) a)
          ended)
      h
