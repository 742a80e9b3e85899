-- ===== src/Parallel/Collected.antt =====
-- Outcomes with their indices, in order, against a serial loop over the items.
use capa_x.Prelude.{
  ℕ, zero, suc, ◌+◌, ◌≤◌, ◌<◌, ◌≡◌, refl, sym, ap, ◌∙◌, ◌&&◌, none, some, List, [], ◌∷◌, map, leb,
  ltb, ◌==◌, length, get_elem?, arith, All, Bool-cases, inl, inr, subst,
}
use capa_x.Prelude.Result.{Result, ok, err, collect}
use capa_x.Prelude.Sort.{sort, insert_sorted}
use capa_x.Parallel.{by_key}
use capa_x.Parallel.Claims.{one, count}
use capa_x.Parallel.Outcomes.{outcome_at, AreRight}

module _ {A : Type 0} where
  -- every index of the list is at least the bound
  abbrev pub Above : ℕ → List (ℕ × A) → Type 0
  Above k ps = All (λ p. k ≤ p.0) ps

  abbrev pub IsOrdered : List (ℕ × A) → Type 0
  IsOrdered [] = Unit
  IsOrdered (p ∷ ps) = Above p.0 ps × IsOrdered ps

  Above-mono : (j k : ℕ) (ps : List (ℕ × A)) → j ≤ k → Above k ps → Above j ps
  Above-mono j k [] h a = tt
  Above-mono j k (p ∷ ps) h a = (omega (arith, a.0), Above-mono j k ps h a.1)

  Above-insert_sorted :
      (k : ℕ) (p : ℕ × A) (ps : List (ℕ × A))
      → k ≤ p.0
      → Above k ps
      → Above k (insert_sorted by_key p ps)
  unfolding insert_sorted
  Above-insert_sorted k p [] h a = (h, tt)
  Above-insert_sorted k p (q ∷ ps) h a = ground (arith, Above-insert_sorted k p ps h a.1)

  insert_sorted-IsOrdered :
      (p : ℕ × A) (ps : List (ℕ × A)) → IsOrdered ps → IsOrdered (insert_sorted by_key p ps)
  unfolding insert_sorted
  insert_sorted-IsOrdered p [] h = (tt, tt)
  insert_sorted-IsOrdered p (q ∷ ps) h =
      ground (
        arith,
        Above-mono p.0 q.0 ps,
        Above-insert_sorted q.0 p ps,
        insert_sorted-IsOrdered p ps h.1,
      )

  pub sort-IsOrdered : (ps : List (ℕ × A)) → IsOrdered (sort by_key ps)
  unfolding sort
  sort-IsOrdered [] = tt
  sort-IsOrdered (p ∷ ps) = insert_sorted-IsOrdered p (sort by_key ps) (sort-IsOrdered ps)

  count-insert_sorted :
      (i : ℕ) (p : ℕ × A) (ps : List (ℕ × A))
      → count i (insert_sorted by_key p ps) ≡ one (p.0 == i) + count i ps
  unfolding insert_sorted
  count-insert_sorted i p [] = refl
  count-insert_sorted i p (q ∷ ps) = elim (Bool-cases (by_key p q)) [
    | inl e ↦ rw e refl
    | inr e ↦ rw e (omega (arith, count-insert_sorted i p ps))
  ]

  pub count-sort : (i : ℕ) (ps : List (ℕ × A)) → count i (sort by_key ps) ≡ count i ps
  unfolding sort
  count-sort i [] = refl
  count-sort i (p ∷ ps) = omega (arith, count-insert_sorted i p (sort by_key ps), count-sort i ps)

  All-insert_sorted :
      (P : ℕ × A → Type 0) (p : ℕ × A) (ps : List (ℕ × A))
      → P p
      → All P ps
      → All P (insert_sorted by_key p ps)
  unfolding insert_sorted
  All-insert_sorted P p [] h a = (h, tt)
  All-insert_sorted P p (q ∷ ps) h a = elim (Bool-cases (by_key p q)) [
    | inl e ↦ rw e (h, a)
    | inr e ↦ rw e (a.0, All-insert_sorted P p ps h a.1)
  ]

  pub All-sort : (P : ℕ × A → Type 0) (ps : List (ℕ × A)) → All P ps → All P (sort by_key ps)
  unfolding sort
  All-sort P [] a = tt
  All-sort P (p ∷ ps) a = All-insert_sorted P p (sort by_key ps) a.0 (All-sort P ps a.1)

  -- an index below all those of the list is not in it
  count_below : (i k : ℕ) (ps : List (ℕ × A)) → i < k → Above k ps → count i ps ≡ 0
  count_below i k [] h a = refl
  count_below i k (p ∷ ps) h a = ground (arith, count_below i k ps)

-- 1 for the indices of a range
abbrev pub within : ℕ → ℕ → ℕ → ℕ
within i k n = one (leb k i && ltb i n)

module _ {T R E : Type 0} (f : T → Result E R) (items : List T) where
  head_within :
      (k n : ℕ) (p : ℕ × R) (ps : List (ℕ × R))
      → ((i : ℕ) → count i (p ∷ ps) ≡ within i k n)
      → (k ≤ p.0) × (p.0 < n)
  head_within k n p ps c = ground (arith, c p.0)

  head_first :
      (k n : ℕ) (p : ℕ × R) (ps : List (ℕ × R))
      → k < n
      → IsOrdered (p ∷ ps)
      → ((i : ℕ) → count i (p ∷ ps) ≡ within i k n)
      → p.0 ≡ k
  head_first k n p ps lt o c =
      let range : (k ≤ p.0) × (p.0 < n) = head_within k n p ps c in
      ground (arith, c k, count_below k p.0 ps)

  next_within : (k n i c : ℕ) → k < n → one (k == i) + c ≡ within i k n → c ≡ within i (suc k) n
  next_within k n i c lt h = ground arith

  collect_step :
      (x : T) (xs : List T) (v : R) (vs : List R)
      → f x ≡ ok v
      → collect f xs ≡ ok vs
      → collect f (x ∷ xs) ≡ ok (v ∷ vs)
  collect_step x xs v vs h k = rw h (rw k refl)

  some_inj : (a b : Result E R) → some a ≡ some b → a ≡ b
  some_inj a b h = cc

  -- a list of outcomes in the order of their indices, each index once, is what the serial loop gives
  pub collect_ordered :
      (xs : List T) (k n : ℕ) (ps : List (ℕ × R))
      → k + length xs ≡ n
      → ((j : ℕ) → outcome_at f items (k + j) ≡ get_elem? (map f xs) j)
      → IsOrdered ps
      → ((i : ℕ) → count i ps ≡ within i k n)
      → AreRight f items ps
      → collect f xs ≡ ok (map (λ p. p.1) ps)
  collect_ordered [] k n [] len suffix o c r = refl
  collect_ordered [] k n (p ∷ ps) len suffix o c r =
      let range : (k ≤ p.0) × (p.0 < n) = head_within k n p ps c in absurd (omega arith)
  collect_ordered (x ∷ xs) k n [] len suffix o c r = absurd (ground (arith, c k))
  collect_ordered (x ∷ xs) k n ((i, v) ∷ ps) len suffix o c r =
      let first : i ≡ k = head_first k n (i, v) ps (omega arith) o c in
      let at : outcome_at f items k ≡ some (f x) =
        ap (outcome_at f items) (omega arith) ∙ suffix 0 in
      let value : f x ≡ ok v =
        some_inj (f x) (ok v) (sym at ∙ ap (outcome_at f items) (sym first) ∙ r.0) in
      collect_step x xs v (map (λ p. p.1) ps) value (
        collect_ordered xs (suc k) n ps (omega arith)
          (λ j. ap (outcome_at f items) (omega arith) ∙ suffix (suc j)) o.1
          (λ j.
            next_within k n j (count j ps) (omega arith)
              (subst (λ m. one (m == j) + count j ps ≡ within j k n) first (c j)))
          r.1)

  none-some : (a : Result E R) → none ≡ some a → ⊥
  none-some a h = cc

  -- the first error of a serial loop, where every outcome before it is a value
  pub collect_error :
      (xs : List T) (k i : ℕ) (e : E)
      → ((j : ℕ) → outcome_at f items (k + j) ≡ get_elem? (map f xs) j)
      → ((j : ℕ) → j < i → (v : R) × (outcome_at f items j ≡ some (ok v)))
      → (d : ℕ) → k + d ≡ i
      → outcome_at f items i ≡ some (err e)
      → collect f xs ≡ err e
  collect_error [] k i e suffix before d at h =
      absurd (none-some (err e) (sym (suffix d) ∙ ap (outcome_at f items) at ∙ h))
  collect_error (x ∷ xs) k i e suffix before zero at h =
      let value : f x ≡ err e =
        some_inj (f x) (err e) (sym (suffix 0) ∙ ap (outcome_at f items) at ∙ h) in
      rw value refl
  collect_error (x ∷ xs) k i e suffix before (suc d) at h =
      let found : (v : R) × (outcome_at f items k ≡ some (ok v)) = before k (omega arith) in
      let here : outcome_at f items k ≡ some (f x) =
        ap (outcome_at f items) (omega arith) ∙ suffix 0 in
      let value : f x ≡ ok found.0 = some_inj (f x) (ok found.0) (sym here ∙ found.1) in
      rw value (
        rw
          (collect_error xs (suc k) i e
            (λ j. ap (outcome_at f items) (omega arith) ∙ suffix (suc j)) before d (omega arith) h)
          refl)
