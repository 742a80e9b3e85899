-- ===== src/SortedSet.antt =====
-- `BTreeSet`: a list in strictly increasing order. The operations are those that the sources call:
-- `insert`, `extend`, `contains`, `len`, and iteration, which is the list itself.
use capa_x.Prelude.{
  ◌≡◌, refl, Bool, true, false, ◌||◌, List, [], ◌∷◌, arith, Ordering, All, ◌++◌, ◌∙◌, sym, ap,
  append-nil, append_assoc, if◌then◌else◌, ◌&&◌, not,
}
use capa_x.Ordered.{Ord, swap}

abbrev pub is_eq : Ordering → Bool
is_eq Ordering.eq = true
is_eq _ = false

module _ {ℓ} {A : Type ℓ} ⦃o : Ord A⦄ where
  -- where the value stands relative to the head decides
  pub insert : A → List A → List A
  insert a [] = a ∷ []
  insert a (x ∷ xs) =
      let rest = insert a xs in
      elim (o.cmp a x) [ Ordering.lt ↦ a ∷ x ∷ xs | Ordering.eq ↦ x ∷ xs | Ordering.gt ↦ x ∷ rest ]

  -- inserts every value of the second list into the first
  abbrev pub extend : List A → List A → List A
  extend s [] = s
  extend s (x ∷ xs) = extend (insert x s) xs

  abbrev pub of_list : List A → List A
  of_list xs = extend [] xs

  abbrev pub contains : A → List A → Bool
  contains a [] = false
  contains a (x ∷ xs) = is_eq (o.cmp a x) || contains a xs

  -- `BTreeSet::remove`
  unfoldable pub remove : A → List A → List A
  remove a [] = []
  remove a (x ∷ xs) = let rest = remove a xs in if is_eq (o.cmp a x) then rest else x ∷ rest

  -- every element is above `a`
  abbrev pub Above : A → List A → Type 0
  Above a xs = All (λ x. o.cmp a x ≡ Ordering.lt) xs

  abbrev pub IsSorted : List A → Type 0
  IsSorted [] = Unit
  IsSorted (x ∷ xs) = Above x xs × IsSorted xs

  pub Above-insert :
      (b a : A) (xs : List A) → o.cmp b a ≡ Ordering.lt → Above b xs → Above b (insert a xs)
  unfolding insert
  Above-insert b a [] h k = (h, tt)
  Above-insert b a (x ∷ xs) h k = ground (arith, Above-insert b a xs h k.1)

  pub Above-trans : (a b : A) (xs : List A) → o.cmp a b ≡ Ordering.lt → Above b xs → Above a xs
  Above-trans a b [] h k = tt
  Above-trans a b (x ∷ xs) h k = (o.lt_trans a b x h k.0, Above-trans a b xs h k.1)

  pub insert-IsSorted : (a : A) (xs : List A) → IsSorted xs → IsSorted (insert a xs)
  unfolding insert
  insert-IsSorted a [] h = (tt, tt)
  insert-IsSorted a (x ∷ xs) h =
      ground
        (arith, o.cmp_swap a x, Above-trans a x xs, Above-insert x a xs, insert-IsSorted a xs h.1)

  pub extend-IsSorted : (s xs : List A) → IsSorted s → IsSorted (extend s xs)
  extend-IsSorted s [] h = h
  extend-IsSorted s (x ∷ xs) h = extend-IsSorted (insert x s) xs (insert-IsSorted x s h)

  pub contains-insert :
      (b a : A) (xs : List A) → contains b (insert a xs) ≡ (is_eq (o.cmp b a) || contains b xs)
  unfolding insert
  contains-insert b a [] = refl
  contains-insert b a (x ∷ xs) = ground (arith, contains-insert b a xs, o.eq_of_cmp a x)

  pub contains-extend :
      (b : A) (s xs : List A) → contains b (extend s xs) ≡ (contains b s || contains b xs)
  contains-extend b s [] = ground arith
  contains-extend b s (x ∷ xs) =
      ground (arith, contains-extend b (insert x s) xs, contains-insert b x s)

  -- every element of the list is below `a`
  abbrev pub Under : A → List A → Type 0
  Under a xs = All (λ x. o.cmp a x ≡ Ordering.gt) xs

  insert_last : (a : A) (xs : List A) → Under a xs → insert a xs ≡ xs ++ a ∷ []
  unfolding insert
  insert_last a [] h = refl
  insert_last a (x ∷ xs) h = rw (h.0, insert) (ap (λ t. x ∷ t) (insert_last a xs h.1))

  Under-snoc :
      (b a : A) (xs : List A) → o.cmp b a ≡ Ordering.gt → Under b xs → Under b (xs ++ a ∷ [])
  Under-snoc b a [] h k = (h, tt)
  Under-snoc b a (x ∷ xs) h k = (k.0, Under-snoc b a xs h k.1)

  -- every element of the first list is below every element of the second
  abbrev AllUnder : List A → List A → Type 0
  AllUnder s xs = All (λ x. Under x s) xs

  AllUnder-snoc :
      (s : List A) (a : A) (xs : List A) → Above a xs → AllUnder s xs → AllUnder (s ++ a ∷ []) xs
  AllUnder-snoc s a [] h k = tt
  AllUnder-snoc s a (x ∷ xs) h k =
      (Under-snoc x a s (o.cmp_swap a x ∙ ap swap h.0) k.0, AllUnder-snoc s a xs h.1 k.1)

  extend_sorted : (s xs : List A) → IsSorted xs → AllUnder s xs → extend s xs ≡ s ++ xs
  extend_sorted s [] h k = sym (append-nil s)
  extend_sorted s (x ∷ xs) h k =
      ap (λ t. extend t xs) (insert_last x s k.0)
      ∙ extend_sorted (s ++ x ∷ []) xs h.1 (AllUnder-snoc s x xs h.0 k.1)
      ∙ append_assoc s (x ∷ []) xs

  AllUnder-nil : (xs : List A) → AllUnder [] xs
  AllUnder-nil [] = tt
  AllUnder-nil (x ∷ xs) = (tt, AllUnder-nil xs)

  -- A sorted list inserted into the empty set is that list.
  pub extend-nil : (xs : List A) → IsSorted xs → extend [] xs ≡ xs
  extend-nil xs h = extend_sorted [] xs h (AllUnder-nil xs)

  pub contains-remove :
      (b a : A) (xs : List A)
      → contains b (remove a xs) ≡ (contains b xs && not (is_eq (o.cmp b a)))
  unfolding remove
  contains-remove b a [] = refl
  contains-remove b a (x ∷ xs) =
      ground (arith, contains-remove b a xs, o.eq_of_cmp a x, o.eq_of_cmp b a, o.eq_of_cmp b x)
