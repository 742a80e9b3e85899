-- ===== src/Rules/Graph/Budget.antt =====
-- How much fuel a walk over dependencies takes: each name costs one, and each new name as much as
-- the names that it depends on.
use capa_x.Prelude.{
  ℕ, zero, suc, ◌+◌, ◌*◌, ◌<◌, ◌≤◌, String, Bool, true, false, List, [], ◌∷◌, ◌≡◌, refl, subst,
  str_eq, str_eq_iff, arith, length, Bool-cases, inl, inr,
}
use capa_x.Rules.Graph.{name_in}

abbrev pub one_if_not : Bool → ℕ
one_if_not true = 0
one_if_not false = 1

-- how many of the names fail a test
abbrev pub misses : (String → Bool) → List String → ℕ
misses p [] = 0
misses p (n ∷ ns) = one_if_not (p n) + misses p ns

one_if_not_mono : (a b : Bool) → (a ≡ true → b ≡ true) → one_if_not b ≤ one_if_not a
one_if_not_mono true b h = rw (h refl) (omega arith)
one_if_not_mono false true h = omega arith
one_if_not_mono false false h = omega arith

module _ (p q : String → Bool) where
  pub misses_mono :
      (ns : List String) → ((n : String) → p n ≡ true → q n ≡ true) → misses q ns ≤ misses p ns
  misses_mono [] g = omega arith
  misses_mono (n ∷ ns) g = omega (arith, misses_mono ns g, one_if_not_mono (p n) (q n) (g n))

  -- one of the names passes the second test alone
  pub misses-lt :
      (ns : List String) (n : String)
      → ((m : String) → p m ≡ true → q m ≡ true)
      → name_in n ns ≡ true
      → p n ≡ false
      → q n ≡ true
      → misses q ns < misses p ns
  misses-lt [] n g i h k = cc
  misses-lt (m ∷ ns) n g i h k = elim (Bool-cases (str_eq n m)) [
    | inl e ↦
        let same : n ≡ m = (str_eq_iff n m).0 e in
        let before : p m ≡ false = subst (λ o. p o ≡ false) same h in
        let after : q m ≡ true = subst (λ o. q o ≡ true) same k in
        rw before (rw after (omega (arith, misses_mono ns g)))
    | inr e ↦
        let rest : name_in n ns ≡ true = ground arith in
        omega (arith, misses-lt ns n g rest h k, one_if_not_mono (p m) (q m) (g m))
  ]

pub misses_le : (p : String → Bool) (ns : List String) → misses p ns ≤ length ns
misses_le p [] = omega arith
misses_le p (n ∷ ns) = elim (Bool-cases (p n)) [
  | inl e ↦ rw e (omega (arith, misses_le p ns))
  | inr e ↦ rw e (omega (arith, misses_le p ns))
]

pub times_mono : (v u m : ℕ) → v ≤ u → v * m ≤ u * m
times_mono zero u m h = omega arith
times_mono (suc v) zero m h = absurd (omega arith)
times_mono (suc v) (suc u) m h = omega (arith, times_mono v u m (omega arith))

pub budget_inside :
    (u v len l most fuel : ℕ)
    → v < u
    → l ≤ most
    → suc len + u * suc most < suc fuel
    → l + v * suc most < fuel
budget_inside u v len l most fuel lt le h =
    omega (arith, times_mono (suc v) u (suc most) (omega arith))

pub budget_behind :
    (u v len most fuel : ℕ) → v ≤ u → suc len + u * suc most < suc fuel → len + v * suc most < fuel
budget_behind u v len most fuel le h = omega (arith, times_mono v u (suc most) le)

pub enough_fuel :
    (n len u most fuel : ℕ) → len ≡ n → u ≤ len → n * (2 + most) < fuel → len + u * suc most < fuel
enough_fuel n len u most fuel e le h =
    omega (arith, times_mono u n (suc most) (omega arith), step n most)
  where
    step : (n most : ℕ) → n * (2 + most) ≡ n + n * suc most
    step zero most = omega arith
    step (suc n) most = omega (arith, step n most)
