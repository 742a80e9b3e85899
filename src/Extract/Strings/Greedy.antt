-- ===== src/Extract/Strings/Greedy.antt =====
-- `extract_unicode_strings` of capa-x/src/extract/features/strings.rs finds the leftmost strings that
-- do not overlap, as the `finditer` of a regular expression does.
use capa_x.Prelude.{
  ℕ, zero, suc, ◌+◌, ◌*◌, ◌≤◌, ◌<◌, ◌≡◌, refl, ap, ◌∙◌, subst, false, ◌||◌, ◌⊎◌, inl, inr, List, [],
  ◌∷◌, arith, leb, ltb, length, drop, drop-drop, length-drop, Bool-cases,
}
use capa_x.Extract.Strings.{
  ExtractedString, is_filler, pairs_at, unicode_loop, extract_unicode_strings,
}

-- how many pairs of an ASCII byte and a zero stand at a position of the buffer
abbrev pub count_at : List ℕ → ℕ → ℕ
count_at buf p = length (pairs_at (drop p buf))

-- From a position on: no string starts before the next one that is found, which is at its position
-- all pairs that stand there, and the search goes on behind it.
abbrev pub IsGreedy : ℕ → List ℕ → ℕ → List ExtractedString → Type 0
IsGreedy n buf i [] = (p : ℕ) → i ≤ p → count_at buf p < n
IsGreedy n buf i (r ∷ rs) =
    (i ≤ r.offset)
    × (((p : ℕ) → i ≤ p → p < r.offset → count_at buf p < n)
        × ((r.s ≡ pairs_at (drop r.offset buf))
            × ((n ≤ length r.s) × IsGreedy n buf (r.offset + 2 * length r.s) rs)))

pairs_at-short : (buf : List ℕ) → length buf < 2 → pairs_at buf ≡ []
unfolding pairs_at
pairs_at-short [] h = refl
pairs_at-short (b ∷ []) h = refl
pairs_at-short (b ∷ c ∷ buf) h = absurd (omega arith)

drop-nil : (a : ℕ) → drop {A = ℕ} a [] ≡ []
drop-nil zero = refl
drop-nil (suc a) = refl

drop_plus : (a b c : ℕ) (xs : List ℕ) → b + a ≡ c → drop a (drop b xs) ≡ drop c xs
drop_plus a zero c xs e = let same : a ≡ c = omega arith in ap (λ k. drop k xs) same
drop_plus a (suc b) zero xs e = absurd (omega arith)
drop_plus a (suc b) (suc c) [] e = drop-nil a
drop_plus a (suc b) (suc c) (x ∷ xs) e = drop_plus a b c xs (omega arith)

from_cases : (i p : ℕ) → i ≤ p → (i ≡ p) ⊎ (suc i ≤ p)
from_cases i p h = grind arith

module _ (n : ℕ) (buf : List ℕ) (positive : 0 < n) where
  -- a position where too few pairs stand is passed over
  absent_from :
      (i p : ℕ) → count_at buf i < n → (suc i ≤ p → count_at buf p < n) → i ≤ p → count_at buf p < n
  absent_from i p few later h = elim (from_cases i p h) [
    | inl e ↦ subst (λ q. count_at buf q < n) e few
    | inr l ↦ later l
  ]

  IsGreedy-skip :
      (i : ℕ) (rs : List ExtractedString)
      → count_at buf i < n
      → IsGreedy n buf (suc i) rs
      → IsGreedy n buf i rs
  IsGreedy-skip i [] few h = λ p l. absent_from i p few (h p) l
  IsGreedy-skip i (r ∷ rs) few h =
      (omega (arith, h.0), (λ p l lt. absent_from i p few (λ k. h.1.0 p k lt) l, h.1.1))

  -- less than two bytes are left
  short_end : (i : ℕ) → length (drop i buf) < 2 → IsGreedy n buf i []
  short_end i h = λ p l.
      let none : pairs_at (drop p buf) ≡ [] =
        pairs_at-short (drop p buf) (omega (arith, length-drop p buf, length-drop i buf)) in
      omega (arith, ap length none)

  unicode_loop-IsGreedy :
      (fuel i : ℕ) (rest : List ℕ)
      → rest ≡ drop i buf
      → length rest < fuel
      → IsGreedy n buf i (unicode_loop fuel n i rest)
  unfolding unicode_loop
  unicode_loop-IsGreedy zero i rest e h = absurd (omega arith)
  unicode_loop-IsGreedy (suc fuel) i [] e h = short_end i (omega (arith, ap length e))
  unicode_loop-IsGreedy (suc fuel) i (b ∷ []) e h = short_end i (omega (arith, ap length e))
  unicode_loop-IsGreedy (suc fuel) i (b ∷ c ∷ rest) e h =
      let s = pairs_at (b ∷ c ∷ rest) in
      let here : s ≡ pairs_at (drop i buf) = ap pairs_at e in
      elim (Bool-cases (leb n (length s))) [
        | inl k ↦
            rw (k, unicode_loop, IsGreedy)
              (
                omega arith,
                (
                  λ p l lt. absurd (omega arith),
                  (
                    here,
                    (
                      ground arith,
                      unicode_loop-IsGreedy fuel (i + 2 * length s)
                          (drop (2 * length s) (b ∷ c ∷ rest))
                          (ap (drop (2 * length s)) e
                            ∙ drop_plus (2 * length s) i (i + 2 * length s) buf refl)
                          (ground (arith, length-drop (2 * length s) (b ∷ c ∷ rest))),
                    ),
                  ),
                ),
              )
        | inr k ↦
            rw (k, unicode_loop)
              (IsGreedy-skip i (unicode_loop fuel n (suc i) (c ∷ rest))
                (ground (arith, ap length here))
                (unicode_loop-IsGreedy fuel (suc i) (c ∷ rest) (ap (drop 1) e ∙ drop-drop i buf)
                  (omega arith)))
      ]

-- In a buffer that is not of one filler byte, and for a length that is not zero, the strings that are
-- found are the leftmost ones that do not overlap, each as long as it can be.
pub extract_unicode_strings-IsGreedy :
    (buf : List ℕ) (n : ℕ)
    → is_filler buf ≡ false
    → 0 < n
    → IsGreedy n buf 0 (extract_unicode_strings buf n)
unfolding extract_unicode_strings
extract_unicode_strings-IsGreedy buf n filler positive =
    let enough : (is_filler buf || ltb n 1) ≡ false = ground arith in
    rw (enough, IsGreedy)
      (unicode_loop-IsGreedy n buf positive (suc (length buf)) 0 buf refl (omega arith))
