-- ===== src/Features/Number.antt =====
-- `NumberValue` of capa-x/src/features.rs: an integer, or a float that equals it when it is whole.
use capa_x.Prelude.{
  ℕ, ◌≡◌, Bool, true, false, ◌&&◌, Option, none, some, arith, if◌then◌else◌, inl, ◌⊎◌, inr, ◌∙◌,
  sym, ap, refl,
}
use capa_x.Prelude.Int.{ℤ, ℤ_eq, ℤ_eq_iff}
use capa_x.Features.Float.{
  float_eq, fract_is_zero, in_i128_range, to_i128, magnitude, fract_is_zero_cong,
  in_i128_range_cong, to_i128_cong, float_eq_trans, float_eq_sym,
}

-- a float is its 64-bit pattern
pub data NumberValue : Type 0 where
  int : ℤ → NumberValue
  float : ℕ → NumberValue

pub as_whole_int : NumberValue → Option ℤ
as_whole_int (int v) = some v
as_whole_int (float v) = if fract_is_zero v && in_i128_range v then some (to_i128 v) else none

-- the arms below `(Some(a), Some(b))`
both_floats : NumberValue → NumberValue → Bool
both_floats (float a) (float b) = float_eq a b
both_floats _ _ = false

whole_eq : Option ℤ → Option ℤ → Bool → Bool
whole_eq (some a) (some b) otherwise = ℤ_eq a b
whole_eq _ _ otherwise = otherwise

-- `PartialEq for NumberValue`
unfoldable pub number_eq : NumberValue → NumberValue → Bool
unfolding as_whole_int both_floats whole_eq float_eq fract_is_zero in_i128_range to_i128 magnitude
number_eq a b = whole_eq (as_whole_int a) (as_whole_int b) (both_floats a b)

whole_cong : (a b : ℕ) → float_eq a b ≡ true → as_whole_int (float a) ≡ as_whole_int (float b)
unfolding as_whole_int
whole_cong a b h =
    ground (arith, fract_is_zero_cong a b h, in_i128_range_cong a b h, to_i128_cong a b h)

both_floats_sym : (a b : NumberValue) → both_floats a b ≡ true → both_floats b a ≡ true
unfolding both_floats
both_floats_sym (float a) (float b) h = float_eq_sym a b h
both_floats_sym (int a) b h = cc
both_floats_sym (float a) (int b) h = cc

both_floats_trans :
    (a b c : NumberValue) → both_floats a b ≡ true → both_floats b c ≡ true → both_floats a c ≡ true
unfolding both_floats
both_floats_trans (float a) (float b) (float c) h k = float_eq_trans a b c h k
both_floats_trans (int a) b c h k = cc
both_floats_trans (float a) (int b) c h k = cc
both_floats_trans (float a) (float b) (int c) h k = cc

both_floats_whole : (a b : NumberValue) → both_floats a b ≡ true → as_whole_int a ≡ as_whole_int b
unfolding both_floats
both_floats_whole (float a) (float b) h = whole_cong a b h
both_floats_whole (int a) b h = cc
both_floats_whole (float a) (int b) h = cc

-- An equation of numbers is one of whole integers, or one of floats.
number_eq-cases :
    (a b : NumberValue)
    → number_eq a b ≡ true
    → ((z : ℤ) × (as_whole_int a ≡ some z) × (as_whole_int b ≡ some z)) ⊎ (both_floats a b ≡ true)
unfolding number_eq whole_eq
number_eq-cases a b h = go (as_whole_int a) (as_whole_int b) refl refl h
  where
    go :
        (x y : Option ℤ)
        → as_whole_int a ≡ x
        → as_whole_int b ≡ y
        → whole_eq x y (both_floats a b) ≡ true
        → ((z : ℤ) × (as_whole_int a ≡ some z) × (as_whole_int b ≡ some z))
          ⊎ (both_floats a b ≡ true)
    go (some x) (some y) p q e = inl (x, p, q ∙ ap some (sym ((ℤ_eq_iff x y).0 e)))
    go (some x) none p q e = inr e
    go none y p q e = inr e

number_eq_of_whole :
    (a b : NumberValue) (z : ℤ)
    → as_whole_int a ≡ some z
    → as_whole_int b ≡ some z
    → number_eq a b ≡ true
unfolding number_eq whole_eq
number_eq_of_whole a b z p q = rw (p, q) ((ℤ_eq_iff z z).1 refl)

number_eq_of_floats : (a b : NumberValue) → both_floats a b ≡ true → number_eq a b ≡ true
unfolding number_eq whole_eq
number_eq_of_floats a b h = go (as_whole_int a) (as_whole_int b) (both_floats_whole a b h)
  where
    go : (x y : Option ℤ) → x ≡ y → whole_eq x y (both_floats a b) ≡ true
    go (some x) (some y) e = (ℤ_eq_iff x y).1 (cc)
    go (some x) none e = h
    go none y e = h

pub number_eq_sym : (a b : NumberValue) → number_eq a b ≡ true → number_eq b a ≡ true
number_eq_sym a b h = elim (number_eq-cases a b h) [
  | inl w ↦ number_eq_of_whole b a w.0 w.2 w.1
  | inr f ↦ number_eq_of_floats b a (both_floats_sym a b f)
]

pub number_eq_trans :
    (a b c : NumberValue) → number_eq a b ≡ true → number_eq b c ≡ true → number_eq a c ≡ true
number_eq_trans a b c h k = elim (number_eq-cases a b h) [
  | inl w ↦ elim (number_eq-cases b c k) [
    | inl v ↦ number_eq_of_whole a c w.0 w.1 (v.2 ∙ sym v.1 ∙ w.2)
    | inr f ↦ number_eq_of_whole a c w.0 w.1 (sym (both_floats_whole b c f) ∙ w.2)
  ]
  | inr f ↦ elim (number_eq-cases b c k) [
    | inl v ↦ number_eq_of_whole a c v.0 (both_floats_whole a b f ∙ v.1) v.2
    | inr g ↦ number_eq_of_floats a c (both_floats_trans a b c f g)
  ]
]
