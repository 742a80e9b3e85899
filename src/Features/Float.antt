-- ===== src/Features/Float.antt =====
-- What capa-x/src/features.rs asks of an `f64`, computed on its 64-bit pattern.
use capa_x.Prelude.{
  ℕ, ◌≡◌, ◌+◌, ◌-◌, ◌*◌, ◌/◌, ◌%◌, ◌^◌, min, Bool, true, false, not, ◌&&◌, ◌||◌, ◌==◌, ltb,
  if◌then◌else◌, arith, ◌⊎◌, inl, Bool-cases, ap, inr, ◌∙◌, sym,
}
use capa_x.Prelude.Int.{ℤ, pos, negsuc}

abbrev exponent : ℕ → ℕ
exponent bits = (bits / 2 ^ 52) % 2 ^ 11

abbrev mantissa : ℕ → ℕ
mantissa bits = bits % 2 ^ 52

abbrev is_negative : ℕ → Bool
is_negative bits = not (bits / 2 ^ 63 == 0)

is_nan : ℕ → Bool
is_nan bits = exponent bits == 2047 && not (mantissa bits == 0)

is_zero : ℕ → Bool
is_zero bits = exponent bits == 0 && mantissa bits == 0

-- `a == b`: no NaN equals anything, and the two zeros are equal
unfoldable pub float_eq : ℕ → ℕ → Bool
unfolding is_nan is_zero
float_eq a b = not (is_nan a) && not (is_nan b) && ((is_zero a && is_zero b) || a == b)

-- the significand with its hidden bit
abbrev significand : ℕ → ℕ
significand bits = 2 ^ 52 + mantissa bits

-- `v.fract() == 0.0`; the fraction of an infinity is a NaN
unfoldable pub fract_is_zero : ℕ → Bool
unfolding is_zero
fract_is_zero bits =
    let e = exponent bits in
    if e == 2047
    then false
    else if is_zero bits
    then true
    else if ltb e 1023
    then false
    else if ltb e 1075
    then significand bits % 2 ^ (1075 - e) == 0
    else true

-- `v >= i128::MIN as f64 && v <= i128::MAX as f64`, where both bounds are powers of two: |v| ≤ 2^127
unfoldable pub in_i128_range : ℕ → Bool
in_i128_range bits = let e = exponent bits in ltb e 1150 || (e == 1150 && mantissa bits == 0)

unfoldable pub magnitude : ℕ → ℕ
magnitude bits =
    let e = exponent bits in
    if ltb e 1023
    then 0
    else if ltb e 1075
    then significand bits / 2 ^ (1075 - e)
    else significand bits * 2 ^ (e - 1075)

abbrev negate : ℕ → ℤ
negate n = if n == 0 then pos 0 else negsuc (n - 1)

-- `v as i128`, which saturates: 2^127 becomes `i128::MAX`
unfoldable pub to_i128 : ℕ → ℤ
to_i128 bits =
    if is_negative bits then negate (magnitude bits) else pos (min (magnitude bits) (2 ^ 127 - 1))

pub float_eq_sym : (a b : ℕ) → float_eq a b ≡ true → float_eq b a ≡ true
unfolding float_eq
float_eq_sym a b h = ground arith

pub float_eq_trans : (a b c : ℕ) → float_eq a b ≡ true → float_eq b c ≡ true → float_eq a c ≡ true
unfolding float_eq
float_eq_trans a b c h k = ground arith

-- Equal floats are whole together.
pub fract_is_zero_cong : (a b : ℕ) → float_eq a b ≡ true → fract_is_zero a ≡ fract_is_zero b
unfolding float_eq fract_is_zero
fract_is_zero_cong a b h = ground arith

pub in_i128_range_cong : (a b : ℕ) → float_eq a b ≡ true → in_i128_range a ≡ in_i128_range b
unfolding float_eq in_i128_range
in_i128_range_cong a b h = ground arith

float_eq-cases :
    (a b : ℕ) → float_eq a b ≡ true → (a ≡ b) ⊎ ((is_zero a ≡ true) × (is_zero b ≡ true))
unfolding float_eq
float_eq-cases a b h = ground arith

magnitude_of_zero : (a : ℕ) → is_zero a ≡ true → magnitude a ≡ 0
unfolding is_zero magnitude
magnitude_of_zero a h = ground arith

to_i128_of_zero : (a : ℕ) → is_zero a ≡ true → to_i128 a ≡ pos 0
unfolding to_i128
to_i128_of_zero a h = elim (Bool-cases (is_negative a)) [
  | inl n ↦ rw (n, magnitude_of_zero a h)
  | inr n ↦ rw (n, magnitude_of_zero a h)
]

pub to_i128_cong : (a b : ℕ) → float_eq a b ≡ true → to_i128 a ≡ to_i128 b
to_i128_cong a b h = elim (float_eq-cases a b h) [
  | inl e ↦ ap to_i128 e
  | inr z ↦ to_i128_of_zero a z.0 ∙ sym (to_i128_of_zero b z.1)
]
