-- ===== src/Features/Equality.antt =====
-- The equality of features is symmetric and transitive. It is not reflexive: a NaN immediate is a
-- feature that no lookup finds again.
use capa_x.Prelude.{ℕ, ◌≡◌, refl, sym, ◌∙◌, true, List, [], ◌∷◌, arith, str_eq_iff}
use capa_x.Prelude.Int.{ℤ_eq_iff}
use capa_x.Features.Number.{number_eq_sym, number_eq_trans}
use capa_x.Features.{
  Feature, Field, text, byte_list, value, integer, index, bytes_eq, field_eq, fields_eq, fields,
  feature_eq,
}

bytes_eq_sym : (a b : List ℕ) → bytes_eq a b ≡ true → bytes_eq b a ≡ true
bytes_eq_sym [] [] h = refl
bytes_eq_sym [] (y ∷ b) h = cc
bytes_eq_sym (x ∷ a) [] h = cc
bytes_eq_sym (x ∷ a) (y ∷ b) h = ground (arith, bytes_eq_sym a b)

bytes_eq_trans : (a b c : List ℕ) → bytes_eq a b ≡ true → bytes_eq b c ≡ true → bytes_eq a c ≡ true
bytes_eq_trans [] [] c h k = k
bytes_eq_trans [] (y ∷ b) c h k = cc
bytes_eq_trans (x ∷ a) [] c h k = cc
bytes_eq_trans (x ∷ a) (y ∷ b) [] h k = cc
bytes_eq_trans (x ∷ a) (y ∷ b) (z ∷ c) h k = ground (arith, bytes_eq_trans a b c)

field_eq_sym : (a b : Field) → field_eq a b ≡ true → field_eq b a ≡ true
unfolding field_eq
field_eq_sym (text a) (text b) h = (str_eq_iff b a).1 (sym ((str_eq_iff a b).0 h))
field_eq_sym (byte_list a) (byte_list b) h = bytes_eq_sym a b h
field_eq_sym (value a) (value b) h = number_eq_sym a b h
field_eq_sym (integer a) (integer b) h = (ℤ_eq_iff b a).1 (sym ((ℤ_eq_iff a b).0 h))
field_eq_sym (index a) (index b) h = ground arith
field_eq_sym _ _ h = cc

field_eq_trans : (a b c : Field) → field_eq a b ≡ true → field_eq b c ≡ true → field_eq a c ≡ true
unfolding field_eq
field_eq_trans (text a) (text b) (text c) h k =
    (str_eq_iff a c).1 ((str_eq_iff a b).0 h ∙ (str_eq_iff b c).0 k)
field_eq_trans (byte_list a) (byte_list b) (byte_list c) h k = bytes_eq_trans a b c h k
field_eq_trans (value a) (value b) (value c) h k = number_eq_trans a b c h k
field_eq_trans (integer a) (integer b) (integer c) h k =
    (ℤ_eq_iff a c).1 ((ℤ_eq_iff a b).0 h ∙ (ℤ_eq_iff b c).0 k)
field_eq_trans (index a) (index b) (index c) h k = ground arith
field_eq_trans _ _ _ h k = cc

fields_eq_sym : (a b : List Field) → fields_eq a b ≡ true → fields_eq b a ≡ true
unfolding fields_eq
fields_eq_sym [] [] h = refl
fields_eq_sym [] (y ∷ b) h = cc
fields_eq_sym (x ∷ a) [] h = cc
fields_eq_sym (x ∷ a) (y ∷ b) h = ground (arith, fields_eq_sym a b, field_eq_sym x y)

fields_eq_trans :
    (a b c : List Field) → fields_eq a b ≡ true → fields_eq b c ≡ true → fields_eq a c ≡ true
unfolding fields_eq
fields_eq_trans [] [] c h k = k
fields_eq_trans [] (y ∷ b) c h k = cc
fields_eq_trans (x ∷ a) [] c h k = cc
fields_eq_trans (x ∷ a) (y ∷ b) [] h k = cc
fields_eq_trans (x ∷ a) (y ∷ b) (z ∷ c) h k =
    ground (arith, fields_eq_trans a b c, field_eq_trans x y z)

-- Equality of features is symmetric.
pub feature_eq_sym : (a b : Feature) → feature_eq a b ≡ true → feature_eq b a ≡ true
feature_eq_sym a b h = unfold feature_eq in fields_eq_sym (fields a) (fields b) h

-- Equality of features is transitive, numbers of both kinds included.
pub feature_eq_trans :
    (a b c : Feature) → feature_eq a b ≡ true → feature_eq b c ≡ true → feature_eq a c ≡ true
feature_eq_trans a b c h k =
    unfold feature_eq in fields_eq_trans (fields a) (fields b) (fields c) h k
