-- ===== src/Features.antt =====
-- capa-x/src/features.rs: the value of a feature, and when two features are the same key.
pub mod Float
pub mod Regex
pub mod Number
pub mod Equality
use capa_x.Prelude.{
  ℕ, String, Bool, true, false, Option, none, some, List, [], ◌∷◌, ◌&&◌, ◌==◌, str_eq,
}
use capa_x.Prelude.Int.{ℤ, ℤ_eq}
use capa_x.Features.Regex.{CompiledRegex}
use capa_x.Features.Number.{NumberValue, number_eq}

pub data Access : Type 0 where
  read write : Access

pub data ComKind : Type 0 where
  com_class com_interface : ComKind

pub data StringFeature : Type 0 where
  plain substring : String → StringFeature
  regex : CompiledRegex → StringFeature

pub data Feature : Type 0 where
  api : String → Feature
  string : StringFeature → Feature
  bytes : List ℕ → Feature
  number : NumberValue → Feature
  offset : ℤ → Feature
  operand_number : ℕ → NumberValue → Feature
  operand_offset : ℕ → ℤ → Feature
  mnemonic characteristic section import export function_name class namespace : String → Feature
  property : String → Option Access → Feature
  os arch format : String → Feature
  com_object : ComKind → String → Feature
  matched_rule : String → Feature
  basic_block : Feature

-- The derived equality compares the constructors, and then the fields from left to right.
pub data Field : Type 0 where
  text : String → Field
  byte_list : List ℕ → Field
  value : NumberValue → Field
  integer : ℤ → Field
  index : ℕ → Field

abbrev access_index : Option Access → ℕ
access_index none = 0
access_index (some read) = 1
access_index (some write) = 2

abbrev com_kind_index : ComKind → ℕ
com_kind_index com_class = 0
com_kind_index com_interface = 1

-- `PartialEq for CompiledRegex` compares the raw text alone.
abbrev string_fields : StringFeature → List Field
string_fields (plain s) = index 0 ∷ text s ∷ []
string_fields (substring s) = index 1 ∷ text s ∷ []
string_fields (regex re) = index 2 ∷ text re.raw ∷ []

unfoldable pub fields : Feature → List Field
fields (api s) = index 0 ∷ text s ∷ []
fields (string s) = index 1 ∷ string_fields s
fields (bytes b) = index 2 ∷ byte_list b ∷ []
fields (number v) = index 3 ∷ value v ∷ []
fields (offset v) = index 4 ∷ integer v ∷ []
fields (operand_number i v) = index 5 ∷ index i ∷ value v ∷ []
fields (operand_offset i v) = index 6 ∷ index i ∷ integer v ∷ []
fields (mnemonic s) = index 7 ∷ text s ∷ []
fields (characteristic s) = index 8 ∷ text s ∷ []
fields (section s) = index 9 ∷ text s ∷ []
fields (import s) = index 10 ∷ text s ∷ []
fields (export s) = index 11 ∷ text s ∷ []
fields (function_name s) = index 12 ∷ text s ∷ []
fields (class s) = index 13 ∷ text s ∷ []
fields (namespace s) = index 14 ∷ text s ∷ []
fields (property s access) = index 15 ∷ text s ∷ index (access_index access) ∷ []
fields (os s) = index 16 ∷ text s ∷ []
fields (arch s) = index 17 ∷ text s ∷ []
fields (format s) = index 18 ∷ text s ∷ []
fields (com_object kind s) = index 19 ∷ index (com_kind_index kind) ∷ text s ∷ []
fields (matched_rule s) = index 20 ∷ text s ∷ []
fields basic_block = index 21 ∷ []

abbrev pub bytes_eq : List ℕ → List ℕ → Bool
bytes_eq [] [] = true
bytes_eq (a ∷ as') (b ∷ bs) = a == b && bytes_eq as' bs
bytes_eq _ _ = false

unfoldable pub field_eq : Field → Field → Bool
field_eq (text a) (text b) = str_eq a b
field_eq (byte_list a) (byte_list b) = bytes_eq a b
field_eq (value a) (value b) = number_eq a b
field_eq (integer a) (integer b) = ℤ_eq a b
field_eq (index a) (index b) = a == b
field_eq _ _ = false

unfoldable pub fields_eq : List Field → List Field → Bool
fields_eq [] [] = true
fields_eq (a ∷ as') (b ∷ bs) = field_eq a b && fields_eq as' bs
fields_eq _ _ = false

unfoldable pub feature_eq : Feature → Feature → Bool
unfolding fields field_eq fields_eq number_eq
feature_eq a b = fields_eq (fields a) (fields b)

abbrev pub is_string : Feature → Bool
is_string (string s) = true
is_string _ = false

abbrev pub is_bytes : Feature → Bool
is_bytes (bytes b) = true
is_bytes _ = false

abbrev pub is_os : Feature → Bool
is_os (os s) = true
is_os _ = false
