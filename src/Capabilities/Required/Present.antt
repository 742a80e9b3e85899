-- ===== src/Capabilities/Required/Present.antt =====
-- When a feature that the index asks for is in a feature set.
use capa_x.Capabilities.Required.{com_object, some, leb, min}
use capa_x.Features.Equality.{feature_eq_trans, feature_eq_sym}
use capa_x.Features.Regex.{RegexCrates}
use capa_x.Prelude.{
  ◌≡◌, refl, Bool, true, false, List, [], ◌∷◌, any, arith, String, ℕ, sym, Option, suc, ◌∙◌,
  if◌then◌else◌, ◌==◌, ◌&&◌, not, none, leb, min,
}
use capa_x.Features.{
  Feature, StringFeature, substring, regex, string, bytes, os, feature_eq, plain, is_bytes,
  is_string, is_os,
}
use capa_x.IndexMap
use capa_x.Engine.FeatureSet.{FeatureSet}
use capa_x.Engine.Leaves.{bytes_test, os_test, string_value, count_u32, below_max}
use capa_x.Address.{Address}
use capa_x.Features.{Field, index, field_eq, fields_eq, fields}
use capa_x.Engine.Meaning.{leaf_holds}
use capa_x.Engine.Boolean.{on_string, any_key, range_boolean}

-- What the index looks for: a feature of the same kind for the leaves that scan, else the feature.
unfoldable pub present : FeatureSet → Feature → Bool
present fs (string (substring s)) = any_key is_string fs
present fs (string (regex re)) = any_key is_string fs
present fs (bytes b) = any_key is_bytes fs
present fs (os s) = any_key is_os fs
present fs feature = IndexMap.contains_key feature_eq feature fs

abbrev pub any_present : FeatureSet → List Feature → Bool
any_present fs alternatives = any (present fs) alternatives

any_key_mono :
    (p q : Feature → Bool) (fs : FeatureSet)
    → ((f : Feature) → p f ≡ true → q f ≡ true)
    → any_key p fs ≡ true
    → any_key q fs ≡ true
any_key_mono p q [] h k = k
any_key_mono p q ((f, locs) ∷ fs) h k = ground (arith, h f, any_key_mono p q fs h)

contains-any_key :
    (f : Feature) (fs : FeatureSet)
    → IndexMap.contains_key feature_eq f fs ≡ any_key (λ g. feature_eq g f) fs
contains-any_key f [] = refl
contains-any_key f ((g, locs) ∷ fs) = ground (arith, contains-any_key f fs)

string_of_eq :
    (s : StringFeature) (g : Feature) → feature_eq g (string s) ≡ true → is_string g ≡ true
unfolding feature_eq
string_of_eq s (string t) h = refl
string_of_eq s _ h = ground arith

bytes_of_eq : (b : List ℕ) (g : Feature) → feature_eq g (bytes b) ≡ true → is_bytes g ≡ true
unfolding feature_eq
bytes_of_eq b (bytes c) h = refl
bytes_of_eq b _ h = ground arith

os_of_eq : (s : String) (g : Feature) → feature_eq g (os s) ≡ true → is_os g ≡ true
unfolding feature_eq
os_of_eq s (os t) h = refl
os_of_eq s _ h = ground arith

-- A feature that is in the set is present, whatever its kind.
present_of_contains :
    (fs : FeatureSet) (f : Feature)
    → IndexMap.contains_key feature_eq f fs ≡ true
    → present fs f ≡ true
unfolding present
present_of_contains fs (string (plain s)) h = h
present_of_contains fs (string (substring s)) h =
    any_key_mono _ _ fs (string_of_eq (substring s)) (sym (contains-any_key _ fs) ∙ h)
present_of_contains fs (string (regex re)) h =
    any_key_mono _ _ fs (string_of_eq (regex re)) (sym (contains-any_key _ fs) ∙ h)
present_of_contains fs (bytes b) h =
    any_key_mono _ _ fs (bytes_of_eq b) (sym (contains-any_key _ fs) ∙ h)
present_of_contains fs (os s) h = any_key_mono _ _ fs (os_of_eq s) (sym (contains-any_key _ fs) ∙ h)
present_of_contains fs f h = h

on_string_kind : (test : String → Bool) (f : Feature) → on_string test f ≡ true → is_string f ≡ true
unfolding string_value
on_string_kind test (string s) h = refl
on_string_kind test _ h = ground arith

bytes_test_kind : (b : List ℕ) (f : Feature) → bytes_test b f ≡ true → is_bytes f ≡ true
bytes_test_kind b (bytes c) h = refl
bytes_test_kind b _ h = cc

os_test_kind : (s : String) (f : Feature) → os_test s f ≡ true → is_os f ≡ true
os_test_kind s (os t) h = refl
os_test_kind s _ h = cc

pub leaf-present :
    (crates : RegexCrates) (fs : FeatureSet) (f : Feature)
    → leaf_holds crates fs f ≡ true
    → present fs f ≡ true
unfolding leaf_holds present
leaf-present crates fs (string (plain s)) h = h
leaf-present crates fs (string (substring s)) h = any_key_mono _ _ fs (on_string_kind _) h
leaf-present crates fs (string (regex re)) h = any_key_mono _ _ fs (on_string_kind _) h
leaf-present crates fs (bytes b) h = any_key_mono _ _ fs (bytes_test_kind b) h
leaf-present crates fs (os s) h = any_key_mono _ _ fs (os_test_kind s) h
leaf-present crates fs (com_object kind name) h = cc
leaf-present crates fs f h = h

pub range-present :
    (fs : FeatureSet) (f : Feature) (min : ℕ) (max : Option ℕ)
    → range_boolean f (suc min) max fs ≡ true
    → present fs f ≡ true
unfolding range_boolean
range-present fs f min max h =
    present_of_contains fs f
      (counted (IndexMap.get feature_eq f fs) (IndexMap.contains-get feature_eq f fs) h)
  where
    counted :
        (o : Option (List Address))
        → IndexMap.contains_key feature_eq f fs ≡ elim o [ none ↦ false | some _ ↦ true ]
        → (leb (suc min) (count_u32 o) && below_max (count_u32 o) max) ≡ true
        → IndexMap.contains_key feature_eq f fs ≡ true
    counted none e k = ground arith
    counted (some s) e k = e

-- the constructor, as the first fields of the derived equality tell it
head_index : List Field → ℕ
head_index (index n ∷ rest) = n
head_index _ = 100

tail_fields : List Field → List Field
tail_fields [] = []
tail_fields (x ∷ rest) = rest

head_index_cong : (a b : List Field) → fields_eq a b ≡ true → head_index a ≡ head_index b
unfolding head_index fields_eq field_eq
head_index_cong [] [] h = refl
head_index_cong [] (y ∷ b) h = cc
head_index_cong (x ∷ a) [] h = cc
head_index_cong (index m ∷ a) (index n ∷ b) h = ground arith
head_index_cong (x ∷ a) (y ∷ b) h = ground arith

tail_fields_cong :
    (a b : List Field) → fields_eq a b ≡ true → fields_eq (tail_fields a) (tail_fields b) ≡ true
unfolding tail_fields fields_eq
tail_fields_cong [] [] h = refl
tail_fields_cong [] (y ∷ b) h = cc
tail_fields_cong (x ∷ a) [] h = cc
tail_fields_cong (x ∷ a) (y ∷ b) h = ground arith

present_by : FeatureSet → Feature → ℕ → ℕ → Bool
present_by fs f head second =
    if head == 1 && not (second == 0)
    then any_key is_string fs
    else if head == 2
    then any_key is_bytes fs
    else if head == 16
    then any_key is_os fs
    else IndexMap.contains_key feature_eq f fs

present-present_by :
    (fs : FeatureSet) (f : Feature)
    → present fs f ≡ present_by fs f (head_index (fields f)) (head_index (tail_fields (fields f)))
unfolding present present_by head_index tail_fields fields
present-present_by fs (string (plain s)) = refl
present-present_by fs (string (substring s)) = refl
present-present_by fs (string (regex re)) = refl
present-present_by fs (bytes b) = refl
present-present_by fs (os s) = refl
present-present_by fs f = refl

contains_cong :
    (fs : FeatureSet) (f g : Feature)
    → feature_eq g f ≡ true
    → IndexMap.contains_key feature_eq f fs ≡ true
    → IndexMap.contains_key feature_eq g fs ≡ true
contains_cong [] f g h k = k
contains_cong ((j, locs) ∷ fs) f g h k =
    ground (arith, contains_cong fs f g h, feature_eq_trans j f g, feature_eq_sym g f h)

present_by_cong :
    (fs : FeatureSet) (f g : Feature) (head second : ℕ)
    → feature_eq g f ≡ true
    → present_by fs f head second ≡ true
    → present_by fs g head second ≡ true
unfolding present_by
present_by_cong fs f g head second h k = ground (arith, contains_cong fs f g h)

-- Equal features are present together.
pub present_cong :
    (fs : FeatureSet) (f g : Feature)
    → feature_eq g f ≡ true
    → present fs f ≡ true
    → present fs g ≡ true
present_cong fs f g h k =
    let heads = head_index_cong (fields g) (fields f) (unfold feature_eq in h) in
    let tails =
      head_index_cong (tail_fields (fields g)) (tail_fields (fields f))
        (tail_fields_cong (fields g) (fields f) (unfold feature_eq in h)) in
    present-present_by fs g
    ∙ rw (heads, tails) (present_by_cong fs f g _ _ h (sym (present-present_by fs f) ∙ k))
