-- ===== src/Examples/Data.antt =====
-- The theorems on addresses, features and feature sets at concrete values.
use capa_x.Prelude.{◌≡◌, ◌↔◌, refl, true, Ordering, [], ◌∷◌}
use capa_x.Ordered.{swap}
use capa_x.Address.{cmp, absolute, dn_token_offset}
use capa_x.Address.Order.{cmp_total, address_ord}
use capa_x.Features.{api, number, feature_eq, fields, fields_eq, field_eq}
use capa_x.Features.Number.{int, float, number_eq}
use capa_x.Features.Equality.{feature_eq_trans}
use capa_x.Prelude.Int.{pos}
use capa_x.Engine.FeatureSet.{FeatureSet, merge, merge_owned}
use capa_x.Engine.Merge.{HasSortedSets, merge_owned-merge}
use capa_x.Engine.Namespaces.{rule_namespaces, ancestors, rule_namespaces-ancestors}
use capa_x.Examples.{some_features}

cmp_total_example :
    ((cmp (absolute 7) (dn_token_offset 7 0) ≡ Ordering.eq) ↔ (absolute 7 ≡ dn_token_offset 7 0))
    × (cmp (dn_token_offset 7 0) (absolute 7) ≡ swap (cmp (absolute 7) (dn_token_offset 7 0)))
cmp_total_example = cmp_total (absolute 7) (dn_token_offset 7 0)

three_as_int_and_float :
    feature_eq (number (int (pos 3))) (number (float 4613937818241073152)) ≡ true
unfolding feature_eq fields fields_eq field_eq number_eq
three_as_int_and_float = refl

three_as_float_and_int :
    feature_eq (number (float 4613937818241073152)) (number (int (pos 3))) ≡ true
unfolding feature_eq fields fields_eq field_eq number_eq
three_as_float_and_int = refl

feature_eq_trans_example : feature_eq (number (int (pos 3))) (number (int (pos 3))) ≡ true
feature_eq_trans_example =
    feature_eq_trans (number (int (pos 3))) (number (float 4613937818241073152))
      (number (int (pos 3))) three_as_int_and_float three_as_float_and_int

rule_namespaces-ancestors_example :
    rule_namespaces "host/file/write" ≡ "host/file/write" ∷ ancestors "host/file/write"
rule_namespaces-ancestors_example = rule_namespaces-ancestors "host/file/write"

abbrev child_features : FeatureSet
child_features =
    (api "WriteFile", absolute 4100 ∷ absolute 5000 ∷ []) ∷ (api "ReadFile", absolute 9 ∷ []) ∷ []

before_5000 : cmp (absolute 4100) (absolute 5000) ≡ Ordering.lt
unfolding cmp
before_5000 = refl

child-HasSortedSets : HasSortedSets child_features
child-HasSortedSets = (((before_5000, tt), (tt, tt)), ((tt, tt), tt))

merge_owned-merge_example :
    merge_owned some_features child_features ≡ merge some_features child_features
merge_owned-merge_example = merge_owned-merge some_features child_features child-HasSortedSets
