-- ===== src/Examples/RuleSets.antt =====
-- The theorems on `RuleSet::new` at the example rules.
use capa_x.Prelude.{◌≡◌, ◌≢◌, ◌≤◌, ◌⊎◌, refl, Option, some, List, [], ◌∷◌, String}
use capa_x.Prelude.Result.{Result, ok, err}
use capa_x.Prelude.Sort.{sort, insert_sorted, str_leb}
use capa_x.Prelude.Text.{before_last}
use capa_x.IndexMap.{entry}
use capa_x.Engine.Namespaces.{length_text}
use capa_x.Rules.{Rule}
use capa_x.Rules.Error.{RuleError, invalid, duplicate_rule_name}
use capa_x.Rules.Graph.{
  RuleSet, new, names_of, index_rules_by_namespace, ensure_rules_are_unique, add_name,
  ensure_rule_dependencies_are_met, get_dependencies, walk_node, register_feature, register,
  push_name, add_names, topologically_order_rules,
}
use capa_x.Rules.Graph.Unique.{
  IsUnique, IsClosed, count, ensure_rules_are_unique-IsUnique, new-IsClosed,
}
use capa_x.Examples.{writer, dropper}

abbrev writer_twice : List Rule
writer_twice = writer ∷ dropper ∷ writer ∷ []

ensure_rules_are_unique-IsUnique_example :
    ((ensure_rules_are_unique writer_twice ≡ ok tt) × IsUnique writer_twice)
    ⊎ ((name : String) × ((ensure_rules_are_unique writer_twice
            ≡ err (invalid (duplicate_rule_name name)))
          × (2 ≤ count name writer_twice)))
ensure_rules_are_unique-IsUnique_example = ensure_rules_are_unique-IsUnique writer_twice

abbrev dropper_first : List Rule
dropper_first = dropper ∷ writer ∷ []

abbrev the_rule_set : Option (Result RuleError RuleSet) → RuleSet
the_rule_set (some (ok set)) = set
the_rule_set _ = record { rules = []; by_namespace_prefix = []; eval_order = [] }

accepted : new 7 dropper_first ≡ some (ok (the_rule_set (new 7 dropper_first)))
unfolding new ensure_rules_are_unique add_name ensure_rule_dependencies_are_met sort
    get_dependencies walk_node register_feature register index_rules_by_namespace before_last
    length_text push_name entry add_names insert_sorted topologically_order_rules str_leb
accepted = refl

new-IsClosed_example :
    IsUnique dropper_first
    × ((dropper_first ≢ [])
        × IsClosed (names_of dropper_first) (index_rules_by_namespace dropper_first) dropper_first)
new-IsClosed_example = new-IsClosed 7 dropper_first (the_rule_set (new 7 dropper_first)) accepted
