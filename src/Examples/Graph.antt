-- ===== src/Examples/Graph.antt =====
-- The theorems on the rule graph at the example rules, the dependent rule first.
use capa_x.Prelude.{◌≡◌, refl, some, List, [], ◌∷◌, String, arith}
use capa_x.Prelude.Result.{ok}
use capa_x.Prelude.Sort.{sort, insert_sorted, str_leb}
use capa_x.IndexMap.{entry}
use capa_x.Rules.{Rule}
use capa_x.Rules.Graph.{
  Namespaces, by_name, sorted_dependencies, names_of, topologically_order_rules, visit_all,
  get_dependencies, walk, register_feature, register, add_name, add_names,
}
use capa_x.Rules.Graph.Order.{DependenciesFirst, AllIn, topologically_order_rules-DependenciesFirst}
use capa_x.Rules.Graph.Termination.{
  HasOutcome, most_dependencies, topologically_order_rules-HasOutcome,
}
use capa_x.Examples.{writer, dropper}

abbrev dependent_first : List Rule
dependent_first = dropper ∷ writer ∷ []

abbrev prefixes : Namespaces
prefixes = ("host/file/write", "write file" ∷ []) ∷ ("host/file", "write file" ∷ []) ∷ []

abbrev dependencies_first : List String
dependencies_first = "write file" ∷ "drop file" ∷ []

order_is : topologically_order_rules 7 dependent_first prefixes ≡ some (ok dependencies_first)
unfolding topologically_order_rules visit_all by_name get_dependencies walk register_feature
    register add_name add_names sort insert_sorted str_leb entry
order_is = refl

most_is : most_dependencies prefixes dependent_first ≡ 1
unfolding get_dependencies walk register_feature register add_name add_names sort insert_sorted
    str_leb entry
most_is = refl

topologically_order_rules-DependenciesFirst_example :
    DependenciesFirst (by_name dependent_first) (sorted_dependencies prefixes) [] dependencies_first
    × AllIn (names_of dependent_first) dependencies_first
topologically_order_rules-DependenciesFirst_example =
    topologically_order_rules-DependenciesFirst 7 dependent_first prefixes dependencies_first
      order_is

topologically_order_rules-HasOutcome_example :
    HasOutcome (topologically_order_rules 7 dependent_first prefixes)
topologically_order_rules-HasOutcome_example =
    topologically_order_rules-HasOutcome 7 dependent_first prefixes (omega (arith, most_is))
