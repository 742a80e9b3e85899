-- ===== src/Examples/Building.antt =====
-- The construction of the matcher at the example rules.
use capa_x.Rules.{Rule}
use capa_x.Prelude.{◌≡◌, refl, Option, some, List}
use capa_x.Prelude.Result.{Result, ok}
use capa_x.Rules.Error.{RuleError}
use capa_x.Scope.{function}
use capa_x.Capabilities.Matching.{MatchingRuleSet}
use capa_x.Capabilities.Matching.Exhaustive.{IsIndexed}
use capa_x.Capabilities.Build.{new}
use capa_x.Rules.Graph
use capa_x.Rules.Graph.{
  ensure_rules_are_unique, add_name, ensure_rule_dependencies_are_met, get_dependencies, walk_node,
  register_feature, register, index_rules_by_namespace, push_name, add_names,
  topologically_order_rules, all_known, by_name, dependencies_met, index_prefixes, index_rules,
  unique_from, visit_all,
}
use capa_x.Prelude.Sort.{sort, insert_sorted, str_leb}
use capa_x.Prelude.Text.{before_last}
use capa_x.Engine.Namespaces.{length_text}
use capa_x.IndexMap.{entry}
use capa_x.Capabilities.Build.{
  build, closure_all, expand_and_extract, extract_loop, names_in_scope, node_subscopes, orders,
  push_extracted, rules_for_scope, sort_all, top_names, topo_sort_subset,
}
use capa_x.Capabilities.Com.{guid_leaves, translate_com_feature}
use capa_x.Capabilities.Extract.{expand_com, extract_children}
use capa_x.Capabilities.Optimize.{optimize_node, insert_by_cost, node_cost, feature_cost}
use capa_x.Rules.{is_subscope_rule}
use capa_x.Scope.{scopes_contains}
use capa_x.Capabilities.Build.Presented.{AreRanked, new-DependenciesBefore}
use capa_x.Capabilities.Build.Scoped.{DependenciesBefore}
use capa_x.Prelude.{ℕ, str_eq, ◌||◌, if◌then◌else◌, arith}
use capa_x.Capabilities.Build.Total.{new-HasOutcome}
use capa_x.Rules.Graph.Termination.{HasOutcome}
use capa_x.Examples.{two_rule_set, List, Rule, two_rules}
use capa_x.Examples.Preparation.{one_class, looping_call}
use capa_x.Examples.{rule_of, one}
use capa_x.Features.{api}
use capa_x.Capabilities.Extract.{digits, subscope_rule}
use capa_x.Rules.{Statement, NodeList, node}
use capa_x.Rules.Graph.{names_of}
use capa_x.Prelude.{String, [], ◌∷◌, none}

-- its subscope becomes a rule of basic blocks
abbrev looping : Rule
looping = rule_of "loop" none (
    node
      (Statement.and (NodeList.cons looping_call (NodeList.cons (one (api "Sleep")) NodeList.nil)))
      none)

abbrev three_rules : List Rule
three_rules = looping ∷ two_rules

abbrev the_set : Option (Result RuleError MatchingRuleSet) → MatchingRuleSet
the_set (some (ok set)) = set
the_set _ = two_rule_set

abbrev built_set : MatchingRuleSet
built_set = the_set (new one_class three_rules)

built_set_is : new one_class three_rules ≡ some (ok built_set)
unfolding new Graph.new ensure_rules_are_unique add_name ensure_rule_dependencies_are_met sort
    get_dependencies walk_node register_feature register index_rules_by_namespace before_last
    length_text push_name entry add_names insert_sorted topologically_order_rules build closure_all
    expand_and_extract extract_loop names_in_scope node_subscopes orders push_extracted
    rules_for_scope sort_all top_names topo_sort_subset guid_leaves translate_com_feature expand_com
    extract_children optimize_node insert_by_cost node_cost feature_cost str_leb all_known by_name
    dependencies_met index_prefixes index_rules unique_from visit_all is_subscope_rule
    scopes_contains digits subscope_rule
built_set_is = refl

abbrev rules_or_none : Option (Result RuleError (List Rule)) → List Rule
rules_or_none (some (ok rules)) = rules
rules_or_none _ = []

abbrev expanded_rules : List Rule
expanded_rules = rules_or_none (expand_and_extract one_class three_rules)

expanded_rules_are : expand_and_extract one_class three_rules ≡ some (ok expanded_rules)
unfolding expand_and_extract extract_loop push_extracted node_subscopes guid_leaves
    translate_com_feature expand_com extract_children digits subscope_rule
expanded_rules_are = refl

-- a rule that others depend on, and these
abbrev rank_of : String → ℕ
rank_of name = if str_eq name "write file" || str_eq name "loop/1" then 0 else 1

expanded_rules-AreRanked :
    AreRanked rank_of expanded_rules (index_rules_by_namespace expanded_rules)
unfolding expand_and_extract extract_loop push_extracted node_subscopes guid_leaves
    translate_com_feature expand_com extract_children digits subscope_rule sort insert_sorted
    get_dependencies walk_node register_feature register index_rules_by_namespace before_last
    length_text push_name entry add_names add_name str_leb index_prefixes index_rules optimize_node
    insert_by_cost node_cost feature_cost is_subscope_rule
expanded_rules-AreRanked = ((omega arith, tt), (tt, ((omega arith, tt), (tt, tt))))

new-DependenciesBefore_example :
    (scope_rules : List Rule) × (IsIndexed built_set function scope_rules
      × DependenciesBefore expanded_rules
          (index_rules_by_namespace expanded_rules)
          function
          []
          scope_rules)
new-DependenciesBefore_example =
    new-DependenciesBefore one_class three_rules built_set function expanded_rules rank_of refl
      built_set_is expanded_rules_are expanded_rules-AreRanked

new-HasOutcome_example : HasOutcome (new one_class two_rules)
new-HasOutcome_example = new-HasOutcome one_class two_rules

-- A rule whose subscope is lifted out under a name that another rule has already: both stay in the
-- list, and the map of the rules by name keeps the last one, which is the lifted one.
abbrev namesake : Rule
namesake = rule_of "loop/1" none (one (api "Beep"))

abbrev names_or_none : Option (Result RuleError (List Rule)) → List String
names_or_none (some (ok rules)) = names_of rules
names_or_none _ = []

names_are_unique : ensure_rules_are_unique (looping ∷ namesake ∷ []) ≡ ok tt
unfolding ensure_rules_are_unique unique_from add_name
names_are_unique = refl

names_collide :
    names_or_none (expand_and_extract one_class (looping ∷ namesake ∷ []))
    ≡ "loop/1" ∷ "loop" ∷ "loop/1" ∷ []
unfolding expand_and_extract extract_loop push_extracted node_subscopes guid_leaves
    translate_com_feature expand_com extract_children digits subscope_rule
names_collide = refl
