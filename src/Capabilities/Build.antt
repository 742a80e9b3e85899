-- ===== src/Capabilities/Build.antt =====
-- `MatchingRuleSet::new` of capa-x/src/capabilities/ruleset.rs: the rules are checked, expanded and
-- extracted, and every scope gets an order of its rules and an index of them.
pub mod Lookup
pub mod Sorted
pub mod Ordered
pub mod Presented
pub mod Scoped
pub mod Ranked
pub mod Indexed
pub mod Walks
pub mod Weights
pub mod Total
use capa_x.Rules.Graph.Termination.{most_dependencies}
use capa_x.Rules.{Statement, NodeList}
use capa_x.Prelude.{
  length, ◌+◌, ◌*◌, ℕ, zero, suc, String, Bool, true, false, Option, none, some, List, [], ◌∷◌,
  ◌++◌, map, str_eq, if◌then◌else◌,
}
use capa_x.Prelude.Result.{Result, ok, err}
use capa_x.Prelude.Sort.{str_leb, sort}
use capa_x.IndexMap
use capa_x.Features.{ComKind}
use capa_x.Scope.{
  Scope, scopes_contains, process, thread, span_of_calls, call, instruction, basic_block, function,
  file,
}
use capa_x.Rules.{Node, Rule, node, node_stmt, node_description, is_subscope_rule}
use capa_x.Rules.Error.{RuleError}
use capa_x.Rules.Graph
use capa_x.Rules.Graph.{
  Namespaces, name_in, add_name, by_name, sorted_dependencies, index_rules_by_namespace,
}
use capa_x.Capabilities.Com.{ComDatabase}
use capa_x.Capabilities.Extract.{expand_com, extract_children, subscope_rule}
use capa_x.Capabilities.Optimize.{optimize_node}
use capa_x.Capabilities.Index
use capa_x.Capabilities.Matching.{MatchingRuleSet}

abbrev pub match_order : List Scope
match_order =
    call ∷ span_of_calls ∷ thread ∷ process ∷ instruction ∷ basic_block ∷ function ∷ file ∷ []

abbrev pub with_body : Rule → Node → Rule
with_body rule body = record rule { body = body }

-- pushes the rules of what was lifted out; the last one is on top
unfoldable pub push_extracted : String → List (String × (Scope × Node)) → List Rule → List Rule
push_extracted parent [] stack = stack
push_extracted parent ((name, (scope, body)) ∷ extracted) stack =
    push_extracted parent extracted (subscope_rule name scope body parent ∷ stack)

module _ (database : ComKind → ComDatabase) where
  -- The stack with its top first, and the rules that are done; `none` is the end of the fuel.
  unfoldable pub extract_loop : ℕ → List Rule → List Rule → Option (Result RuleError (List Rule))
  extract_loop zero stack done = none
  extract_loop (suc fuel) [] done = some (ok done)
  extract_loop (suc fuel) (rule ∷ stack) done = elim (expand_com database (node_stmt rule.body)) [
    | err e ↦ some (err e)
    | ok expanded ↦
        let r = extract_children expanded rule.name (0, []) in
        extract_loop fuel (push_extracted rule.name r.1.1 stack)
          (done ++ with_body rule (node r.0 (node_description rule.body)) ∷ [])
  ]

abbrev pub optimize_rule : Rule → Rule
optimize_rule rule = with_body rule (optimize_node rule.body)

-- The number of subscopes in a body, and of the rules that a list of rules becomes.
unfoldable mutual
  pub subscopes : Statement → ℕ
  subscopes (Statement.and children) = all_subscopes children
  subscopes (Statement.or children) = all_subscopes children
  subscopes (Statement.some_of count children) = all_subscopes children
  subscopes (Statement.not child) = node_subscopes child
  subscopes (Statement.subscope scope body) = suc (node_subscopes body)
  subscopes (Statement.range feature min max) = 0
  subscopes (Statement.leaf feature) = 0

  pub node_subscopes : Node → ℕ
  node_subscopes (node stmt description) = subscopes stmt

  pub all_subscopes : NodeList → ℕ
  all_subscopes NodeList.nil = 0
  all_subscopes (NodeList.cons c cs) = node_subscopes c + all_subscopes cs

abbrev pub weight : List Rule → ℕ
weight [] = 0
weight (rule ∷ rules) = suc (node_subscopes rule.body) + weight rules

abbrev pub optimized : Option (Result RuleError (List Rule)) → Option (Result RuleError (List Rule))
optimized none = none
optimized (some (err e)) = some (err e)
optimized (some (ok rules)) = some (ok (map optimize_rule rules))

-- `Vec::pop` takes the last rule first
abbrev pub reversed : List Rule → List Rule → List Rule
reversed [] acc = acc
reversed (r ∷ rs) acc = reversed rs (r ∷ acc)

unfoldable pub expand_and_extract :
    (ComKind → ComDatabase) → List Rule → Option (Result RuleError (List Rule))
unfolding extract_loop
expand_and_extract database rules =
    optimized (extract_loop database (suc (weight rules)) (reversed rules []) [])

-- The walks over dependencies: each visit in its turn, for so many nested calls.
module _ (deps_of : String → List String) where
  -- `transitive_closure` from each name
  unfoldable pub closure_all : ℕ → List String → List String → Option (List String)
  closure_all zero names out = none
  closure_all (suc fuel) [] out = some out
  closure_all (suc fuel) (name ∷ names) out = elim (name_in name out) [
    | true ↦ closure_all fuel names out
    | false ↦ elim (closure_all fuel (deps_of name) (add_name out name)) [
      | none ↦ none
      | some reached ↦ closure_all fuel names reached
    ]
  ]

  -- the names that were seen, and the order so far
  unfoldable pub sort_all :
      ℕ → List String → List String × List String → Option (List String × List String)
  sort_all zero names w = none
  sort_all (suc fuel) [] w = some w
  sort_all (suc fuel) (name ∷ names) w = elim (name_in name w.0) [
    | true ↦ sort_all fuel names w
    | false ↦ elim (sort_all fuel (deps_of name) (add_name w.0 name, w.1)) [
      | none ↦ none
      | some v ↦ sort_all fuel names (v.0, v.1 ++ name ∷ [])
    ]
  ]

  unfoldable pub topo_sort_subset : ℕ → List String → Option (List String)
  unfolding sort_all
  topo_sort_subset fuel names = elim (sort_all fuel (sort str_leb names) ([], [])) [
    | none ↦ none
    | some w ↦ some w.1
  ]

abbrev pub dependencies_or_none : Namespaces → Option Rule → List String
dependencies_or_none namespaces none = []
dependencies_or_none namespaces (some rule) = sorted_dependencies namespaces rule

abbrev pub dependencies_in : List Rule → Namespaces → String → List String
dependencies_in rules namespaces name = dependencies_or_none namespaces (by_name rules name)

-- the names that are not of a rule made from a subscope
unfoldable pub top_names : List Rule → List String
top_names [] = []
top_names (rule ∷ rules) =
    let rest = top_names rules in if is_subscope_rule rule then rest else rule.name ∷ rest

abbrev pub found_in_scope : Scope → Option Rule → Bool
found_in_scope scope none = false
found_in_scope scope (some rule) = scopes_contains rule.scopes scope

unfoldable pub names_in_scope : List Rule → Scope → List String → List String
names_in_scope rules scope [] = []
names_in_scope rules scope (name ∷ names) =
    let rest = names_in_scope rules scope names in
    if found_in_scope scope (by_name rules name) then name ∷ rest else rest

-- as many visits as there can be: of the names, and of what each rule depends on
abbrev pub enough_visits : List Rule → Namespaces → List String → ℕ
enough_visits rules namespaces names =
    suc (length names + length rules * suc (most_dependencies namespaces rules))

abbrev pub ordered : List Rule → Namespaces → Option (List String) → Option (List String)
ordered rules namespaces none = none
ordered rules namespaces (some names) =
    topo_sort_subset (dependencies_in rules namespaces) (enough_visits rules namespaces names) names

abbrev pub restricted : List Rule → Scope → Option (List String) → Option (List String)
restricted rules scope none = none
restricted rules scope (some order) = some (names_in_scope rules scope order)

unfoldable pub rules_for_scope : List Rule → Namespaces → Scope → Option (List String)
unfolding closure_all topo_sort_subset
rules_for_scope rules namespaces scope = restricted rules scope (
    ordered rules namespaces (
      closure_all (dependencies_in rules namespaces)
        (enough_visits rules namespaces (top_names rules)) (top_names rules) []))

abbrev pub with_order :
    Scope
    → Option (List String)
    → Option (List (Scope × List String))
    → Option (List (Scope × List String))
with_order scope (some names) (some rest) = some ((scope, names) ∷ rest)
with_order scope _ _ = none

unfoldable pub orders : List Rule → Namespaces → List Scope → Option (List (Scope × List String))
unfolding rules_for_scope
orders rules namespaces [] = some []
orders rules namespaces (scope ∷ scopes) =
    with_order scope (rules_for_scope rules namespaces scope) (orders rules namespaces scopes)

-- `names.iter().filter_map(|name| by_name.get(name))`
unfoldable pub rules_named : List Rule → List String → List Rule
rules_named rules [] = []
rules_named rules (name ∷ names) =
    let rest = rules_named rules names in
    elim (by_name rules name) [ none ↦ rest | some r ↦ r ∷ rest ]

unfoldable pub index_orders :
    List Rule → List (Scope × List String) → List (Scope × Index.RuleFeatureIndex)
index_orders rules [] = []
index_orders rules ((scope, names) ∷ rest) =
    (scope, Index.new (rules_named rules names)) ∷ index_orders rules rest

-- `rules.into_iter().map(|r| (r.name.clone(), r)).collect()`: a later rule replaces an earlier one
unfoldable pub rules_by_name : List Rule → List (String × Rule) → List (String × Rule)
rules_by_name [] m = m
rules_by_name (rule ∷ rules) m =
    rules_by_name rules (IndexMap.entry str_eq rule.name rule (λ old. rule) m)

abbrev pub set_of : List Rule → Namespaces → List (Scope × List String) → MatchingRuleSet
set_of rules namespaces by_scope = record {
  rules = rules_by_name rules [];
  rules_by_scope = by_scope;
  indexes = index_orders rules by_scope;
  by_namespace_prefix = namespaces;
}

abbrev pub assembled :
    List Rule
    → Namespaces
    → Option (List (Scope × List String))
    → Option (Result RuleError MatchingRuleSet)
assembled rules namespaces none = none
assembled rules namespaces (some by_scope) = some (ok (set_of rules namespaces by_scope))

unfoldable pub build : List Rule → Option (Result RuleError MatchingRuleSet)
unfolding orders
build rules =
    let namespaces = index_rules_by_namespace rules in
    assembled rules namespaces (orders rules namespaces match_order)

abbrev pub built : Option (Result RuleError (List Rule)) → Option (Result RuleError MatchingRuleSet)
built none = none
built (some (err e)) = some (err e)
built (some (ok rules)) = build rules

-- the set of the checked rules is dropped: only its errors matter
abbrev pub checked :
    Option (Result RuleError Graph.RuleSet)
    → Option (Result RuleError MatchingRuleSet)
    → Option (Result RuleError MatchingRuleSet)
checked none next = none
checked (some (err e)) next = some (err e)
checked (some (ok rule_set)) next = next

-- as many visits as the check of the rules can take
abbrev pub enough_checks : List Rule → ℕ
enough_checks rules =
    suc (length rules * (2 + most_dependencies (index_rules_by_namespace rules) rules))

unfoldable pub new : (ComKind → ComDatabase) → List Rule → Option (Result RuleError MatchingRuleSet)
unfolding expand_and_extract
new database rules =
    checked (Graph.new (enough_checks rules) rules) (built (expand_and_extract database rules))
