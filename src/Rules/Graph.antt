-- ===== src/Rules/Graph.antt =====
-- capa-x/src/rules/graph.rs: the rules that a rule depends on, and an order in which dependencies
-- come first. A `HashSet` of names is a list of which only the membership, or the sorted order,
-- is used.
pub mod Order
pub mod Budget
pub mod Termination
pub mod Constructed
pub mod Unique
use capa_x.Prelude.{
  ℕ, zero, suc, String, Bool, Option, none, some, List, [], ◌∷◌, ◌++◌, map, str_eq, any,
  if◌then◌else◌,
}
use capa_x.Prelude.Result.{Result, ok, err, ◌>>=◌}
use capa_x.Prelude.Sort.{str_leb, sort}
use capa_x.Prelude.Text.{before_last}
use capa_x.IndexMap
use capa_x.Engine.Namespaces.{length_text}
use capa_x.Features.{Feature, matched_rule}
use capa_x.Rules.{Node, Statement, NodeList, Rule, node}
use capa_x.Rules.Error.{
  RuleError, text, invalid, invalid_rule_set, duplicate_rule_name, depends_on_missing_rule,
  missing_rule, circular_dependency,
}

-- `HashMap<String, Vec<String>>`
abbrev pub Namespaces : Type 0
Namespaces = List (String × List String)

abbrev pub name_in : String → List String → Bool
name_in name names = any (str_eq name) names

-- `HashSet::insert`
unfoldable pub add_name : List String → String → List String
add_name names name = if name_in name names then names else names ++ name ∷ []

unfoldable pub add_names : List String → List String → List String
add_names names [] = names
add_names names (n ∷ ns) = add_names (add_name names n) ns

-- a namespace takes precedence over a rule of the same name
unfoldable pub register : String → Namespaces → List String → List String
register value namespaces deps = elim (IndexMap.get str_eq value namespaces) [
  | some names ↦ add_names deps names
  | none ↦ add_name deps value
]

unfoldable pub register_feature : Feature → Namespaces → List String → List String
register_feature (matched_rule value) namespaces deps = register value namespaces deps
register_feature _ namespaces deps = deps

unfoldable mutual
  pub walk : Statement → Namespaces → List String → List String
  walk (Statement.leaf feature) namespaces deps = register_feature feature namespaces deps
  walk (Statement.and children) namespaces deps = walk_all children namespaces deps
  walk (Statement.or children) namespaces deps = walk_all children namespaces deps
  walk (Statement.some_of count children) namespaces deps = walk_all children namespaces deps
  walk (Statement.not child) namespaces deps = walk_node child namespaces deps
  walk (Statement.subscope scope body) namespaces deps = walk_node body namespaces deps
  walk (Statement.range feature min max) namespaces deps = register_feature feature namespaces deps

  pub walk_node : Node → Namespaces → List String → List String
  walk_node (node stmt description) namespaces deps = walk stmt namespaces deps

  pub walk_all : NodeList → Namespaces → List String → List String
  walk_all NodeList.nil namespaces deps = deps
  walk_all (NodeList.cons c cs) namespaces deps =
      walk_all cs namespaces (walk_node c namespaces deps)

unfoldable pub get_dependencies : Node → Namespaces → List String
get_dependencies body namespaces = walk_node body namespaces []

-- `namespaces.entry(prefix).or_default().push(name)`
unfoldable pub push_name : String → String → Namespaces → Namespaces
push_name prefix name namespaces =
    IndexMap.entry str_eq prefix (name ∷ []) (λ names. names ++ name ∷ []) namespaces

-- the prefixes of a rule's namespace, up to the first empty one, for as many as there is fuel
unfoldable pub index_prefixes : ℕ → String → String → Namespaces → Namespaces
index_prefixes zero current name namespaces = namespaces
index_prefixes (suc fuel) String.[] name namespaces = namespaces
index_prefixes (suc fuel) (String.◌∷◌ c rest) name namespaces =
    elim (before_last b'/' (String.◌∷◌ c rest)) [
      | some shorter ↦
          index_prefixes fuel shorter name (push_name (String.◌∷◌ c rest) name namespaces)
      | none ↦ push_name (String.◌∷◌ c rest) name namespaces
    ]

abbrev index_rule : Rule → Namespaces → Namespaces
index_rule rule namespaces = elim rule.namespace [
  | none ↦ namespaces
  | some ns ↦ index_prefixes (suc (length_text ns)) ns rule.name namespaces
]

unfoldable pub index_rules : List Rule → Namespaces → Namespaces
index_rules [] namespaces = namespaces
index_rules (rule ∷ rules) namespaces = index_rules rules (index_rule rule namespaces)

unfoldable pub index_rules_by_namespace : List Rule → Namespaces
unfolding index_rules index_prefixes
index_rules_by_namespace rules = index_rules rules []

abbrev pub names_of : List Rule → List String
names_of rules = map (λ rule. rule.name) rules

unfoldable pub unique_from : List Rule → List String → Result RuleError (Unit {0})
unique_from [] seen = ok tt
unique_from (rule ∷ rules) seen =
    let rest = unique_from rules (add_name seen rule.name) in
    if name_in rule.name seen then err (invalid (duplicate_rule_name rule.name)) else rest

unfoldable pub ensure_rules_are_unique : List Rule → Result RuleError (Unit {0})
unfolding unique_from
ensure_rules_are_unique rules = unique_from rules []

-- `deps.sort()` over the set of dependencies
abbrev pub sorted_dependencies : Namespaces → Rule → List String
sorted_dependencies namespaces rule = sort str_leb (get_dependencies rule.body namespaces)

unfoldable pub all_known : List String → String → List String → Result RuleError (Unit {0})
all_known by_name name [] = ok tt
all_known by_name name (dep ∷ deps) =
    let rest = all_known by_name name deps in
    if name_in dep by_name then rest else err (invalid (depends_on_missing_rule name dep))

unfoldable pub dependencies_met : List String → Namespaces → List Rule → Result RuleError (Unit {0})
dependencies_met by_name namespaces [] = ok tt
dependencies_met by_name namespaces (rule ∷ rules) =
    let rest = dependencies_met by_name namespaces rules in
    all_known by_name rule.name (sorted_dependencies namespaces rule) >>= λ _. rest

unfoldable pub ensure_rule_dependencies_are_met :
    List Rule → Namespaces → Result RuleError (Unit {0})
unfolding dependencies_met all_known
ensure_rule_dependencies_are_met rules namespaces =
    dependencies_met (names_of rules) namespaces rules

pub data Mark : Type 0 where
  visiting done : Mark

-- the marks, and the order so far
abbrev pub Walk : Type 0
Walk = List (String × Mark) × List String

abbrev pub set_mark : String → Mark → List (String × Mark) → List (String × Mark)
set_mark name mark marks = IndexMap.entry str_eq name mark (λ old. mark) marks

-- The rules by name and what a rule depends on, in the order of the visits.
module _ (by_name : String → Option Rule) (deps_of : Rule → List String) where
  -- A visit and the visits of a list, for so many nested calls; `none` is the end of the fuel.
  unfoldable pub visit_all : ℕ → List String → Walk → Option (Result RuleError Walk)
  visit_all zero names w = none
  visit_all (suc fuel) [] w = some (ok w)
  visit_all (suc fuel) (name ∷ names) w = elim (IndexMap.get str_eq name w.0) [
    | some Mark.done ↦ visit_all fuel names w
    | some Mark.visiting ↦ some (err (invalid (circular_dependency name)))
    | none ↦ elim (by_name name) [
      | none ↦ some (err (invalid (missing_rule name)))
      | some rule ↦ elim (visit_all fuel (deps_of rule) (set_mark name visiting w.0, w.1)) [
        | none ↦ none
        | some (err e) ↦ some (err e)
        | some (ok v) ↦ visit_all fuel names (set_mark name done v.0, v.1 ++ name ∷ [])
      ]
    ]
  ]

-- the last rule of a name, as collected into a `HashMap`
unfoldable pub by_name : List Rule → String → Option Rule
by_name [] name = none
by_name (rule ∷ rules) name = elim (by_name rules name) [
  | some found ↦ some found
  | none ↦ if str_eq rule.name name then some rule else none
]

abbrev pub order_of : Option (Result RuleError Walk) → Option (Result RuleError (List String))
order_of none = none
order_of (some (ok w)) = some (ok w.1)
order_of (some (err e)) = some (err e)

unfoldable pub topologically_order_rules :
    ℕ → List Rule → Namespaces → Option (Result RuleError (List String))
unfolding visit_all by_name
topologically_order_rules fuel rules namespaces =
    order_of
      (visit_all (by_name rules) (sorted_dependencies namespaces) fuel (names_of rules) ([], []))

pub record RuleSet : Type 0 where
  pub rules : List (String × Rule)
  pub by_namespace_prefix : Namespaces
  -- dependency-first
  pub eval_order : List String

abbrev finish :
    List Rule
    → Namespaces
    → Option (Result RuleError (List String))
    → Option (Result RuleError RuleSet)
finish rules namespaces none = none
finish rules namespaces (some (err e)) = some (err e)
finish rules namespaces (some (ok order)) = some (
    ok (record {
      rules = map (λ rule. (rule.name, rule)) rules;
      by_namespace_prefix = namespaces;
      eval_order = order;
    }))

abbrev not_empty : List Rule → Result RuleError (Unit {0})
not_empty [] = err (invalid_rule_set (text "no rules selected"))
not_empty (rule ∷ rules) = ok tt

-- `RuleSet::new`
unfoldable pub new : ℕ → List Rule → Option (Result RuleError RuleSet)
new fuel rules =
    let namespaces = index_rules_by_namespace rules in
    elim (ensure_rules_are_unique rules >>= λ _.
    not_empty rules >>= λ _. ensure_rule_dependencies_are_met rules namespaces) [
      | err e ↦ some (err e)
      | ok _ ↦ finish rules namespaces (topologically_order_rules fuel rules namespaces)
    ]
