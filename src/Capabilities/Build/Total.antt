-- ===== src/Capabilities/Build/Total.antt =====
-- `MatchingRuleSet::new` of capa-x/src/capabilities/ruleset.rs ends.
use capa_x.Prelude.{String, Option, none, some, List, [], ◌∷◌, arith}
use capa_x.Prelude.Result.{Result, ok, err}
use capa_x.Rules.{Rule}
use capa_x.Rules.Error.{RuleError}
use capa_x.Rules.Graph
use capa_x.Rules.Graph.{Namespaces, index_rules_by_namespace}
use capa_x.Rules.Graph.Constructed
use capa_x.Rules.Graph.Termination.{HasOutcome}
use capa_x.Scope.{Scope}
use capa_x.Features.{ComKind}
use capa_x.Capabilities.Com.{ComDatabase}
use capa_x.Capabilities.Matching.{MatchingRuleSet}
use capa_x.Capabilities.Build.{
  ordered, restricted, rules_for_scope, with_order, orders, assembled, build, built, checked, new,
  match_order, enough_checks,
}
use capa_x.Capabilities.Build.Walks.{closure_all-HasOutcome, topo_sort_subset-HasOutcome}
use capa_x.Capabilities.Build.Weights.{expand_and_extract-HasOutcome}

module _ (rules : List Rule) (namespaces : Namespaces) where
  HasOutcome-ordered :
      (names : Option (List String))
      → HasOutcome names
      → HasOutcome (ordered rules namespaces names)
  HasOutcome-ordered none h = h
  HasOutcome-ordered (some names) h = topo_sort_subset-HasOutcome rules namespaces names

  HasOutcome-restricted :
      (scope : Scope) (names : Option (List String))
      → HasOutcome names
      → HasOutcome (restricted rules scope names)
  HasOutcome-restricted scope none h = h
  HasOutcome-restricted scope (some names) h = tt

  rules_for_scope-HasOutcome : (scope : Scope) → HasOutcome (rules_for_scope rules namespaces scope)
  unfolding rules_for_scope
  rules_for_scope-HasOutcome scope =
      HasOutcome-restricted scope _
        (HasOutcome-ordered _ (closure_all-HasOutcome rules namespaces _))

  HasOutcome-with_order :
      (scope : Scope) (names : Option (List String)) (rest : Option (List (Scope × List String)))
      → HasOutcome names
      → HasOutcome rest
      → HasOutcome (with_order scope names rest)
  HasOutcome-with_order scope none rest h k = h
  HasOutcome-with_order scope (some names) none h k = k
  HasOutcome-with_order scope (some names) (some rest) h k = tt

  orders-HasOutcome : (scopes : List Scope) → HasOutcome (orders rules namespaces scopes)
  unfolding orders
  orders-HasOutcome [] = tt
  orders-HasOutcome (scope ∷ scopes) =
      HasOutcome-with_order scope _ _ (rules_for_scope-HasOutcome scope) (orders-HasOutcome scopes)

  HasOutcome-assembled :
      (by_scope : Option (List (Scope × List String)))
      → HasOutcome by_scope
      → HasOutcome (assembled rules namespaces by_scope)
  HasOutcome-assembled none h = h
  HasOutcome-assembled (some by_scope) h = tt

build-HasOutcome : (rules : List Rule) → HasOutcome (build rules)
unfolding build
build-HasOutcome rules =
    HasOutcome-assembled rules (index_rules_by_namespace rules) _
      (orders-HasOutcome rules (index_rules_by_namespace rules) match_order)

HasOutcome-built : (o : Option (Result RuleError (List Rule))) → HasOutcome o → HasOutcome (built o)
HasOutcome-built none h = h
HasOutcome-built (some (err e)) h = tt
HasOutcome-built (some (ok rules)) h = build-HasOutcome rules

HasOutcome-checked :
    (o : Option (Result RuleError Graph.RuleSet)) (next : Option (Result RuleError MatchingRuleSet))
    → HasOutcome o
    → HasOutcome next
    → HasOutcome (checked o next)
HasOutcome-checked none next h k = h
HasOutcome-checked (some (err e)) next h k = tt
HasOutcome-checked (some (ok rule_set)) next h k = k

-- The construction of the matcher ends for every list of rules, with a set or an error: the checks,
-- the expansion, the closure and the sort of every scope have the fuel they need.
pub new-HasOutcome :
    (database : ComKind → ComDatabase) (rules : List Rule) → HasOutcome (new database rules)
unfolding new
new-HasOutcome database rules =
    HasOutcome-checked _ _ (Constructed.new-HasOutcome (enough_checks rules) rules (omega arith))
      (HasOutcome-built _ (expand_and_extract-HasOutcome database rules))
