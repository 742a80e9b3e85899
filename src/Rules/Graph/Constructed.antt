-- ===== src/Rules/Graph/Constructed.antt =====
-- `RuleSet::new` of capa-x/src/rules/graph.rs ends.
use capa_x.Prelude.{ℕ, String, Option, none, some, List, ◌<◌, ◌+◌, ◌*◌, length}
use capa_x.Prelude.Result.{Result, ok, err}
use capa_x.Rules.{Rule}
use capa_x.Rules.Error.{RuleError}
use capa_x.Rules.Graph.{Namespaces, finish, index_rules_by_namespace, new}
use capa_x.Rules.Graph.Termination.{
  HasOutcome, topologically_order_rules-HasOutcome, most_dependencies,
}

HasOutcome-finish :
    (rules : List Rule) (namespaces : Namespaces) (o : Option (Result RuleError (List String)))
    → HasOutcome o
    → HasOutcome (finish rules namespaces o)
HasOutcome-finish rules namespaces none h = h
HasOutcome-finish rules namespaces (some (ok order)) h = tt
HasOutcome-finish rules namespaces (some (err e)) h = tt

-- the checks before the visits, and the visits
HasOutcome-guarded :
    {A B : Type 0} (guard : Result RuleError A) (o : Option (Result RuleError B))
    → HasOutcome o
    → HasOutcome (elim guard [ err e ↦ some (err e) | ok a ↦ o ])
HasOutcome-guarded (ok a) o h = h
HasOutcome-guarded (err e) o h = tt

pub new-HasOutcome :
    (fuel : ℕ) (rules : List Rule)
    → length rules * (2 + most_dependencies (index_rules_by_namespace rules) rules) < fuel
    → HasOutcome (new fuel rules)
unfolding new
new-HasOutcome fuel rules h = HasOutcome-guarded _ _ (
    HasOutcome-finish rules (index_rules_by_namespace rules) _
      (topologically_order_rules-HasOutcome fuel rules (index_rules_by_namespace rules) h))
