-- ===== src/Capabilities/Matcher.antt =====
-- What the drivers use of `MatchingRuleSet` of capa-x/src/capabilities/ruleset.rs, and that a set
-- of rules provides it.
use capa_x.Prelude.{ℕ, suc, String, Option, none, some, List, length, str_eq, arith}
use capa_x.Prelude.Result.{Result, map_ok}
use capa_x.IndexMap
use capa_x.Address.{Address}
use capa_x.Scope.{Scope}
use capa_x.Rules.{Rule}
use capa_x.Features.Regex.{RegexCrates}
use capa_x.Engine.FeatureSet.{FeatureSet}
use capa_x.Engine.MatchResult.{EngineError}
use capa_x.Rules.Graph.Termination.{HasOutcome}
use capa_x.Capabilities.Matching.{MatchingRuleSet, MatchResults, match_scope}
use capa_x.Capabilities.Matching.Exhaustive.{Presents, presented}
use capa_x.Capabilities.Matching.Total.{match_scope-presented-HasOutcome}

-- The drivers read the rules by name, and match the rules of a scope.
pub record Matcher : Type 0 where
  pub get : String → Option Rule
  pub by_namespace_prefix : List (String × List String)
  pub match_scope_results : Scope → FeatureSet → Address → Result EngineError MatchResults

abbrev pub outcome_of : {A : Type 0} → (o : Option A) → HasOutcome o → A
outcome_of none h = absurd h
outcome_of (some a) h = a

module _ (crates : RegexCrates) (set : MatchingRuleSet)
    (presents : (scope : Scope) → Presents set scope) where
  -- more rounds than the scope has rules
  abbrev rounds : Scope → ℕ
  rounds scope = suc (length (presented (presents scope)))

  abbrev pub match_scope_results_of : Scope → FeatureSet → Address → Result EngineError MatchResults
  match_scope_results_of scope fs addr =
      map_ok (λ matched. matched.1)
        (outcome_of (match_scope crates (rounds scope) set scope fs addr) (
          match_scope-presented-HasOutcome crates set scope (presents scope) fs addr (rounds scope)
            (omega arith)))

  abbrev pub matcher : Matcher
  matcher = record {
    get = λ name. IndexMap.get str_eq name set.rules;
    by_namespace_prefix = set.by_namespace_prefix;
    match_scope_results = match_scope_results_of;
  }
