-- ===== src/Capabilities/Matching.antt =====
-- `MatchingRuleSet::match_scope` of capa-x/src/capabilities/ruleset.rs.
pub mod Published
pub mod Ready
pub mod Exhaustive
pub mod Total
use capa_x.Prelude.{
  ℕ, zero, suc, String, Bool, true, false, Option, none, some, List, [], ◌∷◌, ◌++◌, get_elem?, drop,
  length, str_eq,
}
use capa_x.Prelude.Result.{Result, ok, err}
use capa_x.IndexMap
use capa_x.Address.{Address}
use capa_x.Features.{Feature, feature_eq}
use capa_x.Features.Regex.{RegexCrates}
use capa_x.Scope.{Scope, scope_eq}
use capa_x.Rules.{Rule}
use capa_x.Engine.FeatureSet.{FeatureSet}
use capa_x.Engine.MatchResult.{MatchResult, EngineError}
use capa_x.Engine.Evaluate.{evaluate}
use capa_x.Engine.Boolean.{evaluate_boolean}
use capa_x.Engine.Namespaces.{index_rule_matches}
use capa_x.Capabilities.Index.{RuleFeatureIndex, candidates, activate}

-- The maps are association lists: only lookups in them matter here.
pub record MatchingRuleSet : Type 0 where
  pub rules : List (String × Rule)
  pub rules_by_scope : List (Scope × List String)
  pub indexes : List (Scope × RuleFeatureIndex)
  pub by_namespace_prefix : List (String × List String)

-- `HashMap<String, Vec<(Address, MatchResult)>>`
abbrev pub MatchResults : Type 0
MatchResults = List (String × List (Address × MatchResult))

abbrev pub Matched : Type 0
Matched = Result EngineError (FeatureSet × MatchResults)

abbrev pub push_result : String → Address × MatchResult → MatchResults → MatchResults
push_result name hit results =
    IndexMap.entry str_eq name (hit ∷ []) (λ hits. hits ++ hit ∷ []) results

abbrev pub rule_named : MatchingRuleSet → Option String → Option Rule
rule_named set none = none
rule_named set (some name) = IndexMap.get str_eq name set.rules

abbrev pub name_at : Option (List String) → ℕ → Option String
name_at none position = none
name_at (some names) position = get_elem? names position

-- the rule at a position of the scope's order
unfoldable pub rule_at : MatchingRuleSet → Scope → ℕ → Option Rule
rule_at set scope position =
    rule_named set (name_at (IndexMap.get scope_eq scope set.rules_by_scope) position)

-- `features.keys().skip(previous_len)`
abbrev pub new_keys : FeatureSet → FeatureSet → List Feature
new_keys before after = drop (length before) (IndexMap.keys feature_eq after)

-- The loop over the candidates. `none` is the end of the fuel, which is not an outcome of the code.
module _ (crates : RegexCrates) (at : ℕ → Option Rule) (index : RuleFeatureIndex)
    (addr : Address) where
  unfoldable pub match_loop : ℕ → List ℕ → FeatureSet → MatchResults → Option Matched
  match_loop zero waiting features results = none
  match_loop (suc fuel) [] features results = some (ok (features, results))
  match_loop (suc fuel) (position ∷ waiting) features results = elim (at position) [
    | none ↦ match_loop fuel waiting features results
    | some rule ↦ elim (evaluate_boolean crates rule.body features) [
      | err e ↦ some (err e)
      | ok false ↦ match_loop fuel waiting features results
      | ok true ↦ elim (evaluate crates rule.body features false) [
        | err e ↦ some (err e)
        | ok full ↦
            let published = index_rule_matches features rule (addr ∷ []) in
            match_loop fuel (activate index position (new_keys features published) waiting)
              published (push_result rule.name (addr, full) results)
      ]
    ]
  ]

abbrev pub match_indexed :
    RegexCrates
    → ℕ
    → MatchingRuleSet
    → Scope
    → FeatureSet
    → Address
    → Option RuleFeatureIndex
    → Option Matched
match_indexed crates fuel set scope features addr none = some (ok (features, []))
match_indexed crates fuel set scope features addr (some index) =
    match_loop crates (rule_at set scope) index addr fuel
      (candidates index (IndexMap.keys feature_eq features)) features []

-- `match_scope`, for so many rounds of its loop
unfoldable pub match_scope :
    RegexCrates → ℕ → MatchingRuleSet → Scope → FeatureSet → Address → Option Matched
unfolding match_loop rule_at
match_scope crates fuel set scope features addr =
    match_indexed crates fuel set scope features addr (IndexMap.get scope_eq scope set.indexes)

-- The reference: every rule of the scope in its order, with no index, as `capa.engine.match` does.
module _ (crates : RegexCrates) (addr : Address) where
  unfoldable pub match_all : List Rule → FeatureSet → MatchResults → Matched
  match_all [] features results = ok (features, results)
  match_all (rule ∷ rules) features results = elim (evaluate_boolean crates rule.body features) [
    | err e ↦ err e
    | ok false ↦ match_all rules features results
    | ok true ↦ elim (evaluate crates rule.body features false) [
      | err e ↦ err e
      | ok full ↦
          match_all rules (index_rule_matches features rule (addr ∷ []))
            (push_result rule.name (addr, full) results)
    ]
  ]
