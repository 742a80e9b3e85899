-- ===== src/Engine/Evaluate.antt =====
-- `evaluate` and `evaluate_boolean` of capa-x/src/engine.rs.
use capa_x.Prelude.{ℕ, ◌+◌, ◌%◌, String, Bool, true, false, not, Option, leb, u32_mod, []}
use capa_x.Prelude.Result.{Result, ok, err, ◌>>=◌}
use capa_x.Features.Regex.{RegexCrates}
use capa_x.Rules.{Node, Statement, NodeList, node}
use capa_x.Engine.FeatureSet.{FeatureSet}
use capa_x.Engine.MatchResult.{
  MatchedNode, MatchResult, ResultList, match_result, EngineError, unextracted_subscope, success,
  push, all_success, any_success, count_success,
}
use capa_x.Engine.Leaves.{eval_range, eval_leaf}

-- the result of a structural statement: its locations stand on the leaves
abbrev pub structural : MatchedNode → Option String → ResultList → Bool → MatchResult
structural matched description results success =
    match_result success matched description [] results []

-- `satisfied += 1` on a `u32`
abbrev pub bump : Bool → ℕ → ℕ
bump true satisfied = (satisfied + 1) % u32_mod
bump false satisfied = satisfied

unfoldable mutual
  pub evaluate : RegexCrates → Node → FeatureSet → Bool → Result EngineError MatchResult
  evaluate crates (node stmt description) fs short_circuit =
      eval_statement crates stmt fs short_circuit description

  pub eval_statement :
      RegexCrates → Statement → FeatureSet → Bool → Option String → Result EngineError MatchResult
  eval_statement crates (Statement.and children) fs true d =
      eval_and crates children fs d ResultList.nil
  eval_statement crates (Statement.and children) fs false d =
      eval_all crates children fs false >>= λ results.
      ok (structural MatchedNode.and d results (all_success results))
  eval_statement crates (Statement.or children) fs true d =
      eval_or crates children fs d ResultList.nil
  eval_statement crates (Statement.or children) fs false d =
      eval_all crates children fs false >>= λ results.
      ok (structural MatchedNode.or d results (any_success results))
  eval_statement crates (Statement.not child) fs sc d = evaluate crates child fs sc >>= λ r.
      ok (structural MatchedNode.not d (ResultList.cons r ResultList.nil) (not (success r)))
  eval_statement crates (Statement.some_of count children) fs true d =
      eval_some crates count children fs d ResultList.nil 0
  eval_statement crates (Statement.some_of count children) fs false d =
      eval_all crates children fs false >>= λ results. ok (
        structural (MatchedNode.some_of count) d results
          (leb count (count_success results % u32_mod)))
  eval_statement crates (Statement.range feature min max) fs sc d =
      ok (eval_range feature min max fs d)
  eval_statement crates (Statement.subscope scope body) fs sc d = err (unextracted_subscope scope)
  eval_statement crates (Statement.leaf feature) fs sc d = eval_leaf crates feature fs sc d

  -- the loop of `eval_and` that ends at the first failure
  pub eval_and :
      RegexCrates
      → NodeList
      → FeatureSet
      → Option String
      → ResultList
      → Result EngineError MatchResult
  eval_and crates NodeList.nil fs d results = ok (structural MatchedNode.and d results true)
  eval_and crates (NodeList.cons c cs) fs d results = evaluate crates c fs true >>= λ r.
      elim (success r) [
        | true ↦ eval_and crates cs fs d (push results r)
        | false ↦ ok (structural MatchedNode.and d (push results r) false)
      ]

  -- the loop of `eval_or` that ends at the first success
  pub eval_or :
      RegexCrates
      → NodeList
      → FeatureSet
      → Option String
      → ResultList
      → Result EngineError MatchResult
  eval_or crates NodeList.nil fs d results = ok (structural MatchedNode.or d results false)
  eval_or crates (NodeList.cons c cs) fs d results = evaluate crates c fs true >>= λ r.
      elim (success r) [
        | true ↦ ok (structural MatchedNode.or d (push results r) true)
        | false ↦ eval_or crates cs fs d (push results r)
      ]

  -- the loop of `eval_some` that ends when enough children have matched
  pub eval_some :
      RegexCrates
      → ℕ
      → NodeList
      → FeatureSet
      → Option String
      → ResultList
      → ℕ
      → Result EngineError MatchResult
  eval_some crates count NodeList.nil fs d results satisfied =
      ok (structural (MatchedNode.some_of count) d results false)
  eval_some crates count (NodeList.cons c cs) fs d results satisfied =
      evaluate crates c fs true >>= λ r. elim (leb count (bump (success r) satisfied)) [
        | true ↦ ok (structural (MatchedNode.some_of count) d (push results r) true)
        | false ↦ eval_some crates count cs fs d (push results r) (bump (success r) satisfied)
      ]

  pub eval_all : RegexCrates → NodeList → FeatureSet → Bool → Result EngineError ResultList
  eval_all crates NodeList.nil fs sc = ok ResultList.nil
  eval_all crates (NodeList.cons c cs) fs sc =
      evaluate crates c fs sc >>= λ r. eval_all crates cs fs sc >>= λ rs. ok (ResultList.cons r rs)
