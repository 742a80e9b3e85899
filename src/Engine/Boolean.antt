-- ===== src/Engine/Boolean.antt =====
-- `evaluate_boolean` of capa-x/src/engine.rs: the outcome without the evidence.
use capa_x.Prelude.{ℕ, String, Bool, true, false, not, ◌&&◌, Option, none, some, [], ◌∷◌, leb, ◌||◌}
use capa_x.Prelude.Result.{Result, ok, err, ◌>>=◌, map_ok}
use capa_x.Prelude.Text.{contains_text}
use capa_x.Features.{Feature, substring, regex, string, bytes, os, com_object, feature_eq}
use capa_x.Features.Regex.{RegexCrates, is_match}
use capa_x.IndexMap
use capa_x.Rules.{Node, Statement, NodeList, node}
use capa_x.Engine.FeatureSet.{FeatureSet}
use capa_x.Engine.MatchResult.{EngineError, unextracted_subscope, unexpanded_com}
use capa_x.Engine.Leaves.{string_value, bytes_test, os_test, count_u32, below_max}
use capa_x.Engine.Evaluate.{bump}

-- `fs.keys().any(test)`
abbrev pub any_key : (Feature → Bool) → FeatureSet → Bool
any_key test [] = false
any_key test ((feature, locs) ∷ fs) = test feature || any_key test fs

-- `filter_map(string_value)` before the test
abbrev pub on_string : (String → Bool) → Feature → Bool
on_string test feature = elim (string_value feature) [ none ↦ false | some value ↦ test value ]

unfoldable pub leaf_boolean : RegexCrates → Feature → FeatureSet → Result EngineError Bool
leaf_boolean crates (string (substring needle)) fs =
    ok (any_key (on_string (contains_text needle)) fs)
leaf_boolean crates (string (regex re)) fs = ok (any_key (on_string (is_match crates re)) fs)
leaf_boolean crates (bytes needle) fs = ok (any_key (bytes_test needle) fs)
leaf_boolean crates (os query) fs = ok (any_key (os_test query) fs)
leaf_boolean crates (com_object kind name) fs = err (unexpanded_com kind)
leaf_boolean crates feature fs = ok (IndexMap.contains_key feature_eq feature fs)

unfoldable pub range_boolean : Feature → ℕ → Option ℕ → FeatureSet → Bool
range_boolean feature min max fs =
    let count = count_u32 (IndexMap.get feature_eq feature fs) in
    leb min count && below_max count max

unfoldable mutual
  pub evaluate_boolean : RegexCrates → Node → FeatureSet → Result EngineError Bool
  evaluate_boolean crates (node stmt description) fs = statement_boolean crates stmt fs

  pub statement_boolean : RegexCrates → Statement → FeatureSet → Result EngineError Bool
  statement_boolean crates (Statement.and children) fs = and_boolean crates children fs
  statement_boolean crates (Statement.or children) fs = or_boolean crates children fs
  statement_boolean crates (Statement.not child) fs = map_ok not (evaluate_boolean crates child fs)
  statement_boolean crates (Statement.some_of count children) fs =
      some_boolean crates count children fs 0
  statement_boolean crates (Statement.range feature min max) fs =
      ok (range_boolean feature min max fs)
  statement_boolean crates (Statement.subscope scope body) fs = err (unextracted_subscope scope)
  statement_boolean crates (Statement.leaf feature) fs = leaf_boolean crates feature fs

  pub and_boolean : RegexCrates → NodeList → FeatureSet → Result EngineError Bool
  and_boolean crates NodeList.nil fs = ok true
  and_boolean crates (NodeList.cons c cs) fs = evaluate_boolean crates c fs >>= λ b. elim b [
    | true ↦ and_boolean crates cs fs
    | false ↦ ok false
  ]

  pub or_boolean : RegexCrates → NodeList → FeatureSet → Result EngineError Bool
  or_boolean crates NodeList.nil fs = ok false
  or_boolean crates (NodeList.cons c cs) fs = evaluate_boolean crates c fs >>= λ b. elim b [
    | true ↦ ok true
    | false ↦ or_boolean crates cs fs
  ]

  pub some_boolean : RegexCrates → ℕ → NodeList → FeatureSet → ℕ → Result EngineError Bool
  some_boolean crates count NodeList.nil fs satisfied = ok false
  some_boolean crates count (NodeList.cons c cs) fs satisfied =
      evaluate_boolean crates c fs >>= λ b. elim (leb count (bump b satisfied)) [
        | true ↦ ok true
        | false ↦ some_boolean crates count cs fs (bump b satisfied)
      ]
