-- ===== src/Examples/Matching.antt =====
-- The matcher's theorems at the example rules.
use capa_x.Prelude.{
  ℕ, zero, suc, ◌≡◌, refl, true, some, get_elem?, arith, inl, [], ◌∷◌, none, false,
}
use capa_x.Ordered.{nat_ord}
use capa_x.SortedSet.{contains}
use capa_x.IndexMap
use capa_x.Address.{absolute}
use capa_x.Features.{fields, field_eq, fields_eq, feature_eq, api}
use capa_x.Scope.{function}
use capa_x.Rules.{Node, Statement, NodeList, node, length_nodes}
use capa_x.Engine.Boolean.{evaluate_boolean}
use capa_x.Engine.Evaluate.{evaluate}
use capa_x.Engine.MatchResult.{match_result, MatchedNode, nil, cons, success, MatchResult}
use capa_x.Engine.Agreement.{evaluate_boolean-evaluate}
use capa_x.Engine.Meaning.{holds, IsExtracted, IsSized, IsInhabited, leaf_holds}
use capa_x.Engine.Meaning.Boolean.{evaluate_boolean-holds}
use capa_x.Engine.Meaning.Full.{success-evaluate_boolean}
use capa_x.Engine.Leaves.{eval_leaf, eval_exact}
use capa_x.Engine.Boolean.{leaf_boolean}
use capa_x.Capabilities.Required.{
  better, index_score, set_insert, set_extend, required_features, better, index_score, set_insert,
  set_extend,
}
use capa_x.Capabilities.Required.Present.{any_present}
use capa_x.Capabilities.Required.Sound.{any_present-required_features}
use capa_x.Capabilities.Index.{new, candidates}
use capa_x.Capabilities.Index.Candidates.{contains-candidates-new}
use capa_x.Capabilities.Matching.{match_scope, match_all, rule_at}
use capa_x.Capabilities.Matching.Exhaustive.{IsMatchable, IsIndexed, match_scope-match_all}
use capa_x.Examples.{
  literal_crates, two_rule_set, two_rules, writer, dropper, some_features, call_site,
  body_of_writer, [], api, body_of_blind_writer, none, false, body_of_dropper,
}
use capa_x.Engine.Leaves.{string_value}
use capa_x.Prelude.Text.{contains_text}
use capa_x.Prelude.Result.{ok, map_ok}

pub writer-IsMatchable : IsMatchable writer
unfolding IsExtracted IsSized IsInhabited length_nodes
writer-IsMatchable = record {
  extracted = (tt, ((tt, (tt, tt)), ((tt, tt), tt)));
  sized = (tt, ((tt, (tt, tt)), ((omega arith, (tt, tt)), tt)));
  inhabited = (tt, ((tt, (tt, tt)), ((inl (omega arith), (tt, tt)), tt)));
}

pub dropper-IsMatchable : IsMatchable dropper
unfolding IsExtracted IsSized IsInhabited
dropper-IsMatchable = record {
  extracted = (tt, (tt, tt));
  sized = (tt, (tt, tt));
  inhabited = (tt, (tt, tt));
}

two_rules-resolve : (i : ℕ) → rule_at two_rule_set function i ≡ get_elem? two_rules i
unfolding rule_at
two_rules-resolve zero = refl
two_rules-resolve (suc zero) = refl
two_rules-resolve (suc (suc i)) = refl

pub two_rules-IsIndexed : IsIndexed two_rule_set function two_rules
two_rules-IsIndexed = record { resolves = two_rules-resolve; indexed = refl }

match_scope-match_all_example :
    match_scope literal_crates 3 two_rule_set function some_features call_site
    ≡ some (match_all literal_crates call_site two_rules some_features [])
match_scope-match_all_example =
    match_scope-match_all literal_crates two_rule_set function two_rules some_features call_site 3
      two_rules-IsIndexed (writer-IsMatchable, (dropper-IsMatchable, tt)) (omega arith)

evaluate_boolean-evaluate_example :
    evaluate_boolean literal_crates body_of_writer some_features
    ≡ map_ok success (evaluate literal_crates body_of_writer some_features true)
evaluate_boolean-evaluate_example =
    evaluate_boolean-evaluate literal_crates body_of_writer some_features

evaluate_boolean-holds_example :
    evaluate_boolean literal_crates body_of_dropper some_features
    ≡ ok (holds literal_crates some_features body_of_dropper)
evaluate_boolean-holds_example =
    evaluate_boolean-holds literal_crates body_of_dropper some_features
      dropper-IsMatchable.extracted dropper-IsMatchable.sized dropper-IsMatchable.inhabited

writer_holds : holds literal_crates some_features body_of_writer ≡ true
unfolding holds leaf_holds contains_text feature_eq fields_eq field_eq fields string_value
writer_holds = refl

contains-candidates-new_example :
    contains 0 (candidates (new two_rules) (IndexMap.keys feature_eq some_features)) ≡ true
contains-candidates-new_example =
    contains-candidates-new literal_crates two_rules 0 writer some_features refl writer_holds

writer_requires : required_features body_of_writer ≡ some (8, api "WriteFile" ∷ [])
unfolding required_features better index_score set_insert set_extend
writer_requires = refl

any_present-required_features_example : any_present some_features (api "WriteFile" ∷ []) ≡ true
any_present-required_features_example =
    any_present-required_features literal_crates some_features body_of_writer 8
      (api "WriteFile" ∷ []) writer_requires writer_holds

abbrev full_pass : MatchResult
full_pass =
    match_result true MatchedNode.and none []
      (cons
        (match_result true (MatchedNode.leaf (api "WriteFile")) none
          (absolute 4100 ∷ absolute 4200 ∷ []) nil [])
        (cons
          (match_result true MatchedNode.not none []
            (cons (match_result false (MatchedNode.leaf (api "ReadFile")) none [] nil []) nil) [])
          nil))
      []

full_pass_is : evaluate literal_crates body_of_blind_writer some_features false ≡ ok full_pass
unfolding evaluate eval_leaf eval_exact feature_eq fields_eq field_eq fields
full_pass_is = refl

short_pass_is : evaluate_boolean literal_crates body_of_blind_writer some_features ≡ ok true
unfolding evaluate_boolean leaf_boolean feature_eq fields_eq field_eq fields
short_pass_is = refl

sized : IsSized body_of_blind_writer
unfolding IsSized
sized = (tt, (tt, tt))

inhabited : IsInhabited body_of_blind_writer
unfolding IsInhabited
inhabited = (tt, (tt, tt))

success-evaluate_boolean_example : success full_pass ≡ true
success-evaluate_boolean_example =
    success-evaluate_boolean literal_crates body_of_blind_writer some_features true full_pass sized
      inhabited short_pass_is full_pass_is

-- `not: optional: []`, which the two passes decide differently: an empty `0 or more` fails where it
-- is evaluated child by child, and succeeds where its children are counted.
abbrev without_vacuous : Node
without_vacuous = node (Statement.not (node (Statement.some_of 0 NodeList.nil) none)) none

vacuous_short : evaluate_boolean literal_crates without_vacuous some_features ≡ ok true
unfolding evaluate_boolean
vacuous_short = refl

vacuous_full :
    map_ok success (evaluate literal_crates without_vacuous some_features false) ≡ ok false
unfolding evaluate
vacuous_full = refl
