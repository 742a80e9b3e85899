-- ===== src/Capabilities/StaticAnalysis/Visible.antt =====
-- What the rules of a scope of capa-x/src/capabilities/static_analysis.rs are matched against: the
-- features of the scopes inside it, and the matches there.
use capa_x.Scope.{Scope}
use capa_x.Capabilities.Driver.Promoted.{
  is_published_as, is_hit, file_features_of-lower, index_matches-visible,
}
use capa_x.Rules.{Rule}
use capa_x.Prelude.{
  ◌≡◌, sym, ap, ◌∙◌, Bool, true, ◌||◌, List, [], ◌∷◌, arith, any, Bool-cases, inl, inr, String,
  some, length,
}
use capa_x.Prelude.Result.{Result, ok, err, ◌>>=◌, bind-ok}
use capa_x.Address.{Address}
use capa_x.Features.{Feature}
use capa_x.Engine.FeatureSet.{FeatureSet, merge_owned}
use capa_x.Engine.FeatureSet.Has.{has, has-merge_owned}
use capa_x.Engine.MatchResult.{EngineError}
use capa_x.Freeze.{Located, InstructionFeatures, BasicBlockFeatures, FunctionFeatures}
use capa_x.Capabilities.Matching.{MatchResults}
use capa_x.Capabilities.Matcher.{Matcher}
use capa_x.Capabilities.Driver.{
  seed, promote_matches, extend_matches, file_features_of, index_matches,
}
use capa_x.Capabilities.Driver.Visible.{is_located, is_global, has-seed, promote_matches-has}
use capa_x.Capabilities.StaticAnalysis.{
  find_instruction_capabilities, instructions_loop, find_basic_block_capabilities, blocks_loop,
  find_code_capabilities, CodeCapabilities, Gathered, some, function_and_lower, Scope,
}

-- a feature of an instruction, and one of a basic block or of an instruction of it
abbrev pub in_instructions : Feature → Address → List (Address × InstructionFeatures) → Bool
in_instructions f loc instructions = any (λ i. is_located f loc i.1.features) instructions

abbrev pub in_blocks : Feature → Address → List (Address × BasicBlockFeatures) → Bool
in_blocks f loc blocks =
    any (λ b. is_located f loc b.1.features || in_instructions f loc b.1.instructions) blocks

module _ (rule_set : Matcher) (global_features : List Feature) (f : Feature) (loc : Address) where
  -- the rest of a walk after a match
  promoted :
      (features : FeatureSet) (found : Result EngineError MatchResults)
      (r : FeatureSet × MatchResults)
      → has f loc features ≡ true
      → (found >>= λ matches. ok (promote_matches rule_set features matches, matches)) ≡ ok r
      → has f loc r.0 ≡ true
  promoted features (ok matches) r h e =
      let same : (promote_matches rule_set features matches, matches) ≡ r = cc in
      sym (ap (λ p. has f loc p.0) same) ∙ promote_matches-has f loc rule_set features matches h
  promoted features (err x) r h e = cc

  find_instruction_capabilities-has :
      (addr : Address) (features : Located) (r : FeatureSet × MatchResults)
      → is_located f loc features ≡ true
      → find_instruction_capabilities rule_set global_features addr features ≡ ok r
      → has f loc r.0 ≡ true
  unfolding find_instruction_capabilities
  find_instruction_capabilities-has addr features r h e =
      promoted (seed [] features global_features) _ r
        (ground (arith, has-seed f loc [] features global_features)) e

  abbrev walk :
      List (Address × InstructionFeatures)
      → FeatureSet
      → MatchResults
      → Result EngineError (FeatureSet × MatchResults)
  walk = instructions_loop rule_set global_features

  instructions_loop-has :
      (instructions : List (Address × InstructionFeatures)) (features : FeatureSet)
      (matches : MatchResults) (r : FeatureSet × MatchResults)
      → (has f loc features || in_instructions f loc instructions) ≡ true
      → walk instructions features matches ≡ ok r
      → has f loc r.0 ≡ true
  unfolding instructions_loop
  instructions_loop-has [] features matches r h e =
      let same : (features, matches) ≡ r = cc in sym (ap (λ p. has f loc p.0) same) ∙ ground arith
  instructions_loop-has ((addr, insn) ∷ instructions) features matches r h e =
      let v =
        bind-ok (find_instruction_capabilities rule_set global_features addr insn.features) _ r e in
      let p = v.0 in
      instructions_loop-has instructions (merge_owned features p.0) (extend_matches matches p.1) r
        (elim (Bool-cases (is_located f loc insn.features)) [
          | inl i ↦ ground (
            arith,
            has-merge_owned f loc features p.0,
            find_instruction_capabilities-has addr insn.features p i v.1.0,
          )
          | inr i ↦ ground (arith, has-merge_owned f loc features p.0)
        ])
        v.1.1

  find_basic_block_capabilities-has :
      (addr : Address) (bb : BasicBlockFeatures) (r : FeatureSet × (MatchResults × MatchResults))
      → (is_located f loc bb.features || in_instructions f loc bb.instructions) ≡ true
      → find_basic_block_capabilities rule_set global_features addr bb ≡ ok r
      → has f loc r.0 ≡ true
  unfolding find_basic_block_capabilities
  find_basic_block_capabilities-has addr bb r h e =
      let v = bind-ok (instructions_loop rule_set global_features bb.instructions [] []) _ r e in
      let features = seed v.0.0 bb.features global_features in
      let w = bind-ok (rule_set.match_scope_results Scope.basic_block features addr) _ r v.1.1 in
      let same : (promote_matches rule_set features w.0, (w.0, v.0.1)) ≡ r = cc in
      let seeded : has f loc features ≡ true = elim (Bool-cases (is_located f loc bb.features)) [
        | inl i ↦ ground (arith, has-seed f loc v.0.0 bb.features global_features)
        | inr i ↦ ground (
          arith,
          has-seed f loc v.0.0 bb.features global_features,
          instructions_loop-has bb.instructions [] [] v.0 (ground arith) v.1.0,
        )
      ] in
      sym (ap (λ p. has f loc p.0) same) ∙ promote_matches-has f loc rule_set features w.0 seeded

  -- every feature of the blocks and of their instructions is handed to the function
  blocks_loop-has :
      (blocks : List (Address × BasicBlockFeatures)) (features : FeatureSet)
      (bb_matches insn_matches : MatchResults) (r : FeatureSet × (MatchResults × MatchResults))
      → (has f loc features || in_blocks f loc blocks) ≡ true
      → blocks_loop rule_set global_features blocks features bb_matches insn_matches ≡ ok r
      → has f loc r.0 ≡ true
  unfolding blocks_loop
  blocks_loop-has [] features bb_matches insn_matches r h e =
      let same : (features, (bb_matches, insn_matches)) ≡ r = cc in
      sym (ap (λ p. has f loc p.0) same) ∙ ground arith
  blocks_loop-has ((addr, bb) ∷ blocks) features bb_matches insn_matches r h e =
      let v = bind-ok (find_basic_block_capabilities rule_set global_features addr bb) _ r e in
      let p = v.0 in
      blocks_loop-has blocks (merge_owned features p.0) (extend_matches bb_matches p.1.0)
        (extend_matches insn_matches p.1.1) r
        (elim (Bool-cases (is_located f loc bb.features || in_instructions f loc bb.instructions)) [
          | inl i ↦ ground (
            arith,
            has-merge_owned f loc features p.0,
            find_basic_block_capabilities-has addr bb p i v.1.0,
          )
          | inr i ↦ ground (arith, has-merge_owned f loc features p.0)
        ])
        v.1.1

  -- When the matching of a function succeeds, and a feature is at a location in the function, in a basic
  -- block or in an instruction of it, or is a global one at no address, the matches of the function are
  -- those that the matcher has for a set of features that has it there; the size of this set is the
  -- count that is returned.
  pub find_code_capabilities-has :
      (addr : Address) (func : FunctionFeatures) (c : CodeCapabilities)
      → (is_located f loc func.features
          || (is_global f loc global_features || in_blocks f loc func.basic_blocks))
        ≡ true
      → find_code_capabilities rule_set global_features addr func ≡ ok c
      → (fs : FeatureSet) × ((rule_set.match_scope_results Scope.function fs addr
            ≡ ok c.function_matches)
          × ((c.feature_count ≡ length fs) × (has f loc fs ≡ true)))
  unfolding find_code_capabilities
  find_code_capabilities-has addr func c h e =
      let v = bind-ok (blocks_loop rule_set global_features func.basic_blocks [] [] []) _ c e in
      let fs = seed v.0.0 func.features global_features in
      let w = bind-ok (rule_set.match_scope_results Scope.function fs addr) _ c v.1.1 in
      let result : CodeCapabilities = record {
        function_matches = w.0;
        bb_matches = v.0.1.0;
        insn_matches = v.0.1.1;
        feature_count = length fs;
      } in
      let same : result ≡ c = cc in
      (
        fs,
        (
          w.1.0 ∙ ap (λ (k : CodeCapabilities). ok k.function_matches) same,
          (
            sym (ap (λ (k : CodeCapabilities). k.feature_count) same),
            elim (Bool-cases (in_blocks f loc func.basic_blocks)) [
              | inl i ↦ ground (
                arith,
                has-seed f loc v.0.0 func.features global_features,
                blocks_loop-has func.basic_blocks [] [] [] v.0 i v.1.0,
              )
              | inr i ↦ ground (arith, has-seed f loc v.0.0 func.features global_features)
            ],
          ),
        ),
      )

module _ (rule_set : Matcher) (name : String) (rule : Rule) (f : Feature) (addr : Address) where
  -- what has been gathered is published to the file
  pub function_and_lower-visible :
      (g : Gathered) (features : Located) (global_features : List Feature)
      → rule_set.get name ≡ some rule
      → is_published_as rule f ≡ true
      → (is_hit name addr g.insn_matches
          || (is_hit name addr g.bb_matches || is_hit name addr g.function_matches))
        ≡ true
      → has f addr
          (file_features_of rule_set features global_features (function_and_lower rule_set g))
        ≡ true
  function_and_lower-visible g features global_features known seen hit =
      let insns = index_matches rule_set [] g.insn_matches in
      let blocks = index_matches rule_set insns g.bb_matches in
      file_features_of-lower rule_set name rule f addr known seen features global_features
        (index_matches rule_set blocks g.function_matches)
        (ground (
          arith,
          index_matches-visible rule_set name rule f addr known seen [] g.insn_matches,
          index_matches-visible rule_set name rule f addr known seen insns g.bb_matches,
          index_matches-visible rule_set name rule f addr known seen blocks g.function_matches,
        ))
