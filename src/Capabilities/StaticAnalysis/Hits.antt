-- ===== src/Capabilities/StaticAnalysis/Hits.antt =====
-- Where the matcher finds a rule below the file, and what the walks of
-- capa-x/src/capabilities/static_analysis.rs gather of it.
use capa_x.Prelude.{◌≡◌, sym, ◌++◌, ap, ◌∙◌, Bool, ◌||◌, String, List, [], ◌∷◌, arith, any, length}
use capa_x.Prelude.Result.{Result, ok, err, bind-ok, collect, map_ok-ok}
use capa_x.Address.{Address}
use capa_x.Features.{Feature}
use capa_x.Scope.{Scope}
use capa_x.Engine.FeatureSet.{FeatureSet, merge_owned}
use capa_x.Engine.MatchResult.{EngineError}
use capa_x.Freeze.{InstructionFeatures, BasicBlockFeatures, FunctionFeatures}
use capa_x.Capabilities.Matching.{MatchResults}
use capa_x.Capabilities.Matcher.{Matcher}
use capa_x.Capabilities.Driver.{seed, promote_matches, extend_matches}
use capa_x.Capabilities.Driver.Promoted.{is_hit}
use capa_x.Capabilities.Driver.Hits.{finds, finds_after, is_hit-extend_matches}
use capa_x.Capabilities.StaticAnalysis.{
  CapabilityError, in_function, find_instruction_capabilities, instructions_loop,
  find_basic_block_capabilities, blocks_loop, find_code_capabilities, CodeCapabilities, code_of,
  Gathered, gather, map_err,
}

pub map_err-ok :
    {A : Type 0} (f : EngineError → CapabilityError) (r : Result EngineError A) (a : A)
    → map_err f r ≡ ok a
    → r ≡ ok a
map_err-ok f (ok b) a e = cc
map_err-ok f (err x) a e = cc

module _ (rule_set : Matcher) (global_features : List Feature) (name : String)
    (addr : Address) where
  -- the matcher finds the rule there, in an instruction
  abbrev pub hit_in_instruction : Address × InstructionFeatures → Bool
  hit_in_instruction (at, insn) =
      finds name addr
        (rule_set.match_scope_results Scope.instruction (seed [] insn.features global_features) at)

  -- in a basic block, or in an instruction of it
  abbrev pub hit_in_block : Address × BasicBlockFeatures → Bool
  hit_in_block (at, bb) =
      any hit_in_instruction bb.instructions
      || finds_after (instructions_loop rule_set global_features bb.instructions [] []) (λ r.
        finds name addr (
          rule_set.match_scope_results Scope.basic_block (seed r.0 bb.features global_features) at))

  -- in a function, or in a basic block or an instruction of it
  abbrev pub hit_in_function : Address × FunctionFeatures → Bool
  hit_in_function (at, func) =
      any hit_in_block func.basic_blocks
      || finds_after (blocks_loop rule_set global_features func.basic_blocks [] [] []) (λ r.
        finds name addr
          (rule_set.match_scope_results Scope.function (seed r.0 func.features global_features) at))

  instruction-finds :
      (at : Address) (insn : InstructionFeatures) (r : FeatureSet × MatchResults)
      → find_instruction_capabilities rule_set global_features at insn.features ≡ ok r
      → hit_in_instruction (at, insn) ≡ is_hit name addr r.1
  unfolding find_instruction_capabilities
  instruction-finds at insn r e =
      let features = seed [] insn.features global_features in
      let v = bind-ok (rule_set.match_scope_results Scope.instruction features at) _ r e in
      let same : (promote_matches rule_set features v.0, v.0) ≡ r = cc in
      ap (finds name addr) v.1.0 ∙ ap (λ p. is_hit name addr p.1) same

  is_hit-instructions_loop :
      (instructions : List (Address × InstructionFeatures)) (features : FeatureSet)
      (matches : MatchResults) (r : FeatureSet × MatchResults)
      → instructions_loop rule_set global_features instructions features matches ≡ ok r
      → is_hit name addr r.1 ≡ (is_hit name addr matches || any hit_in_instruction instructions)
  unfolding instructions_loop
  is_hit-instructions_loop [] features matches r e =
      let same : (features, matches) ≡ r = cc in
      sym (ap (λ p. is_hit name addr p.1) same) ∙ ground arith
  is_hit-instructions_loop ((at, insn) ∷ instructions) features matches r e =
      let v =
        bind-ok (find_instruction_capabilities rule_set global_features at insn.features) _ r e in
      ground (
        arith,
        is_hit-instructions_loop instructions (merge_owned features v.0.0)
            (extend_matches matches v.0.1) r v.1.1,
        is_hit-extend_matches name addr matches v.0.1,
        instruction-finds at insn v.0 v.1.0,
      )

  block-finds :
      (at : Address) (bb : BasicBlockFeatures) (r : FeatureSet × (MatchResults × MatchResults))
      → find_basic_block_capabilities rule_set global_features at bb ≡ ok r
      → hit_in_block (at, bb) ≡ (is_hit name addr r.1.1 || is_hit name addr r.1.0)
  unfolding find_basic_block_capabilities
  block-finds at bb r e =
      let v = bind-ok (instructions_loop rule_set global_features bb.instructions [] []) _ r e in
      let features = seed v.0.0 bb.features global_features in
      let w = bind-ok (rule_set.match_scope_results Scope.basic_block features at) _ r v.1.1 in
      let same : (promote_matches rule_set features w.0, (w.0, v.0.1)) ≡ r = cc in
      let own : finds name addr (rule_set.match_scope_results Scope.basic_block features at)
          ≡ is_hit name addr w.0 =
        ap (finds name addr) w.1.0 in
      rw v.1.0 (
        ground (
          arith,
          is_hit-instructions_loop bb.instructions [] [] v.0 v.1.0,
          own,
          ap (λ p. is_hit name addr p.1.0) same,
          ap (λ p. is_hit name addr p.1.1) same,
        ))

  is_hit-blocks_loop :
      (blocks : List (Address × BasicBlockFeatures)) (features : FeatureSet)
      (bb_matches insn_matches : MatchResults) (r : FeatureSet × (MatchResults × MatchResults))
      → blocks_loop rule_set global_features blocks features bb_matches insn_matches ≡ ok r
      → (is_hit name addr r.1.1 || is_hit name addr r.1.0) ≡ (
          (is_hit name addr insn_matches || is_hit name addr bb_matches) || any hit_in_block blocks)
  unfolding blocks_loop
  is_hit-blocks_loop [] features bb_matches insn_matches r e =
      let same : (features, (bb_matches, insn_matches)) ≡ r = cc in
      sym (ap (λ p. is_hit name addr p.1.1 || is_hit name addr p.1.0) same) ∙ ground arith
  is_hit-blocks_loop ((at, bb) ∷ blocks) features bb_matches insn_matches r e =
      let v = bind-ok (find_basic_block_capabilities rule_set global_features at bb) _ r e in
      ground (
        arith,
        is_hit-blocks_loop blocks (merge_owned features v.0.0) (extend_matches bb_matches v.0.1.0)
            (extend_matches insn_matches v.0.1.1) r v.1.1,
        is_hit-extend_matches name addr bb_matches v.0.1.0,
        is_hit-extend_matches name addr insn_matches v.0.1.1,
        block-finds at bb v.0 v.1.0,
      )

  function-finds :
      (at : Address) (func : FunctionFeatures) (c : CodeCapabilities)
      → find_code_capabilities rule_set global_features at func ≡ ok c
      → hit_in_function (at, func) ≡ (
          is_hit name addr c.insn_matches
          || (is_hit name addr c.bb_matches || is_hit name addr c.function_matches))
  unfolding find_code_capabilities
  function-finds at func c e =
      let v = bind-ok (blocks_loop rule_set global_features func.basic_blocks [] [] []) _ c e in
      let features = seed v.0.0 func.features global_features in
      let w = bind-ok (rule_set.match_scope_results Scope.function features at) _ c v.1.1 in
      let own : finds name addr (rule_set.match_scope_results Scope.function features at)
          ≡ is_hit name addr w.0 =
        ap (finds name addr) w.1.0 in
      let same : record {
        function_matches = w.0;
        bb_matches = v.0.1.0;
        insn_matches = v.0.1.1;
        feature_count = length features;
      }
          ≡ c =
        cc in
      rw v.1.0 (
        ground (
          arith,
          is_hit-blocks_loop func.basic_blocks [] [] [] v.0 v.1.0,
          own,
          ap (λ (k : CodeCapabilities). is_hit name addr k.insn_matches) same,
          ap (λ (k : CodeCapabilities). is_hit name addr k.bb_matches) same,
          ap (λ (k : CodeCapabilities). is_hit name addr k.function_matches) same,
        ))

  -- the rule is among what has been gathered of the functions
  abbrev pub hit_in : Gathered → Bool
  hit_in g =
      is_hit name addr g.insn_matches
      || (is_hit name addr g.bb_matches || is_hit name addr g.function_matches)

  pub hit_in-gather :
      (functions : List (Address × FunctionFeatures)) (g : Gathered) (code : List CodeCapabilities)
      → collect (code_of rule_set global_features) functions ≡ ok code
      → hit_in (gather g functions code) ≡ (hit_in g || any hit_in_function functions)
  hit_in-gather [] g code e = ground arith
  hit_in-gather ((at, func) ∷ functions) g code e =
      let v = bind-ok (code_of rule_set global_features (at, func)) _ code e in
      let w = map_ok-ok _ (collect (code_of rule_set global_features) functions) code v.1.1 in
      let next : Gathered = record {
        function_matches = extend_matches g.function_matches v.0.function_matches;
        bb_matches = extend_matches g.bb_matches v.0.bb_matches;
        insn_matches = extend_matches g.insn_matches v.0.insn_matches;
        function_feature_counts = g.function_feature_counts ++ (at, v.0.feature_count) ∷ [];
      } in
      let first = function-finds at func v.0 (map_err-ok (in_function at) _ v.0 v.1.0) in
      ap (λ k. hit_in (gather g ((at, func) ∷ functions) k)) (sym w.1.1)
      ∙ ground (
        arith,
        hit_in-gather functions next w.0 w.1.0,
        is_hit-extend_matches name addr g.insn_matches v.0.insn_matches,
        is_hit-extend_matches name addr g.bb_matches v.0.bb_matches,
        is_hit-extend_matches name addr g.function_matches v.0.function_matches,
        first,
      )
