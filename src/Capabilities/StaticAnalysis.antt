-- ===== src/Capabilities/StaticAnalysis.antt =====
-- capa-x/src/capabilities/static_analysis.rs: the scopes from instruction to file.
pub mod Serial
pub mod Hits
pub mod Published
pub mod Visible
use capa_x.Prelude.{ℕ, Bool, Option, none, some, List, [], ◌∷◌, ◌++◌, length}
use capa_x.Prelude.Result.{Result, ok, err, ◌>>=◌}
use capa_x.Address.{Address}
use capa_x.Features.{Feature}
use capa_x.Scope.{Scope}
use capa_x.Engine.FeatureSet.{FeatureSet, merge_owned}
use capa_x.Engine.MatchResult.{EngineError}
use capa_x.Freeze.{
  Located, InstructionFeatures, BasicBlockFeatures, FunctionFeatures, StaticFeatures,
}
use capa_x.Parallel.{Jobs, try_map}
use capa_x.Capabilities.Matching.{MatchResults}
use capa_x.Capabilities.Matcher.{Matcher}
use capa_x.Capabilities.Driver.{
  seed, extend_matches, promote_matches, index_matches, find_file_capabilities,
}

pub data CapabilityError : Type 0 where
  in_function : Address → EngineError → CapabilityError
  in_file : EngineError → CapabilityError

pub record StaticCapabilities : Type 0 where
  pub matches : MatchResults
  pub file_feature_count : ℕ
  pub function_feature_counts : List (Address × ℕ)

-- of one function: its matches, those of its basic blocks and of its instructions, and the number
-- of its features
pub record CodeCapabilities : Type 0 where
  pub function_matches : MatchResults
  pub bb_matches : MatchResults
  pub insn_matches : MatchResults
  pub feature_count : ℕ

-- what the loop over the functions has gathered
pub record Gathered : Type 0 where
  pub function_matches : MatchResults
  pub bb_matches : MatchResults
  pub insn_matches : MatchResults
  pub function_feature_counts : List (Address × ℕ)

-- `map_err`
abbrev pub map_err : {A E F : Type 0} → (E → F) → Result E A → Result F A
map_err f (ok a) = ok a
map_err f (err e) = err (f e)

abbrev pub gather : Gathered → List (Address × FunctionFeatures) → List CodeCapabilities → Gathered
gather g ((addr, func) ∷ functions) (c ∷ per_function) =
    gather
      (record {
        function_matches = extend_matches g.function_matches c.function_matches;
        bb_matches = extend_matches g.bb_matches c.bb_matches;
        insn_matches = extend_matches g.insn_matches c.insn_matches;
        function_feature_counts = g.function_feature_counts ++ (addr, c.feature_count) ∷ [];
      })
      functions per_function
gather g _ _ = g

abbrev pub nothing_gathered : Gathered
nothing_gathered = record {
  function_matches = [];
  bb_matches = [];
  insn_matches = [];
  function_feature_counts = [];
}

module _ (rule_set : Matcher) (global_features : List Feature) where
  unfoldable pub find_instruction_capabilities :
      Address → Located → Result EngineError (FeatureSet × MatchResults)
  find_instruction_capabilities insn_addr insn_features = do
    let features = seed [] insn_features global_features
    matches ← rule_set.match_scope_results Scope.instruction features insn_addr
    ok (promote_matches rule_set features matches, matches)

  unfoldable pub instructions_loop :
      List (Address × InstructionFeatures)
      → FeatureSet
      → MatchResults
      → Result EngineError (FeatureSet × MatchResults)
  unfolding find_instruction_capabilities
  instructions_loop [] features insn_matches = ok (features, insn_matches)
  instructions_loop ((addr, insn) ∷ instructions) features insn_matches =
      find_instruction_capabilities addr insn.features >>= λ r.
      instructions_loop instructions (merge_owned features r.0) (extend_matches insn_matches r.1)

  unfoldable pub find_basic_block_capabilities :
      Address → BasicBlockFeatures → Result EngineError (FeatureSet × (MatchResults × MatchResults))
  unfolding instructions_loop
  find_basic_block_capabilities bb_addr bb = do
    r ← instructions_loop bb.instructions [] []
    let features = seed r.0 bb.features global_features
    bb_matches ← rule_set.match_scope_results Scope.basic_block features bb_addr
    ok (promote_matches rule_set features bb_matches, (bb_matches, r.1))

  unfoldable pub blocks_loop :
      List (Address × BasicBlockFeatures)
      → FeatureSet
      → MatchResults
      → MatchResults
      → Result EngineError (FeatureSet × (MatchResults × MatchResults))
  unfolding find_basic_block_capabilities
  blocks_loop [] features bb_matches insn_matches = ok (features, (bb_matches, insn_matches))
  blocks_loop ((addr, bb) ∷ blocks) features bb_matches insn_matches =
      find_basic_block_capabilities addr bb >>= λ r.
      blocks_loop blocks (merge_owned features r.0) (extend_matches bb_matches r.1.0)
        (extend_matches insn_matches r.1.1)

  -- a match of a function is not promoted into its own features
  unfoldable pub find_code_capabilities :
      Address → FunctionFeatures → Result EngineError CodeCapabilities
  unfolding blocks_loop
  find_code_capabilities fn_addr func = do
    r ← blocks_loop func.basic_blocks [] [] []
    let function_features = seed r.0 func.features global_features
    function_matches ← rule_set.match_scope_results Scope.function function_features fn_addr
    ok (record {
      function_matches = function_matches;
      bb_matches = r.1.0;
      insn_matches = r.1.1;
      feature_count = length function_features;
    })

  -- the work of one thread
  abbrev pub code_of : Address × FunctionFeatures → Result CapabilityError CodeCapabilities
  code_of (addr, func) = map_err (in_function addr) (find_code_capabilities addr func)

module _ (rule_set : Matcher) where
  -- `function_and_lower_features`
  abbrev pub function_and_lower : Gathered → FeatureSet
  function_and_lower g =
      index_matches rule_set
        (index_matches rule_set (index_matches rule_set [] g.insn_matches) g.bb_matches)
        g.function_matches

abbrev pub with_file : Gathered → MatchResults × ℕ → StaticCapabilities
with_file g found = record {
  matches =
      extend_matches
        (extend_matches (extend_matches (extend_matches [] g.insn_matches) g.bb_matches)
          g.function_matches)
        found.0;
  file_feature_count = found.1;
  function_feature_counts = g.function_feature_counts;
}

module _ (rule_set : Matcher) (freeze : StaticFeatures) where
  -- what follows the join of the workers
  unfoldable pub conclude_static :
      Result CapabilityError (List CodeCapabilities) → Result CapabilityError StaticCapabilities
  unfolding find_file_capabilities
  conclude_static per_function = do
    code ← per_function
    let g = gather nothing_gathered freeze.functions code
    found ← map_err in_file (
        find_file_capabilities rule_set freeze.file_features freeze.global_features
          (function_and_lower rule_set g))
    ok (with_file g found)

  -- under a schedule of the workers; `none` when it ends before they do
  unfoldable pub find_static_capabilities :
      Jobs → List (ℕ × Bool) → Option (Result CapabilityError StaticCapabilities)
  unfolding try_map
  find_static_capabilities jobs schedule =
      elim (try_map (code_of rule_set freeze.global_features) freeze.functions jobs schedule) [
        | none ↦ none
        | some per_function ↦ some (conclude_static per_function)
      ]
