-- ===== src/Capabilities/DynamicAnalysis.antt =====
-- capa-x/src/capabilities/dynamic_analysis.rs: the scopes from call to file.
pub mod Visible
pub mod Calls
pub mod Hits
pub mod Published
use capa_x.Prelude.{ℕ, List, [], ◌∷◌, ◌++◌, length}
use capa_x.Prelude.Result.{Result, ok, ◌>>=◌}
use capa_x.Address.{Address}
use capa_x.Features.{Feature}
use capa_x.Scope.{Scope}
use capa_x.Engine.FeatureSet.{FeatureSet, merge, merge_owned}
use capa_x.Engine.MatchResult.{EngineError}
use capa_x.Freeze.{Located, CallFeatures, ThreadFeatures, ProcessFeatures, DynamicFeatures}
use capa_x.Capabilities.Matching.{MatchResults}
use capa_x.Capabilities.Matcher.{Matcher}
use capa_x.Capabilities.SpanOfCalls
use capa_x.Capabilities.SpanOfCalls.{SpanOfCallsMatcher}
use capa_x.Capabilities.Driver.{
  seed, extend_matches, promote_matches, index_matches, find_file_capabilities,
}

pub record DynamicCapabilities : Type 0 where
  pub matches : MatchResults
  pub file_feature_count : ℕ
  pub process_feature_counts : List (Address × ℕ)

-- what the loop over the calls of a thread carries
pub record CallsState : Type 0 where
  pub features : FeatureSet
  pub call_matches : MatchResults
  pub span_matcher : SpanOfCallsMatcher

pub record ThreadCapabilities : Type 0 where
  pub features : FeatureSet
  pub thread_matches : MatchResults
  pub span_matches : MatchResults
  pub call_matches : MatchResults

-- what the loop over the threads of a process carries
pub record ThreadsState : Type 0 where
  pub process_features : FeatureSet
  pub thread_matches : MatchResults
  pub span_matches : MatchResults
  pub call_matches : MatchResults

pub record ProcessCapabilities : Type 0 where
  pub process_matches : MatchResults
  pub thread_matches : MatchResults
  pub span_matches : MatchResults
  pub call_matches : MatchResults
  pub feature_count : ℕ

-- what the loop over the processes carries
pub record ProcessesState : Type 0 where
  pub all_process_matches : MatchResults
  pub all_thread_matches : MatchResults
  pub all_span_matches : MatchResults
  pub all_call_matches : MatchResults
  pub process_feature_counts : List (Address × ℕ)

abbrev pub no_calls : CallsState
no_calls = record { features = []; call_matches = []; span_matcher = SpanOfCalls.new }

abbrev pub no_threads : ThreadsState
no_threads = record {
  process_features = [];
  thread_matches = [];
  span_matches = [];
  call_matches = [];
}

abbrev pub no_processes : ProcessesState
no_processes = record {
  all_process_matches = [];
  all_thread_matches = [];
  all_span_matches = [];
  all_call_matches = [];
  process_feature_counts = [];
}

abbrev pub after_thread : ThreadsState → ThreadCapabilities → ThreadsState
after_thread s t = record {
  process_features = merge_owned s.process_features t.features;
  thread_matches = extend_matches s.thread_matches t.thread_matches;
  span_matches = extend_matches s.span_matches t.span_matches;
  call_matches = extend_matches s.call_matches t.call_matches;
}

abbrev pub after_process : Address → ProcessesState → ProcessCapabilities → ProcessesState
after_process addr s p = record {
  all_process_matches = extend_matches s.all_process_matches p.process_matches;
  all_thread_matches = extend_matches s.all_thread_matches p.thread_matches;
  all_span_matches = extend_matches s.all_span_matches p.span_matches;
  all_call_matches = extend_matches s.all_call_matches p.call_matches;
  process_feature_counts = s.process_feature_counts ++ (addr, p.feature_count) ∷ [];
}

module _ (rule_set : Matcher) (global_features : List Feature) where
  unfoldable pub find_call_capabilities :
      Address → Located → Result EngineError (FeatureSet × MatchResults)
  find_call_capabilities call_addr call_features = do
    let features = seed [] call_features global_features
    matches ← rule_set.match_scope_results Scope.call features call_addr
    ok (promote_matches rule_set features matches, matches)

  unfoldable pub calls_loop :
      List (Address × CallFeatures) → CallsState → Result EngineError CallsState
  unfolding find_call_capabilities SpanOfCalls.next
  calls_loop [] s = ok s
  calls_loop ((addr, call) ∷ calls) s = find_call_capabilities addr call.features >>= λ r.
      SpanOfCalls.next rule_set s.span_matcher addr r.0 >>= λ m. calls_loop calls (record {
        features = merge s.features r.0;
        call_matches = extend_matches s.call_matches r.1;
        span_matcher = m;
      })

  unfoldable pub find_thread_capabilities :
      Address → ThreadFeatures → Result EngineError ThreadCapabilities
  unfolding calls_loop
  find_thread_capabilities thread_addr thread = do
    s ← calls_loop thread.calls no_calls
    let features = seed s.features thread.features global_features
    thread_matches ← rule_set.match_scope_results Scope.thread features thread_addr
    ok (record {
      features = promote_matches rule_set features thread_matches;
      thread_matches = thread_matches;
      span_matches = s.span_matcher.matches;
      call_matches = s.call_matches;
    })

  unfoldable pub threads_loop :
      List (Address × ThreadFeatures) → ThreadsState → Result EngineError ThreadsState
  unfolding find_thread_capabilities
  threads_loop [] s = ok s
  threads_loop ((addr, thread) ∷ threads) s =
      find_thread_capabilities addr thread >>= λ t. threads_loop threads (after_thread s t)

  unfoldable pub find_process_capabilities :
      Address → ProcessFeatures → Result EngineError ProcessCapabilities
  unfolding threads_loop
  find_process_capabilities process_addr process = do
    s ← threads_loop process.threads no_threads
    let process_features = seed s.process_features process.features global_features
    process_matches ← rule_set.match_scope_results Scope.process process_features process_addr
    ok (record {
      process_matches = process_matches;
      thread_matches = s.thread_matches;
      span_matches = s.span_matches;
      call_matches = s.call_matches;
      feature_count = length process_features;
    })

  unfoldable pub processes_loop :
      List (Address × ProcessFeatures) → ProcessesState → Result EngineError ProcessesState
  unfolding find_process_capabilities
  processes_loop [] s = ok s
  processes_loop ((addr, process) ∷ processes) s = find_process_capabilities addr process >>= λ p.
      processes_loop processes (after_process addr s p)

module _ (rule_set : Matcher) where
  -- `process_and_lower_features`
  abbrev pub process_and_lower : ProcessesState → FeatureSet
  process_and_lower s =
      index_matches rule_set
        (index_matches rule_set
          (index_matches rule_set (index_matches rule_set [] s.all_call_matches) s.all_span_matches)
          s.all_thread_matches)
        s.all_process_matches

abbrev pub with_file : ProcessesState → MatchResults × ℕ → DynamicCapabilities
with_file s found = record {
  matches =
      extend_matches
        (extend_matches
          (extend_matches (extend_matches (extend_matches [] s.all_call_matches) s.all_span_matches)
            s.all_thread_matches)
          s.all_process_matches)
        found.0;
  file_feature_count = found.1;
  process_feature_counts = s.process_feature_counts;
}

module _ (rule_set : Matcher) (freeze : DynamicFeatures) where
  unfoldable pub find_dynamic_capabilities : Result EngineError DynamicCapabilities
  unfolding processes_loop find_file_capabilities
  find_dynamic_capabilities = do
    s ← processes_loop rule_set freeze.global_features freeze.processes no_processes
    found ←
        find_file_capabilities rule_set freeze.file_features freeze.global_features
          (process_and_lower rule_set s)
    ok (with_file s found)
