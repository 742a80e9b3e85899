-- ===== src/Capabilities/DynamicAnalysis/Hits.antt =====
-- Where the matcher finds a rule below the file, and what the walks of
-- capa-x/src/capabilities/dynamic_analysis.rs gather of it.
use capa_x.Prelude.{◌≡◌, sym, ap, ◌∙◌, Bool, ◌||◌, String, List, [], ◌∷◌, arith, any, length}
use capa_x.Prelude.Result.{ok, bind-ok}
use capa_x.Address.{Address}
use capa_x.Features.{Feature}
use capa_x.Scope.{Scope}
use capa_x.Engine.FeatureSet.{FeatureSet, merge}
use capa_x.Freeze.{CallFeatures, ThreadFeatures, ProcessFeatures}
use capa_x.Capabilities.Matching.{MatchResults}
use capa_x.Capabilities.Matcher.{Matcher}
use capa_x.Capabilities.SpanOfCalls
use capa_x.Capabilities.Driver.{seed, promote_matches, extend_matches}
use capa_x.Capabilities.Driver.Promoted.{is_hit}
use capa_x.Capabilities.Driver.Hits.{finds, finds_after, is_hit-extend_matches}
use capa_x.Capabilities.DynamicAnalysis.{
  find_call_capabilities, calls_loop, CallsState, no_calls, find_thread_capabilities,
  ThreadCapabilities, threads_loop, ThreadsState, no_threads, after_thread,
  find_process_capabilities, ProcessCapabilities, processes_loop, ProcessesState, after_process,
}

module _ (rule_set : Matcher) (global_features : List Feature) (name : String)
    (addr : Address) where
  -- the matcher finds the rule there, in a call
  abbrev pub hit_in_call : Address × CallFeatures → Bool
  hit_in_call (at, call) =
      finds name addr
        (rule_set.match_scope_results Scope.call (seed [] call.features global_features) at)

  -- in a thread or a call of it, or it is recorded for a span of its calls
  abbrev pub hit_in_thread : Address × ThreadFeatures → Bool
  hit_in_thread (at, thread) =
      any hit_in_call thread.calls
      || finds_after (calls_loop rule_set global_features thread.calls no_calls) (λ s.
        is_hit name addr s.span_matcher.matches
        || finds name addr (
            rule_set.match_scope_results Scope.thread
              (seed s.features thread.features global_features) at))

  -- in a process, or in a thread of it
  abbrev pub hit_in_process : Address × ProcessFeatures → Bool
  hit_in_process (at, process) =
      any hit_in_thread process.threads
      || finds_after (threads_loop rule_set global_features process.threads no_threads) (λ s.
        finds name addr (
          rule_set.match_scope_results Scope.process
            (seed s.process_features process.features global_features) at))

  call-finds :
      (at : Address) (call : CallFeatures) (r : FeatureSet × MatchResults)
      → find_call_capabilities rule_set global_features at call.features ≡ ok r
      → hit_in_call (at, call) ≡ is_hit name addr r.1
  unfolding find_call_capabilities
  call-finds at call r e =
      let features = seed [] call.features global_features in
      let v = bind-ok (rule_set.match_scope_results Scope.call features at) _ r e in
      let same : (promote_matches rule_set features v.0, v.0) ≡ r = cc in
      ap (finds name addr) v.1.0 ∙ ap (λ p. is_hit name addr p.1) same

  is_hit-calls_loop :
      (calls : List (Address × CallFeatures)) (s s' : CallsState)
      → calls_loop rule_set global_features calls s ≡ ok s'
      → is_hit name addr s'.call_matches
        ≡ (is_hit name addr s.call_matches || any hit_in_call calls)
  unfolding calls_loop
  is_hit-calls_loop [] s s' e =
      let same : s ≡ s' = cc in
      sym (ap (λ (t : CallsState). is_hit name addr t.call_matches) same) ∙ ground arith
  is_hit-calls_loop ((at, call) ∷ calls) s s' e =
      let v = bind-ok (find_call_capabilities rule_set global_features at call.features) _ s' e in
      let w = bind-ok (SpanOfCalls.next rule_set s.span_matcher at v.0.0) _ s' v.1.1 in
      let next : CallsState = record {
        features = merge s.features v.0.0;
        call_matches = extend_matches s.call_matches v.0.1;
        span_matcher = w.0;
      } in
      ground (
        arith,
        is_hit-calls_loop calls next s' w.1.1,
        is_hit-extend_matches name addr s.call_matches v.0.1,
        call-finds at call v.0 v.1.0,
      )

  thread-finds :
      (at : Address) (thread : ThreadFeatures) (t : ThreadCapabilities)
      → find_thread_capabilities rule_set global_features at thread ≡ ok t
      → hit_in_thread (at, thread) ≡ (
          is_hit name addr t.call_matches
          || (is_hit name addr t.span_matches || is_hit name addr t.thread_matches))
  unfolding find_thread_capabilities
  thread-finds at thread t e =
      let v = bind-ok (calls_loop rule_set global_features thread.calls no_calls) _ t e in
      let features = seed v.0.features thread.features global_features in
      let w = bind-ok (rule_set.match_scope_results Scope.thread features at) _ t v.1.1 in
      let own : finds name addr (rule_set.match_scope_results Scope.thread features at)
          ≡ is_hit name addr w.0 =
        ap (finds name addr) w.1.0 in
      let result : ThreadCapabilities = record {
        features = promote_matches rule_set features w.0;
        thread_matches = w.0;
        span_matches = v.0.span_matcher.matches;
        call_matches = v.0.call_matches;
      } in
      let same : result ≡ t = cc in
      rw v.1.0 (
        ground (
          arith,
          is_hit-calls_loop thread.calls no_calls v.0 v.1.0,
          own,
          ap (λ (k : ThreadCapabilities). is_hit name addr k.call_matches) same,
          ap (λ (k : ThreadCapabilities). is_hit name addr k.span_matches) same,
          ap (λ (k : ThreadCapabilities). is_hit name addr k.thread_matches) same,
        ))

  -- the rule is among what has been gathered of the threads
  abbrev hit_in_threads : ThreadsState → Bool
  hit_in_threads s =
      is_hit name addr s.call_matches
      || (is_hit name addr s.span_matches || is_hit name addr s.thread_matches)

  hit_in_threads-threads_loop :
      (threads : List (Address × ThreadFeatures)) (s s' : ThreadsState)
      → threads_loop rule_set global_features threads s ≡ ok s'
      → hit_in_threads s' ≡ (hit_in_threads s || any hit_in_thread threads)
  unfolding threads_loop
  hit_in_threads-threads_loop [] s s' e =
      let same : s ≡ s' = cc in sym (ap hit_in_threads same) ∙ ground arith
  hit_in_threads-threads_loop ((at, thread) ∷ threads) s s' e =
      let v = bind-ok (find_thread_capabilities rule_set global_features at thread) _ s' e in
      ground (
        arith,
        hit_in_threads-threads_loop threads (after_thread s v.0) s' v.1.1,
        is_hit-extend_matches name addr s.call_matches v.0.call_matches,
        is_hit-extend_matches name addr s.span_matches v.0.span_matches,
        is_hit-extend_matches name addr s.thread_matches v.0.thread_matches,
        thread-finds at thread v.0 v.1.0,
      )

  process-finds :
      (at : Address) (process : ProcessFeatures) (p : ProcessCapabilities)
      → find_process_capabilities rule_set global_features at process ≡ ok p
      → hit_in_process (at, process) ≡ (
          is_hit name addr p.call_matches
          || (is_hit name addr p.span_matches
              || (is_hit name addr p.thread_matches || is_hit name addr p.process_matches)))
  unfolding find_process_capabilities
  process-finds at process p e =
      let v = bind-ok (threads_loop rule_set global_features process.threads no_threads) _ p e in
      let features = seed v.0.process_features process.features global_features in
      let w = bind-ok (rule_set.match_scope_results Scope.process features at) _ p v.1.1 in
      let own : finds name addr (rule_set.match_scope_results Scope.process features at)
          ≡ is_hit name addr w.0 =
        ap (finds name addr) w.1.0 in
      let result : ProcessCapabilities = record {
        process_matches = w.0;
        thread_matches = v.0.thread_matches;
        span_matches = v.0.span_matches;
        call_matches = v.0.call_matches;
        feature_count = length features;
      } in
      let same : result ≡ p = cc in
      rw v.1.0 (
        ground (
          arith,
          hit_in_threads-threads_loop process.threads no_threads v.0 v.1.0,
          own,
          ap (λ (k : ProcessCapabilities). is_hit name addr k.call_matches) same,
          ap (λ (k : ProcessCapabilities). is_hit name addr k.span_matches) same,
          ap (λ (k : ProcessCapabilities). is_hit name addr k.thread_matches) same,
          ap (λ (k : ProcessCapabilities). is_hit name addr k.process_matches) same,
        ))

  -- the rule is among what has been gathered of the processes
  abbrev pub hit_in_processes : ProcessesState → Bool
  hit_in_processes s =
      is_hit name addr s.all_call_matches
      || (is_hit name addr s.all_span_matches
          || (is_hit name addr s.all_thread_matches || is_hit name addr s.all_process_matches))

  pub hit_in_processes-processes_loop :
      (processes : List (Address × ProcessFeatures)) (s s' : ProcessesState)
      → processes_loop rule_set global_features processes s ≡ ok s'
      → hit_in_processes s' ≡ (hit_in_processes s || any hit_in_process processes)
  unfolding processes_loop
  hit_in_processes-processes_loop [] s s' e =
      let same : s ≡ s' = cc in sym (ap hit_in_processes same) ∙ ground arith
  hit_in_processes-processes_loop ((at, process) ∷ processes) s s' e =
      let v = bind-ok (find_process_capabilities rule_set global_features at process) _ s' e in
      ground (
        arith,
        hit_in_processes-processes_loop processes (after_process at s v.0) s' v.1.1,
        is_hit-extend_matches name addr s.all_call_matches v.0.call_matches,
        is_hit-extend_matches name addr s.all_span_matches v.0.span_matches,
        is_hit-extend_matches name addr s.all_thread_matches v.0.thread_matches,
        is_hit-extend_matches name addr s.all_process_matches v.0.process_matches,
        process-finds at process v.0 v.1.0,
      )
