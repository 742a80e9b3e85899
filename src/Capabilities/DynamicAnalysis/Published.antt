-- ===== src/Capabilities/DynamicAnalysis/Published.antt =====
-- Where the matches below the file go in `find_dynamic_capabilities` of
-- capa-x/src/capabilities/dynamic_analysis.rs: into what the file's rules are matched against, and into
-- the result.
use capa_x.Prelude.{ℕ, ◌≡◌, sym, ap, ◌∙◌, Bool, true, ◌||◌, String, some, [], arith, any, length}
use capa_x.Prelude.Result.{ok, bind-ok}
use capa_x.Address.{Address, no_address}
use capa_x.Features.{Feature}
use capa_x.Scope.{Scope}
use capa_x.Rules.{Rule}
use capa_x.Engine.FeatureSet.{FeatureSet}
use capa_x.Engine.FeatureSet.Has.{has}
use capa_x.Freeze.{DynamicFeatures}
use capa_x.Capabilities.Matching.{MatchResults}
use capa_x.Capabilities.Matcher.{Matcher}
use capa_x.Capabilities.Driver.{extend_matches, find_file_capabilities, file_features_of}
use capa_x.Capabilities.Driver.Promoted.{is_hit, is_published_as}
use capa_x.Capabilities.Driver.Hits.{is_hit-extend_matches}
use capa_x.Capabilities.DynamicAnalysis.{
  processes_loop, ProcessesState, no_processes, process_and_lower, DynamicCapabilities, with_file,
  find_dynamic_capabilities,
}
use capa_x.Capabilities.DynamicAnalysis.Hits.{
  hit_in_process, hit_in_processes, hit_in_processes-processes_loop,
}
use capa_x.Capabilities.DynamicAnalysis.Visible.{process_and_lower-visible}

module _ (rule_set : Matcher) where
  -- what the file's rules are matched against, with the matches that they have
  abbrev pub MatchesFile : DynamicCapabilities → FeatureSet → MatchResults → Type 0
  MatchesFile caps fs matches =
      (rule_set.match_scope_results Scope.file fs no_address ≡ ok matches)
      × (caps.file_feature_count ≡ length fs)

module _ (rule_set : Matcher) (freeze : DynamicFeatures) (name : String) (addr : Address) where
  -- the matcher finds the rule below the file
  abbrev pub hit_below : Bool
  hit_below = any (hit_in_process rule_set freeze.global_features name addr) freeze.processes

  abbrev file_features : ProcessesState → FeatureSet
  file_features s =
      file_features_of rule_set freeze.file_features freeze.global_features
        (process_and_lower rule_set s)

  is_hit-with_file :
      (s : ProcessesState) (found : MatchResults × ℕ)
      → is_hit name addr (with_file s found).matches
        ≡ (hit_in_processes rule_set freeze.global_features name addr s || is_hit name addr found.0)
  is_hit-with_file s found =
      let calls = extend_matches [] s.all_call_matches in
      let spans = extend_matches calls s.all_span_matches in
      let threads = extend_matches spans s.all_thread_matches in
      let processes = extend_matches threads s.all_process_matches in
      ground (
        arith,
        is_hit-extend_matches name addr processes found.0,
        is_hit-extend_matches name addr threads s.all_process_matches,
        is_hit-extend_matches name addr spans s.all_thread_matches,
        is_hit-extend_matches name addr calls s.all_span_matches,
        is_hit-extend_matches name addr [] s.all_call_matches,
      )

  concluded :
      (caps : DynamicCapabilities)
      → find_dynamic_capabilities rule_set freeze ≡ ok caps
      → (s : ProcessesState) × ((matches : MatchResults) × (MatchesFile rule_set caps
              (file_features s)
              matches
            × ((hit_in_processes rule_set freeze.global_features name addr s ≡ hit_below)
                × (is_hit name addr caps.matches ≡ (hit_below || is_hit name addr matches)))))
  unfolding find_dynamic_capabilities find_file_capabilities
  concluded caps h =
      let v =
        bind-ok (processes_loop rule_set freeze.global_features freeze.processes no_processes) _
          caps h in
      let w =
        bind-ok
          (find_file_capabilities rule_set freeze.file_features freeze.global_features
            (process_and_lower rule_set v.0))
          _ caps v.1.1 in
      let fs = file_features v.0 in
      let u = bind-ok (rule_set.match_scope_results Scope.file fs no_address) _ w.0 w.1.0 in
      let same : with_file v.0 w.0 ≡ caps = cc in
      let pair : ◌≡◌ {A = MatchResults × ℕ} (u.0, length fs) w.0 = cc in
      let hits =
        hit_in_processes-processes_loop rule_set freeze.global_features name addr freeze.processes
          no_processes v.0 v.1.0 in
      (
        v.0,
        (
          u.0,
          (
            (
              u.1.0,
              sym (ap (λ (c : DynamicCapabilities). c.file_feature_count) same)
                  ∙ sym (ap (λ (p : MatchResults × ℕ). p.1) pair),
            ),
            (
              hits,
              sym (ap (λ (c : DynamicCapabilities). is_hit name addr c.matches) same)
                  ∙ is_hit-with_file v.0 w.0
                  ∙ rw hits
                      (ap (λ (p : MatchResults × ℕ). hit_below || is_hit name addr p.0) (sym pair)),
            ),
          ),
        ),
      )

  -- Of a run that succeeds: a rule has a match at an address in the result just when the matcher finds it
  -- there in a call, a thread or a process, when it is recorded there for a span of the calls of a
  -- thread, or when the matcher has it there among its matches for the features of the file, which are
  -- as many as the count that is returned.
  pub is_hit-find_dynamic_capabilities :
      (caps : DynamicCapabilities)
      → find_dynamic_capabilities rule_set freeze ≡ ok caps
      → (fs : FeatureSet) × ((matches : MatchResults) × (MatchesFile rule_set caps fs matches
            × (is_hit name addr caps.matches ≡ (hit_below || is_hit name addr matches))))
  is_hit-find_dynamic_capabilities caps h =
      let c = concluded caps h in (file_features c.0, (c.1.0, (c.1.1.0, c.1.1.1.1)))

  -- Of a run that succeeds: where the matcher finds a rule that it knows in a call, a thread or a
  -- process, or the rule is recorded for a span of calls, the file's rules are matched against features
  -- that have the match at its address, as the rule's name, as its namespace and as every prefix of
  -- that; these features are as many as the count that is returned.
  pub find_dynamic_capabilities-visible :
      (rule : Rule) (f : Feature) (caps : DynamicCapabilities)
      → rule_set.get name ≡ some rule
      → is_published_as rule f ≡ true
      → find_dynamic_capabilities rule_set freeze ≡ ok caps
      → hit_below ≡ true
      → (fs : FeatureSet) × ((matches : MatchResults) × (MatchesFile rule_set caps fs matches
            × (has f addr fs ≡ true)))
  find_dynamic_capabilities-visible rule f caps known seen h hit =
      let c = concluded caps h in
      (
        file_features c.0,
        (
          c.1.0,
          (
            c.1.1.0,
            process_and_lower-visible rule_set name rule f addr c.0 freeze.file_features
                freeze.global_features known seen (c.1.1.1.0 ∙ hit),
          ),
        ),
      )
