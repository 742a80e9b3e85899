-- ===== src/Capabilities/StaticAnalysis/Published.antt =====
-- Where the matches below the file go in `find_static_capabilities` of
-- capa-x/src/capabilities/static_analysis.rs: into what the file's rules are matched against, and into
-- the result.
use capa_x.Prelude.{
  ℕ, ◌<◌, ◌≡◌, sym, ap, ◌∙◌, Bool, true, ◌||◌, String, some, List, [], arith, any, length,
}
use capa_x.Prelude.Result.{ok, bind-ok}
use capa_x.Address.{Address, no_address}
use capa_x.Features.{Feature}
use capa_x.Scope.{Scope}
use capa_x.Rules.{Rule}
use capa_x.Engine.FeatureSet.{FeatureSet}
use capa_x.Engine.FeatureSet.Has.{has}
use capa_x.Freeze.{StaticFeatures}
use capa_x.Parallel.{Jobs}
use capa_x.Capabilities.Matching.{MatchResults}
use capa_x.Capabilities.Matcher.{Matcher}
use capa_x.Capabilities.Driver.{extend_matches, find_file_capabilities, file_features_of}
use capa_x.Capabilities.Driver.Promoted.{is_hit, is_published_as}
use capa_x.Capabilities.Driver.Hits.{is_hit-extend_matches}
use capa_x.Capabilities.StaticAnalysis.{
  in_file, Gathered, gather, nothing_gathered, function_and_lower, StaticCapabilities, with_file,
  map_err, conclude_static, find_static_capabilities,
}
use capa_x.Capabilities.StaticAnalysis.Serial.{
  of_functions, find_static_capabilities-conclude_static,
}
use capa_x.Capabilities.StaticAnalysis.Hits.{map_err-ok, hit_in, hit_in_function, hit_in-gather}
use capa_x.Capabilities.StaticAnalysis.Visible.{function_and_lower-visible}

module _ (rule_set : Matcher) where
  -- what the file's rules are matched against, with the matches that they have
  abbrev pub MatchesFile : StaticCapabilities → FeatureSet → MatchResults → Type 0
  MatchesFile caps fs matches =
      (rule_set.match_scope_results Scope.file fs no_address ≡ ok matches)
      × (caps.file_feature_count ≡ length fs)

module _ (rule_set : Matcher) (freeze : StaticFeatures) (name : String) (addr : Address) where
  -- the matcher finds the rule below the file
  abbrev pub hit_below : Bool
  hit_below = any (hit_in_function rule_set freeze.global_features name addr) freeze.functions

  abbrev file_features : Gathered → FeatureSet
  file_features g =
      file_features_of rule_set freeze.file_features freeze.global_features
        (function_and_lower rule_set g)

  is_hit-with_file :
      (g : Gathered) (found : MatchResults × ℕ)
      → is_hit name addr (with_file g found).matches
        ≡ (hit_in rule_set freeze.global_features name addr g || is_hit name addr found.0)
  is_hit-with_file g found =
      let insns = extend_matches [] g.insn_matches in
      let blocks = extend_matches insns g.bb_matches in
      let functions = extend_matches blocks g.function_matches in
      ground (
        arith,
        is_hit-extend_matches name addr functions found.0,
        is_hit-extend_matches name addr blocks g.function_matches,
        is_hit-extend_matches name addr insns g.bb_matches,
        is_hit-extend_matches name addr [] g.insn_matches,
      )

  concluded :
      (jobs : Jobs) (schedule : List (ℕ × Bool)) (caps : StaticCapabilities)
      → 0 < jobs.count
      → find_static_capabilities rule_set freeze jobs schedule ≡ some (ok caps)
      → (g : Gathered) × ((matches : MatchResults) × (MatchesFile rule_set caps
              (file_features g)
              matches
            × ((hit_in rule_set freeze.global_features name addr g ≡ hit_below)
                × (is_hit name addr caps.matches ≡ (hit_below || is_hit name addr matches)))))
  unfolding conclude_static find_file_capabilities
  concluded jobs schedule caps positive h =
      let e = sym (
        find_static_capabilities-conclude_static rule_set freeze jobs schedule (ok caps) positive
          h) in
      let v = bind-ok (of_functions rule_set freeze) _ caps e in
      let g = gather nothing_gathered freeze.functions v.0 in
      let w =
        bind-ok
          (map_err in_file (
            find_file_capabilities rule_set freeze.file_features freeze.global_features
              (function_and_lower rule_set g)))
          _ caps v.1.1 in
      let found = map_err-ok in_file _ w.0 w.1.0 in
      let fs = file_features g in
      let u = bind-ok (rule_set.match_scope_results Scope.file fs no_address) _ w.0 found in
      let same : with_file g w.0 ≡ caps = cc in
      let pair : ◌≡◌ {A = MatchResults × ℕ} (u.0, length fs) w.0 = cc in
      let hits =
        hit_in-gather rule_set freeze.global_features name addr freeze.functions nothing_gathered
          v.0 v.1.0 in
      (
        g,
        (
          u.0,
          (
            (
              u.1.0,
              sym (ap (λ (c : StaticCapabilities). c.file_feature_count) same)
                  ∙ sym (ap (λ (p : MatchResults × ℕ). p.1) pair),
            ),
            (
              hits,
              sym (ap (λ (c : StaticCapabilities). is_hit name addr c.matches) same)
                  ∙ is_hit-with_file g w.0
                  ∙ rw hits
                      (ap (λ (p : MatchResults × ℕ). hit_below || is_hit name addr p.0) (sym pair)),
            ),
          ),
        ),
      )

  -- Of a run that succeeds, under any positive number of jobs and any schedule under which the workers
  -- end: a rule has a match at an address in the result just when the matcher finds it there in an
  -- instruction, a basic block or a function, or has it there among its matches for the features of
  -- the file, which are as many as the count that is returned.
  pub is_hit-find_static_capabilities :
      (jobs : Jobs) (schedule : List (ℕ × Bool)) (caps : StaticCapabilities)
      → 0 < jobs.count
      → find_static_capabilities rule_set freeze jobs schedule ≡ some (ok caps)
      → (fs : FeatureSet) × ((matches : MatchResults) × (MatchesFile rule_set caps fs matches
            × (is_hit name addr caps.matches ≡ (hit_below || is_hit name addr matches))))
  is_hit-find_static_capabilities jobs schedule caps positive h =
      let c = concluded jobs schedule caps positive h in
      (file_features c.0, (c.1.0, (c.1.1.0, c.1.1.1.1)))

  -- Of a run that succeeds, under any positive number of jobs and any schedule under which the workers
  -- end: where the matcher finds a rule that it knows in an instruction, a basic block or a function,
  -- the file's rules are matched against features that have the match at its address, as the rule's
  -- name, as its namespace and as every prefix of that; these features are as many as the count that is
  -- returned.
  pub find_static_capabilities-visible :
      (rule : Rule) (f : Feature) (jobs : Jobs) (schedule : List (ℕ × Bool))
      (caps : StaticCapabilities)
      → rule_set.get name ≡ some rule
      → is_published_as rule f ≡ true
      → 0 < jobs.count
      → find_static_capabilities rule_set freeze jobs schedule ≡ some (ok caps)
      → hit_below ≡ true
      → (fs : FeatureSet) × ((matches : MatchResults) × (MatchesFile rule_set caps fs matches
            × (has f addr fs ≡ true)))
  find_static_capabilities-visible rule f jobs schedule caps known seen positive h hit =
      let c = concluded jobs schedule caps positive h in
      (
        file_features c.0,
        (
          c.1.0,
          (
            c.1.1.0,
            function_and_lower-visible rule_set name rule f addr c.0 freeze.file_features
                freeze.global_features known seen (c.1.1.1.0 ∙ hit),
          ),
        ),
      )
