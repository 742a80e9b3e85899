-- ===== src/Capabilities/DynamicAnalysis/Visible.antt =====
-- The file's rules of capa-x/src/capabilities/dynamic_analysis.rs are matched against the matches of
-- all scopes inside the file.
use capa_x.Prelude.{◌≡◌, true, ◌||◌, String, some, List, [], arith}
use capa_x.Address.{Address}
use capa_x.Features.{Feature}
use capa_x.Rules.{Rule}
use capa_x.Engine.FeatureSet.Has.{has}
use capa_x.Freeze.{Located}
use capa_x.Capabilities.Matcher.{Matcher}
use capa_x.Capabilities.Driver.{index_matches, file_features_of}
use capa_x.Capabilities.Driver.Promoted.{
  is_hit, is_published_as, index_matches-visible, file_features_of-lower,
}
use capa_x.Capabilities.DynamicAnalysis.{ProcessesState, process_and_lower}

module _ (rule_set : Matcher) (name : String) (rule : Rule) (f : Feature) (addr : Address) where
  -- what has been gathered is published to the file
  pub process_and_lower-visible :
      (s : ProcessesState) (features : Located) (global_features : List Feature)
      → rule_set.get name ≡ some rule
      → is_published_as rule f ≡ true
      → (is_hit name addr s.all_call_matches
          || (is_hit name addr s.all_span_matches
              || (is_hit name addr s.all_thread_matches || is_hit name addr s.all_process_matches)))
        ≡ true
      → has f addr
          (file_features_of rule_set features global_features (process_and_lower rule_set s))
        ≡ true
  process_and_lower-visible s features global_features known seen hit =
      let calls = index_matches rule_set [] s.all_call_matches in
      let spans = index_matches rule_set calls s.all_span_matches in
      let threads = index_matches rule_set spans s.all_thread_matches in
      file_features_of-lower rule_set name rule f addr known seen features global_features
        (index_matches rule_set threads s.all_process_matches)
        (ground (
          arith,
          index_matches-visible rule_set name rule f addr known seen [] s.all_call_matches,
          index_matches-visible rule_set name rule f addr known seen calls s.all_span_matches,
          index_matches-visible rule_set name rule f addr known seen spans s.all_thread_matches,
          index_matches-visible rule_set name rule f addr known seen threads s.all_process_matches,
        ))
