-- ===== src/Examples/Processes.antt =====
-- The theorems on the dynamic driver at a small tree of processes.
use capa_x.Prelude.{◌≡◌, refl, true, ◌||◌, [], ◌∷◌}
use capa_x.Prelude.Result.{Result, ok, err}
use capa_x.IndexMap
use capa_x.Address.{absolute, process, thread, cmp}
use capa_x.Ordered.{lex}
use capa_x.Features.{matched_rule, feature_eq}
use capa_x.Engine.FeatureSet.{FeatureSet, insert}
use capa_x.Engine.FeatureSet.Has.{has}
use capa_x.Engine.MatchResult.{EngineError}
use capa_x.Freeze.{DynamicFeatures}
use capa_x.Capabilities.Matching.{MatchResults}
use capa_x.Capabilities.Driver.{seed}
use capa_x.Capabilities.Driver.Promoted.{is_hit}
use capa_x.Capabilities.DynamicAnalysis.{DynamicCapabilities, find_dynamic_capabilities}
use capa_x.Capabilities.DynamicAnalysis.Published.{
  MatchesFile, hit_below, find_dynamic_capabilities-visible, is_hit-find_dynamic_capabilities,
}
use capa_x.Examples.{writer}
use capa_x.Examples.Drivers.{watcher, second_call}
use capa_x.Examples.Trees.{calls_of_thread, writer_is_published}

abbrev one_process : DynamicFeatures
one_process = record {
  base_address = absolute 0;
  sample_hashes = record { md5 = ""; sha1 = ""; sha256 = "" };
  global_features = [];
  file_features = [];
  processes =
      (
        process 0 1,
        record {
          name = "sample";
          features = [];
          threads = (thread 0 1 1, record { features = []; calls = calls_of_thread }) ∷ [];
        },
      )
      ∷ [];
}

abbrev capabilities_or_none : Result EngineError DynamicCapabilities → DynamicCapabilities
capabilities_or_none (ok caps) = caps
capabilities_or_none (err e) = record {
  matches = [];
  file_feature_count = 0;
  process_feature_counts = [];
}

abbrev process_run : Result EngineError DynamicCapabilities
process_run = find_dynamic_capabilities watcher one_process

process_run_ends : process_run ≡ ok (capabilities_or_none process_run)
unfolding find_dynamic_capabilities
process_run_ends = refl

-- only the second call of the thread, and the span that it ends, are at this address
call_is_hit : hit_below watcher one_process "write file" second_call ≡ true
unfolding cmp lex seed insert IndexMap.entry feature_eq
call_is_hit = refl

find_dynamic_capabilities-visible_example :
    (fs : FeatureSet) × ((matches : MatchResults) × (MatchesFile watcher
          (capabilities_or_none process_run)
          fs
          matches
        × (has (matched_rule "host/file") second_call fs ≡ true)))
find_dynamic_capabilities-visible_example =
    find_dynamic_capabilities-visible watcher one_process "write file" second_call writer
      (matched_rule "host/file") (capabilities_or_none process_run) refl writer_is_published
      process_run_ends call_is_hit

is_hit-find_dynamic_capabilities_example :
    (fs : FeatureSet) × ((matches : MatchResults) × (MatchesFile watcher
          (capabilities_or_none process_run)
          fs
          matches
        × (is_hit "write file" second_call (capabilities_or_none process_run).matches ≡ (
            hit_below watcher one_process "write file" second_call
            || is_hit "write file" second_call matches))))
is_hit-find_dynamic_capabilities_example =
    is_hit-find_dynamic_capabilities watcher one_process "write file" second_call
      (capabilities_or_none process_run) process_run_ends
