-- ===== src/Examples/Trees.antt =====
-- The theorems on the static and the dynamic driver at small trees of features.
use capa_x.Prelude.{
  length, Option, ℕ, zero, suc, ◌≡◌, refl, true, Bool, ◌||◌, some, List, [], ◌∷◌, arith,
  if◌then◌else◌,
}
use capa_x.Prelude.Result.{Result, ok, err}
use capa_x.SortedSet.{is_eq}
use capa_x.Address.{Address, absolute, cmp}
use capa_x.Address.Order.{address_ord}
use capa_x.Ordered.{lex}
use capa_x.Features.{api, matched_rule, feature_eq, fields, fields_eq, field_eq}
use capa_x.Scope.{Scope}
use capa_x.Engine.FeatureSet.{FeatureSet}
use capa_x.Engine.FeatureSet.Has.{has}
use capa_x.Engine.MatchResult.{EngineError}
use capa_x.Freeze.{BasicBlockFeatures, FunctionFeatures, StaticFeatures}
use capa_x.Parallel.{Jobs, serial_jobs}
use capa_x.Capabilities.Matching.{MatchResults}
use capa_x.Capabilities.Matcher.{Matcher}
use capa_x.Examples.{writer}
use capa_x.Engine.Namespaces.{rule_namespaces}
use capa_x.Prelude.Text.{before_last}
use capa_x.Capabilities.StaticAnalysis.{find_code_capabilities, conclude_static}
use capa_x.Capabilities.Driver.Promoted.{is_hit, is_published_as}
use capa_x.Capabilities.StaticAnalysis.{
  CapabilityError, in_function, StaticCapabilities, find_static_capabilities,
}
use capa_x.Capabilities.StaticAnalysis.Published.{
  MatchesFile, hit_below, find_static_capabilities-visible, is_hit-find_static_capabilities,
}
use capa_x.Capabilities.Driver.Visible.{is_located, is_global}
use capa_x.Capabilities.StaticAnalysis.{CodeCapabilities}
use capa_x.Capabilities.StaticAnalysis.Serial.{
  find_static_capabilities-serial_jobs, find_static_capabilities-FailsAt, FailsAt,
}
use capa_x.Capabilities.StaticAnalysis.Visible.{in_blocks, find_code_capabilities-has}
use capa_x.Examples.Drivers.{watcher, first_call, second_call}
use capa_x.Capabilities.Driver.{seed}
use capa_x.Engine.FeatureSet.{insert}
use capa_x.IndexMap
use capa_x.Freeze.{CallFeatures}
use capa_x.Capabilities.DynamicAnalysis.{CallsState, no_calls, calls_loop}
use capa_x.Capabilities.DynamicAnalysis.Calls.{AreGathered, calls_loop-AreGathered}

abbrev one_block : Address × BasicBlockFeatures
one_block = (
  absolute 16,
  record {
    features = [];
    instructions =
        (absolute 16, record { features = (absolute 16, api "CreateFile") ∷ [] })
        ∷ (absolute 20, record { features = (absolute 20, api "WriteFile") ∷ [] })
        ∷ [];
  },
)

abbrev a_function : FunctionFeatures
a_function = record { features = []; basic_blocks = one_block ∷ [] }

abbrev code_or_none : Result EngineError CodeCapabilities → CodeCapabilities
code_or_none (ok c) = c
code_or_none (err e) = record {
  function_matches = [];
  bb_matches = [];
  insn_matches = [];
  feature_count = 0;
}

abbrev matched_function : Result EngineError CodeCapabilities
matched_function = find_code_capabilities watcher [] (absolute 16) a_function

function_ends : matched_function ≡ ok (code_or_none matched_function)
unfolding find_code_capabilities
function_ends = refl

write_is_below :
    (is_located (api "WriteFile") (absolute 20) a_function.features
      || (is_global (api "WriteFile") (absolute 20) []
          || in_blocks (api "WriteFile") (absolute 20) (one_block ∷ [])))
    ≡ true
unfolding feature_eq fields fields_eq field_eq cmp lex
write_is_below = refl

find_code_capabilities-has_example :
    (fs : FeatureSet) × ((watcher.match_scope_results Scope.function fs (absolute 16)
        ≡ ok (code_or_none matched_function).function_matches)
      × (((code_or_none matched_function).feature_count ≡ length fs)
          × (has (api "WriteFile") (absolute 20) fs ≡ true)))
find_code_capabilities-has_example =
    find_code_capabilities-has watcher [] (api "WriteFile") (absolute 20) (absolute 16) a_function
      (code_or_none matched_function) write_is_below function_ends

-- the second function cannot be matched
abbrev wary : Matcher
wary = record {
  get = watcher.get;
  by_namespace_prefix = [];
  match_scope_results = λ scope fs addr.
      if is_eq (cmp addr (absolute 32))
      then err (EngineError.unextracted_subscope Scope.basic_block)
      else watcher.match_scope_results scope fs addr;
}

abbrev three_functions : StaticFeatures
three_functions = record {
  base_address = absolute 0;
  sample_hashes = record { md5 = ""; sha1 = ""; sha256 = "" };
  global_features = [];
  file_features = [];
  functions =
      (absolute 16, a_function) ∷ (absolute 32, a_function) ∷ (absolute 48, a_function) ∷ [];
}

abbrev two_jobs : Jobs
two_jobs = record { count = 2 }

-- each worker in turn, and no load of the flag is stale
abbrev alternating : ℕ → List (ℕ × Bool)
alternating zero = []
alternating (suc n) = (0, true) ∷ (1, true) ∷ alternating n

abbrev failure : Result CapabilityError StaticCapabilities
failure = err (in_function (absolute 32) (EngineError.unextracted_subscope Scope.basic_block))

three_functions_fail :
    find_static_capabilities wary three_functions two_jobs (alternating 10) ≡ some failure
unfolding find_static_capabilities find_code_capabilities cmp conclude_static
three_functions_fail = refl

find_static_capabilities-serial_jobs_example :
    find_static_capabilities wary three_functions serial_jobs [] ≡ some failure
find_static_capabilities-serial_jobs_example =
    find_static_capabilities-serial_jobs wary three_functions two_jobs (alternating 10) failure
      (omega arith) three_functions_fail

find_static_capabilities-FailsAt_example :
    FailsAt wary three_functions
      (absolute 32)
      (EngineError.unextracted_subscope Scope.basic_block)
      three_functions.functions
find_static_capabilities-FailsAt_example =
    find_static_capabilities-FailsAt wary three_functions two_jobs (alternating 10) (absolute 32)
      (EngineError.unextracted_subscope Scope.basic_block) (omega arith) three_functions_fail

abbrev capabilities_or_none :
    Option (Result CapabilityError StaticCapabilities) → StaticCapabilities
capabilities_or_none (some (ok caps)) = caps
capabilities_or_none _ = record {
  matches = [];
  file_feature_count = 0;
  function_feature_counts = [];
}

abbrev two_job_run : Option (Result CapabilityError StaticCapabilities)
two_job_run = find_static_capabilities watcher three_functions two_jobs (alternating 10)

two_job_run_ends : two_job_run ≡ some (ok (capabilities_or_none two_job_run))
unfolding find_static_capabilities find_code_capabilities conclude_static
two_job_run_ends = refl

pub writer_is_published : is_published_as writer (matched_rule "host/file") ≡ true
unfolding feature_eq fields fields_eq field_eq rule_namespaces before_last
writer_is_published = refl

-- only the second instruction of a block is at this address
instruction_is_hit : hit_below watcher three_functions "write file" (absolute 20) ≡ true
unfolding cmp lex seed insert IndexMap.entry feature_eq
instruction_is_hit = refl

find_static_capabilities-visible_example :
    (fs : FeatureSet) × ((matches : MatchResults) × (MatchesFile watcher
          (capabilities_or_none two_job_run)
          fs
          matches
        × (has (matched_rule "host/file") (absolute 20) fs ≡ true)))
find_static_capabilities-visible_example =
    find_static_capabilities-visible watcher three_functions "write file" (absolute 20) writer
      (matched_rule "host/file") two_jobs (alternating 10) (capabilities_or_none two_job_run) refl
      writer_is_published (omega arith) two_job_run_ends instruction_is_hit

is_hit-find_static_capabilities_example :
    (fs : FeatureSet) × ((matches : MatchResults) × (MatchesFile watcher
          (capabilities_or_none two_job_run)
          fs
          matches
        × (is_hit "write file" (absolute 20) (capabilities_or_none two_job_run).matches ≡ (
            hit_below watcher three_functions "write file" (absolute 20)
            || is_hit "write file" (absolute 20) matches))))
is_hit-find_static_capabilities_example =
    is_hit-find_static_capabilities watcher three_functions "write file" (absolute 20) two_jobs
      (alternating 10) (capabilities_or_none two_job_run) (omega arith) two_job_run_ends

abbrev pub calls_of_thread : List (Address × CallFeatures)
calls_of_thread =
    (first_call, record { name = "CreateFile"; features = (first_call, api "CreateFile") ∷ [] })
    ∷ (second_call, record { name = "WriteFile"; features = (second_call, api "WriteFile") ∷ [] })
    ∷ []

abbrev state_of : Result EngineError CallsState → CallsState
state_of (ok s) = s
state_of (err e) = no_calls

abbrev thread_walk : Result EngineError CallsState
thread_walk = calls_loop watcher [] calls_of_thread no_calls

thread_walk_ends : thread_walk ≡ ok (state_of thread_walk)
unfolding calls_loop
thread_walk_ends = refl

calls_loop-AreGathered_example :
    AreGathered watcher [] calls_of_thread no_calls (state_of thread_walk)
calls_loop-AreGathered_example =
    calls_loop-AreGathered watcher [] calls_of_thread no_calls (state_of thread_walk)
      thread_walk_ends
