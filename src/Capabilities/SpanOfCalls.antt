-- ===== src/Capabilities/SpanOfCalls.antt =====
-- `SpanOfCallsMatcher` of capa-x/src/capabilities/dynamic_analysis.rs: the features of the last
-- calls of a thread, matched after every call.
pub mod Forgotten
pub mod Window
pub mod Located
use capa_x.Prelude.{
  ℕ, Bool, String, Option, none, some, List, [], ◌∷◌, ◌++◌, length, str_eq, ◌==◌, ◌&&◌,
  if◌then◌else◌,
}
use capa_x.Prelude.Result.{Result, ok, ◌>>=◌}
use capa_x.SortedSet
use capa_x.IndexMap
use capa_x.Address.{Address, no_address}
use capa_x.Address.Order.{address_ord}
use capa_x.Features.{Feature, feature_eq}
use capa_x.Scope.{Scope}
use capa_x.Rules.{Rule}
use capa_x.Rules.Graph.{get_dependencies, name_in}
use capa_x.Engine.FeatureSet.{FeatureSet, merge}
use capa_x.Engine.MatchResult.{EngineError}
use capa_x.Capabilities.Matching.{MatchResults}
use capa_x.Capabilities.Matcher.{Matcher}

abbrev pub span_size : ℕ
span_size = 20

pub record SpanOfCallsMatcher : Type 0 where
  pub matches : MatchResults
  -- oldest first
  pub current_feature_sets : List FeatureSet
  pub current_features : FeatureSet
  -- a set of names
  pub last_span_matches : List String

abbrev pub new : SpanOfCallsMatcher
new = record {
  matches = [];
  current_feature_sets = [];
  current_features = [];
  last_span_matches = [];
}

-- `locs.len() == 1 && locs.contains(&Address::NoAddress)`
abbrev pub is_global : List Address → Bool
is_global locs = (length locs == 1) && SortedSet.contains no_address locs

-- `for loc in locs { current.remove(loc); }`
abbrev pub remove_all : List Address → List Address → List Address
remove_all current [] = current
remove_all current (loc ∷ locs) = remove_all (SortedSet.remove loc current) locs

-- an entry is dropped when no location is left of it
abbrev pub kept : Feature → List Address → FeatureSet → FeatureSet
kept feature [] rest = rest
kept feature (loc ∷ locs) rest = (feature, loc ∷ locs) ∷ rest

-- the entry of a feature loses locations; the keys of a map are distinct
unfoldable pub forget : Feature → List Address → FeatureSet → FeatureSet
forget feature locs [] = []
forget feature locs ((key, current) ∷ fs) =
    let rest = forget feature locs fs in
    if feature_eq key feature
    then kept key (remove_all current locs) rest
    else (key, current) ∷ rest

unfoldable pub forget_all : FeatureSet → FeatureSet → FeatureSet
forget_all fs [] = fs
forget_all fs ((feature, locs) ∷ overflowing) =
    forget_all (if is_global locs then fs else forget feature locs fs) overflowing

-- the window before the call: the oldest set leaves a full one
unfoldable pub slide : List FeatureSet → FeatureSet → List FeatureSet × FeatureSet
slide [] fs = ([], fs)
slide (oldest ∷ sets) fs =
    if length (oldest ∷ sets) == span_size
    then (sets, forget_all fs oldest)
    else (oldest ∷ sets, fs)

-- the names that the matches have and the last span had not
abbrev pub newly_encountered : List String → MatchResults → List String
newly_encountered last [] = []
newly_encountered last ((name, res) ∷ matches) =
    let rest = newly_encountered last matches in if name_in name last then rest else name ∷ rest

-- `HashSet::remove`
unfoldable pub remove_name : String → List String → List String
remove_name name [] = []
remove_name name (n ∷ names) =
    let rest = remove_name name names in if str_eq name n then rest else n ∷ rest

abbrev pub remove_names : List String → List String → List String
remove_names names [] = names
remove_names names (n ∷ ns) = remove_names (remove_name n names) ns

abbrev pub record_unsuppressed : List String → MatchResults → MatchResults → MatchResults
record_unsuppressed suppressed [] recorded = recorded
record_unsuppressed suppressed ((name, res) ∷ matches) recorded =
    record_unsuppressed suppressed matches (
      if name_in name suppressed
      then recorded
      else IndexMap.entry str_eq name res (λ hits. hits ++ res) recorded)

module _ (rule_set : Matcher) where
  abbrev pub dependencies_of : Option Rule → List String
  dependencies_of none = []
  dependencies_of (some rule) = get_dependencies rule.body rule_set.by_namespace_prefix

  -- what a new match depends on is recorded again
  unfoldable pub suppressed_rules : List String → List String → List String
  suppressed_rules suppressed [] = suppressed
  suppressed_rules suppressed (name ∷ names) =
      suppressed_rules (remove_names suppressed (dependencies_of (rule_set.get name))) names

  abbrev pub with_matches :
      SpanOfCallsMatcher → List FeatureSet → FeatureSet → MatchResults → SpanOfCallsMatcher
  with_matches m sets features matches =
      let fresh = newly_encountered m.last_span_matches matches in
      let suppressed = suppressed_rules m.last_span_matches fresh in
      record {
        matches = record_unsuppressed suppressed matches m.matches;
        current_feature_sets = sets;
        current_features = features;
        last_span_matches = IndexMap.keys str_eq matches;
      }

  unfoldable pub next :
      SpanOfCallsMatcher → Address → FeatureSet → Result EngineError SpanOfCallsMatcher
  unfolding slide
  next m call_addr call_features = do
    let slid = slide m.current_feature_sets m.current_features
    let features = merge slid.1 call_features
    matches ← rule_set.match_scope_results Scope.span_of_calls features call_addr
    ok (with_matches m (slid.0 ++ call_features ∷ []) features matches)
