-- ===== src/Engine/Leaves.antt =====
-- The evaluation of leaves and ranges in capa-x/src/engine.rs.
use capa_x.Prelude.{
  ℕ, String, Bool, true, false, ◌&&◌, ◌||◌, ◌%◌, Option, none, some, List, [], ◌∷◌, length, str_eq,
  leb, ◌==◌, u32_mod, if◌then◌else◌,
}
use capa_x.Prelude.Result.{Result, ok, err}
use capa_x.Prelude.Text.{contains_text}
use capa_x.Address.{Address}
use capa_x.Address.Order.{address_ord}
use capa_x.Features.{Feature, plain, substring, regex, string, bytes, os, com_object, feature_eq}
use capa_x.Features.Regex.{RegexCrates, CompiledRegex, is_match}
use capa_x.SortedSet
use capa_x.IndexMap
use capa_x.Engine.FeatureSet.{FeatureSet}
use capa_x.Engine.MatchResult.{
  MatchedNode, MatchResult, match_result, Captures, EngineError, unexpanded_com,
}
use capa_x.Engine.MatchResult

-- `leaf`: a result with no children and no captures
abbrev pub leaf_result : MatchedNode → Bool → Option String → List Address → MatchResult
leaf_result node success description locations =
    match_result success node description locations MatchResult.nil []

abbrev pub unwrap_or_default : Option (List Address) → List Address
unwrap_or_default none = []
unwrap_or_default (some s) = s

-- `map_or(0, |s| s.len() as u32)`
abbrev pub count_u32 : Option (List Address) → ℕ
count_u32 none = 0
count_u32 (some s) = length s % u32_mod

-- `max.is_none_or(|mx| count <= mx)`
abbrev pub below_max : ℕ → Option ℕ → Bool
below_max count none = true
below_max count (some mx) = leb count mx

unfoldable pub eval_range : Feature → ℕ → Option ℕ → FeatureSet → Option String → MatchResult
eval_range feature min max fs description =
    let matched = IndexMap.get feature_eq feature fs in
    let count = count_u32 matched in
    if min == 0 && count == 0
    then leaf_result (MatchedNode.range feature min max) true description []
    else leaf_result (MatchedNode.range feature min max) (leb min count && below_max count max)
        description (unwrap_or_default matched)

abbrev pub exact_result : Feature → Option String → Option (List Address) → MatchResult
exact_result feature description (some locations) =
    leaf_result (MatchedNode.leaf feature) true description locations
exact_result feature description none = leaf_result (MatchedNode.leaf feature) false description []

unfoldable pub eval_exact : Feature → FeatureSet → Option String → MatchResult
eval_exact feature fs description =
    exact_result feature description (IndexMap.get feature_eq feature fs)

pub data StringMatch : Type 0 where
  by_substring : StringMatch
  by_regex : CompiledRegex → StringMatch

unfoldable pub string_matches : RegexCrates → StringMatch → String → String → Bool
unfolding is_match
string_matches crates by_substring needle haystack = contains_text needle haystack
string_matches crates (by_regex re) needle haystack = is_match crates re haystack

unfoldable pub string_value : Feature → Option String
string_value (string (plain value)) = some value
string_value (string (substring value)) = some value
string_value (string (regex re)) = some re.raw
string_value _ = none

-- `captures.entry(haystack).or_default().extend(locs)` on a map in the order of its keys
unfoldable pub capture : String → List Address → Captures → Captures
capture k locs [] = (k, SortedSet.extend [] locs) ∷ []
capture k locs ((j, s) ∷ m) = elim (Prim.Native.String.compare k j) [
  | Prim.Native.Nat.Ordering.lt ↦ (k, SortedSet.extend [] locs) ∷ (j, s) ∷ m
  | Prim.Native.Nat.Ordering.eq ↦ (j, SortedSet.extend s locs) ∷ m
  | Prim.Native.Nat.Ordering.gt ↦ (j, s) ∷ capture k locs m
]

-- what the loop of `eval_string_scan` has gathered
pub record Scan : Type 0 where
  pub any : Bool
  pub locations : List Address
  pub captures : Captures

abbrev pub hit : String → List Address → Scan → Scan
hit haystack locs s = record {
  any = true;
  locations = SortedSet.extend s.locations locs;
  captures = capture haystack locs s.captures;
}

-- whether this entry of the set matches
abbrev pub scan_test : RegexCrates → StringMatch → String → Feature → Option String
scan_test crates matcher needle feature = elim (string_value feature) [
  | none ↦ none
  | some haystack ↦ if string_matches crates matcher needle haystack then some haystack else none
]

unfoldable pub string_scan : RegexCrates → StringMatch → String → Bool → FeatureSet → Scan → Scan
string_scan crates matcher needle short_circuit [] s = s
string_scan crates matcher needle short_circuit ((feature, locs) ∷ fs) s =
    elim (scan_test crates matcher needle feature) [
      | none ↦ string_scan crates matcher needle short_circuit fs s
      | some haystack ↦ elim short_circuit [
        | true ↦ hit haystack locs s
        | false ↦ string_scan crates matcher needle short_circuit fs (hit haystack locs s)
      ]
    ]

abbrev pub empty_scan : Scan
empty_scan = record { any = false; locations = []; captures = [] }

unfoldable pub eval_string_scan :
    RegexCrates → Feature → String → StringMatch → FeatureSet → Bool → Option String → MatchResult
eval_string_scan crates query needle matcher fs short_circuit description =
    let s = string_scan crates matcher needle short_circuit fs empty_scan in
    match_result s.any (MatchedNode.leaf query) description s.locations MatchResult.nil s.captures

-- `v.starts_with(needle)` on bytes
abbrev pub starts_with_bytes : List ℕ → List ℕ → Bool
starts_with_bytes v [] = true
starts_with_bytes [] (x ∷ needle) = false
starts_with_bytes (y ∷ v) (x ∷ needle) = y == x && starts_with_bytes v needle

abbrev pub bytes_test : List ℕ → Feature → Bool
bytes_test needle (bytes v) = starts_with_bytes v needle
bytes_test needle _ = false

abbrev pub os_test : String → Feature → Bool
os_test query (os v) = str_eq query "any" || str_eq v "any" || str_eq query v
os_test query _ = false

-- the first entry, in the order of iteration, whose feature passes the test
unfoldable pub first_hit : (Feature → Bool) → FeatureSet → Option (List Address)
first_hit test [] = none
first_hit test ((feature, locs) ∷ fs) =
    let rest = first_hit test fs in if test feature then some locs else rest

unfoldable pub eval_bytes : Feature → List ℕ → FeatureSet → Option String → MatchResult
eval_bytes query needle fs description =
    exact_result query description (first_hit (bytes_test needle) fs)

unfoldable pub eval_os : Feature → String → FeatureSet → Option String → MatchResult
eval_os query_feature query fs description =
    exact_result query_feature description (first_hit (os_test query) fs)

unfoldable pub eval_leaf :
    RegexCrates → Feature → FeatureSet → Bool → Option String → Result EngineError MatchResult
eval_leaf crates (string (substring needle)) fs sc d =
    ok (eval_string_scan crates (string (substring needle)) needle by_substring fs sc d)
eval_leaf crates (string (regex re)) fs sc d =
    ok (eval_string_scan crates (string (regex re)) re.raw (by_regex re) fs sc d)
eval_leaf crates (bytes needle) fs sc d = ok (eval_bytes (bytes needle) needle fs d)
eval_leaf crates (os query) fs sc d = ok (eval_os (os query) query fs d)
eval_leaf crates (com_object kind name) fs sc d = err (unexpanded_com kind)
eval_leaf crates feature fs sc d = ok (eval_exact feature fs d)
