-- ===== src/Capabilities/Index.antt =====
-- `RuleFeatureIndex` of capa-x/src/capabilities/ruleset.rs: which rules can match a feature set.
pub mod Buckets
pub mod Complete
pub mod Candidates
pub mod Bounds
use capa_x.Prelude.{
  ℕ, zero, suc, ◌≡◌, Bool, true, false, ◌&&◌, Option, none, some, List, [], ◌∷◌, ◌++◌, map, any,
  ltb, ◌==◌, if◌then◌else◌,
}
use capa_x.Ordered.{nat_ord}
use capa_x.SortedSet
use capa_x.IndexMap
use capa_x.Features.{
  Feature, StringFeature, plain, substring, regex, string, bytes, os, feature_eq, is_os, is_bytes,
  is_string,
}
use capa_x.Rules.{Node, Rule}
use capa_x.Capabilities.Required.{Requirement, required_features}

pub record RuleFeatureIndex : Type 0 where
  pub exact : List (Feature × List ℕ)
  pub strings : List ℕ
  pub bytes : List ℕ
  pub os : List ℕ
  pub always : List ℕ

abbrev pub empty_index : RuleFeatureIndex
empty_index = record { exact = []; strings = []; bytes = []; os = []; always = [] }

-- `bucket.last() == Some(&position)`
abbrev pub last_is : ℕ → List ℕ → Bool
last_is position [] = false
last_is position (x ∷ []) = x == position
last_is position (x ∷ y ∷ rest) = last_is position (y ∷ rest)

unfoldable pub push_new : ℕ → List ℕ → List ℕ
push_new position bucket = if last_is position bucket then bucket else bucket ++ position ∷ []

-- the default bucket, `index.exact.entry(feature).or_default()`
abbrev pub register_exact : RuleFeatureIndex → ℕ → Feature → RuleFeatureIndex
register_exact index position feature = record index {
  exact = IndexMap.entry feature_eq feature (push_new position []) (push_new position) index.exact;
}

-- puts a position into the bucket of one feature
unfoldable pub register : RuleFeatureIndex → ℕ → Feature → RuleFeatureIndex
register index position (string (substring s)) = record index {
  strings = push_new position index.strings;
}
register index position (string (regex re)) = record index {
  strings = push_new position index.strings;
}
register index position (Feature.bytes b) = record index { bytes = push_new position index.bytes }
register index position (Feature.os s) = record index { os = push_new position index.os }
register index position feature = register_exact index position feature

unfoldable pub register_all : RuleFeatureIndex → ℕ → List Feature → RuleFeatureIndex
register_all index position [] = index
register_all index position (feature ∷ features) =
    register_all (register index position feature) position features

unfoldable pub add_requirement : RuleFeatureIndex → ℕ → Option Requirement → RuleFeatureIndex
add_requirement index position none = record index { always = index.always ++ position ∷ [] }
add_requirement index position (some (score, alternatives)) =
    register_all index position alternatives

abbrev pub add_body : RuleFeatureIndex → ℕ → Node → RuleFeatureIndex
add_body index position body = add_requirement index position (required_features body)

unfoldable pub add_rules : RuleFeatureIndex → ℕ → List Rule → RuleFeatureIndex
add_rules index position [] = index
add_rules index position (rule ∷ rules) =
    add_rules (add_body index position rule.body) (suc position) rules

-- `RuleFeatureIndex::new`
unfoldable pub new : List Rule → RuleFeatureIndex
new rules = add_rules empty_index 0 rules

abbrev pub positions_or_empty : Option (List ℕ) → List ℕ
positions_or_empty none = []
positions_or_empty (some positions) = positions

-- `self.exact.get(feature)`
abbrev pub exact_positions : RuleFeatureIndex → Feature → List ℕ
exact_positions index feature = positions_or_empty (IndexMap.get feature_eq feature index.exact)

unfoldable pub exact_candidates : RuleFeatureIndex → List ℕ → List Feature → List ℕ
exact_candidates index candidates [] = candidates
exact_candidates index candidates (feature ∷ features) =
    exact_candidates index (SortedSet.extend candidates (exact_positions index feature)) features

abbrev pub extend_if : Bool → List ℕ → List ℕ → List ℕ
extend_if true positions candidates = SortedSet.extend candidates positions
extend_if false positions candidates = candidates

-- `candidates`, for the keys of a feature set
unfoldable pub candidates : RuleFeatureIndex → List Feature → List ℕ
candidates index keys = extend_if (any is_os keys) index.os (
    extend_if (any is_bytes keys) index.bytes (
      extend_if (any is_string keys) index.strings
        (exact_candidates index (SortedSet.of_list index.always) keys)))

-- the positions above a bound
abbrev pub above : ℕ → List ℕ → List ℕ
above position [] = []
above position (i ∷ is) = let rest = above position is in if ltb position i then i ∷ rest else rest

-- the dependents of new keys, behind the rule that has just matched
unfoldable pub activate : RuleFeatureIndex → ℕ → List Feature → List ℕ → List ℕ
activate index position [] candidates = candidates
activate index position (feature ∷ features) candidates =
    activate index position features
      (SortedSet.extend candidates (above position (exact_positions index feature)))
