-- ===== src/Capabilities/Driver.antt =====
-- What capa-x/src/capabilities/static_analysis.rs and dynamic_analysis.rs share (each file has its
-- own copy). A walk over a `HashMap` of matches goes in the order of the first insertions, which is
-- one of the orders it may have.
pub mod Visible
pub mod Promoted
pub mod Hits
use capa_x.Prelude.{ℕ, Option, none, some, List, [], ◌∷◌, ◌++◌, map, length, str_eq}
use capa_x.Prelude.Result.{Result, ok, ◌>>=◌}
use capa_x.SortedSet
use capa_x.IndexMap
use capa_x.Address.{Address, no_address}
use capa_x.Address.Order.{address_ord}
use capa_x.Features.{Feature, feature_eq}
use capa_x.Scope.{Scope}
use capa_x.Rules.{Rule}
use capa_x.Engine.FeatureSet.{FeatureSet, insert, merge}
use capa_x.Engine.MatchResult.{MatchResult, EngineError}
use capa_x.Engine.Namespaces.{index_rule_matches}
use capa_x.Freeze.{Located}
use capa_x.Capabilities.Matching.{MatchResults}
use capa_x.Capabilities.Matcher.{Matcher}

abbrev insert_located : FeatureSet → Located → FeatureSet
insert_located fs [] = fs
insert_located fs ((addr, feature) ∷ features) = insert_located (insert fs feature addr) features

abbrev insert_global : FeatureSet → List Feature → FeatureSet
insert_global fs [] = fs
insert_global fs (feature ∷ features) = insert_global (insert fs feature no_address) features

unfoldable pub seed : FeatureSet → Located → List Feature → FeatureSet
seed fs features global_features = insert_global (insert_located fs features) global_features

unfoldable pub extend_matches : MatchResults → MatchResults → MatchResults
extend_matches into [] = into
extend_matches into ((name, res) ∷ from) =
    extend_matches (IndexMap.entry str_eq name res (λ hits. hits ++ res) into) from

abbrev promote_hits : FeatureSet → Rule → List (Address × MatchResult) → FeatureSet
promote_hits fs rule [] = fs
promote_hits fs rule ((addr, result) ∷ hits) =
    promote_hits (index_rule_matches fs rule (addr ∷ [])) rule hits

abbrev promote_rule : FeatureSet → Option Rule → List (Address × MatchResult) → FeatureSet
promote_rule fs none hits = fs
promote_rule fs (some rule) hits = promote_hits fs rule hits

-- the set of the addresses where a rule matched
abbrev pub hit_addresses : List (Address × MatchResult) → List Address
hit_addresses hits = SortedSet.of_list (map (λ hit. hit.0) hits)

abbrev index_rule : FeatureSet → Option Rule → List (Address × MatchResult) → FeatureSet
index_rule fs none hits = fs
index_rule fs (some rule) hits = index_rule_matches fs rule (hit_addresses hits)

-- the numeric address zero is a location, no address is none
unfoldable pub guarded_insert : FeatureSet → Feature → Address → FeatureSet
guarded_insert fs feature no_address = IndexMap.entry feature_eq feature [] (λ s. s) fs
guarded_insert fs feature addr = insert fs feature addr

abbrev guarded_located : FeatureSet → Located → FeatureSet
guarded_located fs [] = fs
guarded_located fs ((addr, feature) ∷ features) =
    guarded_located (guarded_insert fs feature addr) features

abbrev guarded_global : FeatureSet → List Feature → FeatureSet
guarded_global fs [] = fs
guarded_global fs (feature ∷ features) =
    guarded_global (guarded_insert fs feature no_address) features

module _ (rule_set : Matcher) where
  unfoldable pub promote_matches : FeatureSet → MatchResults → FeatureSet
  promote_matches fs [] = fs
  promote_matches fs ((name, res) ∷ matches) =
      promote_matches (promote_rule fs (rule_set.get name) res) matches

  -- the loop of a driver over all matches below the file
  unfoldable pub index_matches : FeatureSet → MatchResults → FeatureSet
  index_matches fs [] = fs
  index_matches fs ((name, res) ∷ matches) =
      index_matches (index_rule fs (rule_set.get name) res) matches

  -- the features that the file's rules are matched against
  unfoldable pub file_features_of : Located → List Feature → FeatureSet → FeatureSet
  file_features_of features global_features lower =
      merge (guarded_global (guarded_located [] features) global_features) lower

  unfoldable pub find_file_capabilities :
      Located → List Feature → FeatureSet → Result EngineError (MatchResults × ℕ)
  unfolding file_features_of
  find_file_capabilities features global_features lower = do
    let file_features = file_features_of features global_features lower
    matches ← rule_set.match_scope_results Scope.file file_features no_address
    ok (matches, length file_features)
