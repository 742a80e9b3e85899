-- ===== src/Engine/FeatureSet.antt =====
-- The feature sets of capa-x/src/engine.rs: features in the order of their first insertion, each
-- with the sorted set of its locations.
pub mod Has
use capa_x.Prelude.{List, [], ◌∷◌}
use capa_x.Address.{Address}
use capa_x.Address.Order.{address_ord}
use capa_x.Features.{Feature, feature_eq}
use capa_x.SortedSet
use capa_x.IndexMap

abbrev pub FeatureSet : Type 0
FeatureSet = List (Feature × List Address)

unfoldable pub insert : FeatureSet → Feature → Address → FeatureSet
insert fs feature addr =
    IndexMap.entry feature_eq feature (SortedSet.insert addr []) (SortedSet.insert addr) fs

unfoldable pub insert_many : FeatureSet → Feature → List Address → FeatureSet
insert_many fs feature locations =
    IndexMap.entry feature_eq feature (SortedSet.extend [] locations)
      (λ s. SortedSet.extend s locations) fs

unfoldable pub merge : FeatureSet → FeatureSet → FeatureSet
merge fs [] = fs
merge fs ((feature, locs) ∷ other) = merge (insert_many fs feature locs) other

-- a vacant entry takes the finished child's set as it is
unfoldable pub merge_owned : FeatureSet → FeatureSet → FeatureSet
merge_owned fs [] = fs
merge_owned fs ((feature, locs) ∷ other) =
    merge_owned (IndexMap.entry feature_eq feature locs (λ s. SortedSet.extend s locs) fs) other
