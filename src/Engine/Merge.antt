-- ===== src/Engine/Merge.antt =====
-- The two ways of merging feature sets in capa-x/src/engine.rs.
use capa_x.Prelude.{◌≡◌, refl, sym, ap, ◌∙◌, List, [], ◌∷◌, All}
use capa_x.Address.{Address}
use capa_x.Address.Order.{address_ord}
use capa_x.Features.{Feature, feature_eq}
use capa_x.SortedSet
use capa_x.IndexMap
use capa_x.Engine.FeatureSet.{FeatureSet, insert_many, merge, merge_owned}

-- Every feature has its locations in strictly increasing order.
abbrev pub HasSortedSets : FeatureSet → Type 0
HasSortedSets fs = All (λ e. SortedSet.IsSorted e.1) fs

entry_of_sorted :
    (fs : FeatureSet) (feature : Feature) (locs : List Address)
    → SortedSet.IsSorted locs
    → IndexMap.entry feature_eq feature locs (λ s. SortedSet.extend s locs) fs
      ≡ insert_many fs feature locs
unfolding insert_many
entry_of_sorted fs feature locs h =
    ap (λ new. IndexMap.entry feature_eq feature new (λ s. SortedSet.extend s locs) fs)
      (sym (SortedSet.extend-nil locs h))

-- Consuming a child's feature set has the same result as copying its entries, order included, where
-- the child's location sets are sorted, as `BTreeSet`s are.
pub merge_owned-merge :
    (fs other : FeatureSet) → HasSortedSets other → merge_owned fs other ≡ merge fs other
unfolding merge merge_owned
merge_owned-merge fs [] h = refl
merge_owned-merge fs ((feature, locs) ∷ other) h =
    ap (λ new. merge_owned new other) (entry_of_sorted fs feature locs h.0)
    ∙ merge_owned-merge (insert_many fs feature locs) other h.1
