-- ===== src/Engine/FeatureSet/Has.antt =====
-- Which features a feature set has at which locations, after each operation.
use capa_x.Prelude.{◌≡◌, Bool, false, ◌&&◌, ◌||◌, List, [], ◌∷◌, arith, ◌∙◌, ap}
use capa_x.SortedSet
use capa_x.SortedSet.{contains, is_eq, contains-insert, contains-extend}
use capa_x.IndexMap
use capa_x.Address.{Address, cmp}
use capa_x.Address.Order.{address_ord}
use capa_x.Features.{Feature, feature_eq}
use capa_x.Features.Equality.{feature_eq_sym, feature_eq_trans}
use capa_x.Engine.FeatureSet.{FeatureSet, insert, insert_many, merge, merge_owned}

abbrev pub has : Feature → Address → FeatureSet → Bool
has f loc [] = false
has f loc ((key, locs) ∷ fs) = (feature_eq key f && contains loc locs) || has f loc fs

module _ (f : Feature) (loc : Address) where
  -- an entry that gets the locations of `new` in addition
  pub has-entry :
      (k : Feature) (new : List Address) (change : List Address → List Address) (fs : FeatureSet)
      → ((s : List Address) → contains loc (change s) ≡ (contains loc s || contains loc new))
      → has f loc (IndexMap.entry feature_eq k new change fs)
        ≡ (has f loc fs || (feature_eq k f && contains loc new))
  unfolding IndexMap.entry
  has-entry k new change [] h = ground arith
  has-entry k new change ((key, locs) ∷ fs) h = ground (
    arith,
    has-entry k new change fs h,
    h locs,
    feature_eq_trans key k f,
    feature_eq_trans k key f,
    feature_eq_sym key k,
  )

  pub has-insert :
      (fs : FeatureSet) (k : Feature) (addr : Address)
      → has f loc (insert fs k addr) ≡ (has f loc fs || (feature_eq k f && is_eq (cmp loc addr)))
  unfolding insert
  has-insert fs k addr =
      has-entry k (SortedSet.insert addr []) (SortedSet.insert addr) fs
        (λ s. ground (arith, contains-insert loc addr s, contains-insert loc addr []))
      ∙ ap (λ b. has f loc fs || (feature_eq k f && b))
          (ground (arith, contains-insert loc addr []))

  pub has-insert_many :
      (fs : FeatureSet) (k : Feature) (locs : List Address)
      → has f loc (insert_many fs k locs) ≡ (has f loc fs || (feature_eq k f && contains loc locs))
  unfolding insert_many
  has-insert_many fs k locs =
      has-entry k (SortedSet.extend [] locs) (λ s. SortedSet.extend s locs) fs
        (λ s. ground (arith, contains-extend loc s locs, contains-extend loc [] locs))
      ∙ ap (λ b. has f loc fs || (feature_eq k f && b)) (contains-extend loc [] locs)

  -- A merged set has what the two sets have.
  pub has-merge :
      (fs other : FeatureSet) → has f loc (merge fs other) ≡ (has f loc fs || has f loc other)
  unfolding merge
  has-merge fs [] = ground arith
  has-merge fs ((k, locs) ∷ other) =
      ground (arith, has-merge (insert_many fs k locs) other, has-insert_many fs k locs)

  pub has-merge_owned :
      (fs other : FeatureSet) → has f loc (merge_owned fs other) ≡ (has f loc fs || has f loc other)
  unfolding merge_owned
  has-merge_owned fs [] = ground arith
  has-merge_owned fs ((k, locs) ∷ other) = ground (
    arith,
    has-merge_owned (IndexMap.entry feature_eq k locs (λ s. SortedSet.extend s locs) fs) other,
    has-entry k locs (λ s. SortedSet.extend s locs) fs (λ s. contains-extend loc s locs),
  )
