-- ===== src/Capabilities/SpanOfCalls/Forgotten.antt =====
-- What leaves the live set of `SpanOfCallsMatcher` of capa-x/src/capabilities/dynamic_analysis.rs.
use capa_x.Prelude.{
  ◌≡◌, refl, true, false, ◌&&◌, ◌||◌, not, List, [], ◌∷◌, arith, Bool-cases, inl, inr,
}
use capa_x.SortedSet
use capa_x.SortedSet.{contains, is_eq, contains-remove}
use capa_x.Address.{Address, no_address, cmp}
use capa_x.Address.Order.{address_ord, cmp_self, eq_of_cmp}
use capa_x.Features.{Feature, feature_eq}
use capa_x.Features.Equality.{feature_eq_sym, feature_eq_trans}
use capa_x.Engine.FeatureSet.{FeatureSet}
use capa_x.Engine.FeatureSet.Has.{has}
use capa_x.Capabilities.SpanOfCalls.{is_global, remove_all, kept, forget, forget_all}

module _ (f : Feature) (loc : Address) where
  contains-remove_all :
      (current locs : List Address)
      → contains loc (remove_all current locs) ≡ (contains loc current && not (contains loc locs))
  contains-remove_all current [] = ground arith
  contains-remove_all current (l ∷ locs) =
      ground (
        arith,
        contains-remove_all (SortedSet.remove l current) locs,
        contains-remove loc l current,
      )

  has-kept :
      (k : Feature) (locs : List Address) (rest : FeatureSet)
      → has f loc (kept k locs rest) ≡ ((feature_eq k f && contains loc locs) || has f loc rest)
  has-kept k [] rest = ground arith
  has-kept k (l ∷ locs) rest = refl

  has-forget :
      (k : Feature) (locs : List Address) (fs : FeatureSet)
      → has f loc (forget k locs fs) ≡ (has f loc fs && not (feature_eq k f && contains loc locs))
  unfolding forget
  has-forget k locs [] = refl
  has-forget k locs ((key, current) ∷ fs) = ground (
    arith,
    has-forget k locs fs,
    has-kept key (remove_all current locs) (forget k locs fs),
    contains-remove_all current locs,
    feature_eq_trans key k f,
    feature_eq_trans k key f,
    feature_eq_trans key f k,
    feature_eq_sym k f,
    feature_eq_sym key k,
  )

  -- a global entry has no location but `no_address`
  global_absent :
      (locs : List Address)
      → is_eq (cmp loc no_address) ≡ false
      → is_global locs ≡ true
      → contains loc locs ≡ false
  global_absent [] away g = cc
  global_absent (l ∷ []) away g =
      ground (arith, eq_of_cmp loc l, eq_of_cmp no_address l, cmp_self loc)
  global_absent (l ∷ l' ∷ locs) away g = absurd (ground arith)

  pub has-forget_all :
      (fs overflowing : FeatureSet)
      → is_eq (cmp loc no_address) ≡ false
      → has f loc (forget_all fs overflowing) ≡ (has f loc fs && not (has f loc overflowing))
  unfolding forget_all
  has-forget_all fs [] away = ground arith
  has-forget_all fs ((k, locs) ∷ overflowing) away = elim (Bool-cases (is_global locs)) [
    | inl e ↦ rw (e, global_absent locs away e) (ground (arith, has-forget_all fs overflowing away))
    | inr e ↦
        rw e
          (ground (arith, has-forget_all (forget k locs fs) overflowing away, has-forget k locs fs))
  ]
