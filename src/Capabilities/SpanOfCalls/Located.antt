-- ===== src/Capabilities/SpanOfCalls/Located.antt =====
-- No feature of the live set of `SpanOfCallsMatcher` of capa-x/src/capabilities/dynamic_analysis.rs
-- stays there without a location.
use capa_x.Prelude.{◌≡◌, ◌==◌, true, List, [], ◌∷◌, Bool-cases, inl, inr, length, arith}
use capa_x.SortedSet
use capa_x.SortedSet.{contains, contains-insert}
use capa_x.IndexMap
use capa_x.Address.{Address}
use capa_x.Address.Order.{address_ord, cmp_self}
use capa_x.Features.{Feature, feature_eq}
use capa_x.Engine.FeatureSet.{FeatureSet, insert_many, merge}
use capa_x.Capabilities.SpanOfCalls.{
  is_global, remove_all, kept, forget, forget_all, slide, span_size,
}

abbrev pub HasLocation : List Address → Type 0
HasLocation [] = ⊥
HasLocation (loc ∷ locs) = Unit

-- Every feature of the set has a location.
abbrev pub IsLocated : FeatureSet → Type 0
IsLocated [] = Unit
IsLocated ((feature, locs) ∷ fs) = HasLocation locs × IsLocated fs

abbrev pub AreLocated : List FeatureSet → Type 0
AreLocated [] = Unit
AreLocated (s ∷ sets) = IsLocated s × AreLocated sets

IsLocated-kept :
    (k : Feature) (locs : List Address) (rest : FeatureSet)
    → IsLocated rest
    → IsLocated (kept k locs rest)
IsLocated-kept k [] rest h = h
IsLocated-kept k (l ∷ locs) rest h = (tt, h)

IsLocated-forget :
    (k : Feature) (locs : List Address) (fs : FeatureSet)
    → IsLocated fs
    → IsLocated (forget k locs fs)
unfolding forget
IsLocated-forget k locs [] h = tt
IsLocated-forget k locs ((key, current) ∷ fs) h = elim (Bool-cases (feature_eq key k)) [
  | inl e ↦ rw e (
      IsLocated-kept key (remove_all current locs) (forget k locs fs)
        (IsLocated-forget k locs fs h.1))
  | inr e ↦ rw e (h.0, IsLocated-forget k locs fs h.1)
]

IsLocated-forget_all :
    (fs overflowing : FeatureSet) → IsLocated fs → IsLocated (forget_all fs overflowing)
unfolding forget_all
IsLocated-forget_all fs [] h = h
IsLocated-forget_all fs ((k, locs) ∷ overflowing) h = elim (Bool-cases (is_global locs)) [
  | inl e ↦ rw e (IsLocated-forget_all fs overflowing h)
  | inr e ↦
      rw e (IsLocated-forget_all (forget k locs fs) overflowing (IsLocated-forget k locs fs h))
]

pub IsLocated-slide :
    (sets : List FeatureSet) (fs : FeatureSet) → IsLocated fs → IsLocated (slide sets fs).1
unfolding slide
IsLocated-slide [] fs h = h
IsLocated-slide (s ∷ sets) fs h = elim (Bool-cases (length (s ∷ sets) == span_size)) [
  | inl e ↦ rw e (IsLocated-forget_all fs s h)
  | inr e ↦ rw e h
]

HasLocation-contains : (loc : Address) (s : List Address) → contains loc s ≡ true → HasLocation s
HasLocation-contains loc [] h = cc
HasLocation-contains loc (l ∷ s) h = tt

HasLocation-insert : (loc : Address) (s : List Address) → HasLocation (SortedSet.insert loc s)
HasLocation-insert loc s =
    HasLocation-contains loc (SortedSet.insert loc s)
      (ground (arith, contains-insert loc loc s, cmp_self loc))

HasLocation-extend : (s locs : List Address) → HasLocation s → HasLocation (SortedSet.extend s locs)
HasLocation-extend s [] h = h
HasLocation-extend s (l ∷ locs) h =
    HasLocation-extend (SortedSet.insert l s) locs (HasLocation-insert l s)

IsLocated-insert_many :
    (fs : FeatureSet) (k : Feature) (locs : List Address)
    → HasLocation locs
    → IsLocated fs
    → IsLocated (insert_many fs k locs)
unfolding insert_many IndexMap.entry
IsLocated-insert_many [] k [] some_there h = absurd some_there
IsLocated-insert_many [] k (l ∷ locs) some_there h =
    (HasLocation-extend (SortedSet.insert l []) locs (HasLocation-insert l []), tt)
IsLocated-insert_many ((key, current) ∷ fs) k locs some_there h =
    elim (Bool-cases (feature_eq key k)) [
      | inl e ↦ rw e (HasLocation-extend current locs h.0, h.1)
      | inr e ↦ rw e (h.0, IsLocated-insert_many fs k locs some_there h.1)
    ]

pub IsLocated-merge :
    (fs other : FeatureSet) → IsLocated fs → IsLocated other → IsLocated (merge fs other)
unfolding merge
IsLocated-merge fs [] h k = h
IsLocated-merge fs ((f, locs) ∷ other) h k =
    IsLocated-merge (insert_many fs f locs) other (IsLocated-insert_many fs f locs k.0 h) k.1
