-- ===== src/Engine/Meaning/Ranges.antt =====
-- A range of capa-x/src/engine.rs against the interval that it means.
use capa_x.Prelude.{
  [], ◌∷◌, none, some, Option, length, ◌%◌, ◌∙◌, ◌&&◌, ℕ, ◌≡◌, refl, ap, inl, inr, leb, arith,
  Bool-cases, u32_mod,
}
use capa_x.Features.{Feature}
use capa_x.Engine.FeatureSet.{FeatureSet}
use capa_x.IndexMap
use capa_x.Engine.Boolean.{range_boolean}
use capa_x.Engine.Leaves.{count_u32, below_max}
use capa_x.Features.{feature_eq}
use capa_x.Engine.Meaning.{locations, is_between}

count-locations :
    (fs : FeatureSet) (f : Feature)
    → count_u32 (IndexMap.get feature_eq f fs) ≡ length (locations fs f) % u32_mod
unfolding locations
count-locations [] f = refl
count-locations ((g, addrs) ∷ fs) f = elim (Bool-cases (feature_eq g f)) [
  | inl e ↦ rw e refl
  | inr e ↦ rw e (count-locations fs f)
]

between : (min : ℕ) (max : Option ℕ) (n : ℕ) → (leb min n && below_max n max) ≡ is_between min max n
unfolding is_between
between min none n = ground arith
between min (some max) n = ground arith

pub range-meaning :
    (f : Feature) (min : ℕ) (max : Option ℕ) (fs : FeatureSet)
    → range_boolean f min max fs ≡ is_between min max (length (locations fs f) % u32_mod)
unfolding range_boolean
range-meaning f min max fs =
    between min max (count_u32 (IndexMap.get feature_eq f fs))
    ∙ ap (is_between min max) (count-locations fs f)
