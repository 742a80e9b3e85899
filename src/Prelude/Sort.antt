-- ===== src/Prelude/Sort.antt =====
-- Sorting: Rust's order of texts, and a stable insertion sort for `sort`, `sort_unstable` on texts,
-- and `sort_by_key`.
use Prim.Native.Char.{code}
use Prim.Native.String.{String}
use mathlib.Core.Bool.{Bool, true, false, ◌&&◌, ◌||◌}
use mathlib.Core.List.{List, [], ◌∷◌}
use capa_x.Prelude.Tests.{ltb, ◌==◌, if◌then◌else◌}

-- `a <= b` on texts: UTF-8 keeps the order of the characters' codes
unfoldable pub str_leb : String → String → Bool
str_leb String.[] t = true
str_leb (String.◌∷◌ c s) String.[] = false
str_leb (String.◌∷◌ c s) (String.◌∷◌ d t) =
    ltb (code c) (code d) || (code c == code d) && str_leb s t

module _ {ℓ} {A : Type ℓ} (le : A → A → Bool) where
  -- before the first element that the new one does not exceed
  unfoldable pub insert_sorted : A → List A → List A
  insert_sorted a [] = a ∷ []
  insert_sorted a (x ∷ xs) =
      let rest = insert_sorted a xs in if le a x then a ∷ x ∷ xs else x ∷ rest

  -- an element goes before those that stood behind it and are equal to it
  unfoldable pub sort : List A → List A
  sort [] = []
  sort (x ∷ xs) = insert_sorted x (sort xs)
