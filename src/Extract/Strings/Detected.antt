-- ===== src/Extract/Strings/Detected.antt =====
-- `detect_string` of capa-x/src/extract/features/strings.rs: which buffers start with a string.
use capa_x.Prelude.{
  if◌then◌else◌, ℕ, ◌≤◌, ◌≡◌, true, List, ◌∷◌, ◌++◌, length, all, Bool, some, Option, ltb, false,
  none,
}
use capa_x.Extract.Strings.{
  is_viv_printable_byte, min_string_len, Bool, some, Option, ltb, false, none,
}

-- the string, a zero, and anything behind it
pub record Starts (buf s : List ℕ) : Type 0 where
  pub rest : List ℕ
  pub terminated : buf ≡ s ++ 0 ∷ rest
  pub printable : all is_viv_printable_byte s ≡ true
  pub long : min_string_len ≤ length s

abbrev decided : Bool → Bool → List ℕ → Option (List ℕ)
decided short ends s = if short then none else if ends then some s else none
