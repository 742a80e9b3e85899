-- ===== src/Prelude/Text.antt =====
-- What the sources use of Rust's `str`, on the native texts.
use Prim.Native.Nat.{ℕ}
use Prim.Native.Char.{code}
use Prim.Native.String.{String}
use mathlib.Core.Bool.{Bool, ◌||◌}
use mathlib.Core.Option
use mathlib.Core.Option.{Option, none, some}
use text.Mathlib.Text.{◌==◌ as str_eq, starts_with}
use capa_x.Prelude.Tests.{◌==◌, if◌then◌else◌}

-- `haystack.contains(needle)`
unfoldable pub contains_text : String → String → Bool
contains_text needle String.[] = starts_with "" needle
contains_text needle (String.◌∷◌ c rest) =
    starts_with (String.◌∷◌ c rest) needle || contains_text needle rest

-- `s.strip_prefix(c)` for one character
unfoldable pub strip_prefix_char : ℕ → String → Option String
strip_prefix_char c String.[] = none
strip_prefix_char c (String.◌∷◌ x rest) = if code x == c then some rest else none

-- `s.strip_suffix(suffix)`
unfoldable pub strip_suffix : String → String → Option String
strip_suffix suffix String.[] = if str_eq "" suffix then some "" else none
strip_suffix suffix (String.◌∷◌ c rest) =
    let shorter = strip_suffix suffix rest in
    if str_eq (String.◌∷◌ c rest) suffix then some "" else Option.map (String.◌∷◌ c) shorter

-- `s.rfind(c).map(|i| &s[..i])`: what stands before the last occurrence of a character
unfoldable pub before_last : ℕ → String → Option String
before_last c String.[] = none
before_last c (String.◌∷◌ x rest) = elim (before_last c rest) [
  | some found ↦ some (String.◌∷◌ x found)
  | none ↦ if code x == c then some "" else none
]
