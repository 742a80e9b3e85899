-- ===== src/Extract/Strings.antt =====
-- capa-x/src/extract/features/strings.rs: strings in a buffer. A byte is a number below 256, and a
-- `char` made of one is that number.
pub mod Runs
pub mod Greedy
pub mod Detected
use capa_x.Prelude.{
  ℕ, zero, suc, ◌+◌, ◌*◌, Bool, true, false, ◌&&◌, ◌||◌, Option, none, some, List, [], ◌∷◌, ltb,
  leb, ◌==◌, if◌then◌else◌, length, all, any, get_elem?, drop,
}

pub record ExtractedString : Type 0 where
  pub s : List ℕ
  pub offset : ℕ

-- `REPEATS`
abbrev pub repeats : List ℕ
repeats = 65 ∷ 0 ∷ 254 ∷ 255 ∷ []

-- the tab, and from the space to the tilde
abbrev pub is_ascii_byte : ℕ → Bool
is_ascii_byte b = (b == 9) || (leb 32 b && leb b 126)

abbrev pub buf_filled_with : List ℕ → ℕ → Bool
buf_filled_with [] character = false
buf_filled_with (b ∷ buf) character = all (λ c. c == character) (b ∷ buf)

-- nothing is looked for in these
abbrev pub is_filler : List ℕ → Bool
is_filler [] = true
is_filler (b ∷ buf) = any (λ r. b == r) repeats && buf_filled_with (b ∷ buf) b

-- the inner loop: the bytes of the run and what is behind it
unfoldable pub take_run : List ℕ → List ℕ × List ℕ
take_run [] = ([], [])
take_run (b ∷ buf) =
    let r = take_run buf in if is_ascii_byte b then (b ∷ r.0, r.1) else ([], b ∷ buf)

-- a run that is long enough is put in front of what is found behind it
abbrev pub push_run : ℕ → ℕ → List ℕ → List ExtractedString → List ExtractedString
push_run n start run out =
    if leb n (length run) then record { s = run; offset = start } ∷ out else out

-- The outer loop from a position on, for so many turns.
unfoldable pub ascii_loop : ℕ → ℕ → ℕ → List ℕ → List ExtractedString
ascii_loop zero n i buf = []
ascii_loop (suc fuel) n i [] = []
ascii_loop (suc fuel) n i (b ∷ buf) =
    let r = take_run (b ∷ buf) in
    elim (is_ascii_byte b) [
      | true ↦ push_run n i r.0 (ascii_loop fuel n (i + length r.0) r.1)
      | false ↦ ascii_loop fuel n (suc i) buf
    ]

-- a turn takes a byte at least
unfoldable pub extract_ascii_strings : List ℕ → ℕ → List ExtractedString
unfolding ascii_loop
extract_ascii_strings buf n =
    if is_filler buf || ltb n 1 then [] else ascii_loop (suc (length buf)) n 0 buf

-- the characters of the pairs of an ASCII byte and a zero, from the start on
unfoldable pub pairs_at : List ℕ → List ℕ
pairs_at (low ∷ high ∷ buf) =
    let rest = pairs_at buf in if is_ascii_byte low && (high == 0) then low ∷ rest else []
pairs_at _ = []

unfoldable pub unicode_loop : ℕ → ℕ → ℕ → List ℕ → List ExtractedString
unicode_loop zero n i buf = []
unicode_loop (suc fuel) n i (b ∷ c ∷ buf) =
    let s = pairs_at (b ∷ c ∷ buf) in
    elim (leb n (length s)) [
      | true ↦
          record { s = s; offset = i }
          ∷ unicode_loop fuel n (i + 2 * length s) (drop (2 * length s) (b ∷ c ∷ buf))
      | false ↦ unicode_loop fuel n (suc i) (c ∷ buf)
    ]
unicode_loop (suc fuel) n i _ = []

unfoldable pub extract_unicode_strings : List ℕ → ℕ → List ExtractedString
unfolding unicode_loop
extract_unicode_strings buf n =
    if is_filler buf || ltb n 1 then [] else unicode_loop (suc (length buf)) n 0 buf

abbrev pub min_string_len : ℕ
min_string_len = 4

abbrev pub min_unicode_bytes : ℕ
min_unicode_bytes = 9

abbrev pub is_viv_printable_byte : ℕ → Bool
is_viv_printable_byte b = is_ascii_byte b || ((b == 10) || ((b == 11) || ((b == 12) || (b == 13))))

-- `take_while`
unfoldable pub printable_prefix : List ℕ → List ℕ
printable_prefix [] = []
printable_prefix (b ∷ buf) =
    let rest = printable_prefix buf in if is_viv_printable_byte b then b ∷ rest else []

abbrev is_terminator : Option ℕ → Bool
is_terminator none = false
is_terminator (some b) = b == 0

unfoldable pub detect_string : List ℕ → Option (List ℕ)
unfolding printable_prefix
detect_string buf =
    let s = printable_prefix buf in
    if ltb (length s) min_string_len
    then none
    else if is_terminator (get_elem? buf (length s))
    then some s
    else none

-- a code unit as a `char`; none for a surrogate
abbrev pub unit_char : ℕ → ℕ → Option ℕ
unit_char low high = let u = low + 256 * high in if leb 55296 u && leb u 57343 then none else some u

abbrev pub and_char : Option ℕ → Option (List ℕ) → Option (List ℕ)
and_char (some c) (some rest) = some (c ∷ rest)
and_char _ _ = none

-- the loop of `detectUnicode` behind `count` bytes, with the characters of the units from there to
-- the terminator
unfoldable pub unicode_units : ℕ → ℕ → List ℕ → Option (List ℕ)
unicode_units charset count (low ∷ high ∷ buf) =
    let rest = unicode_units charset (2 + count) buf in
    if low == 0
    then (if ltb count min_unicode_bytes then none else some [])
    else if is_viv_printable_byte low && (high == charset)
    then and_char (unit_char low high) rest
    else none
unicode_units charset count _ = none

unfoldable pub detect_unicode : List ℕ → Option (List ℕ)
unfolding unicode_units
detect_unicode (low ∷ charset ∷ buf) = unicode_units charset 0 (low ∷ charset ∷ buf)
detect_unicode _ = none

-- `or_else`
abbrev pub or_else : {A : Type 0} → Option A → Option A → Option A
or_else (some a) b = some a
or_else none b = b

unfoldable pub string_at : List ℕ → Option (List ℕ)
unfolding detect_string detect_unicode
string_at buf = or_else (detect_string buf) (detect_unicode buf)

unfoldable pub is_probably_string : List ℕ → Bool
unfolding string_at
is_probably_string buf = elim (string_at buf) [ none ↦ false | some s ↦ true ]
