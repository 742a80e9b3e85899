-- ===== src/Examples/Strings.antt =====
-- The theorems on strings in buffers at small buffers.
use capa_x.Prelude.{◌≡◌, refl, ◌||◌, ltb, List, [], ◌∷◌, arith, if◌then◌else◌, ℕ}
use capa_x.Extract.Strings.{extract_ascii_strings, extract_unicode_strings, take_run}
use capa_x.Extract.Strings.Runs.{is_filled, long_enough, runs, extract_ascii_strings-runs}
use capa_x.Extract.Strings.Greedy.{IsGreedy, extract_unicode_strings-IsGreedy}

-- "ab", a line feed, "abcd", a line feed, "abc"
abbrev three_runs : List ℕ
three_runs = 97 ∷ 98 ∷ 10 ∷ 97 ∷ 98 ∷ 99 ∷ 100 ∷ 10 ∷ 97 ∷ 98 ∷ 99 ∷ []

one_is_long :
    extract_ascii_strings three_runs 4 ≡ record { s = 97 ∷ 98 ∷ 99 ∷ 100 ∷ []; offset = 3 } ∷ []
unfolding extract_ascii_strings take_run
one_is_long = refl

extract_ascii_strings-runs_example :
    extract_ascii_strings three_runs 4
    ≡ (if is_filled three_runs || ltb 4 1 then [] else long_enough 4 (runs 0 three_runs))
extract_ascii_strings-runs_example = extract_ascii_strings-runs three_runs 4

-- "ab" as UTF-16LE behind one other byte
abbrev wide : List ℕ
wide = 97 ∷ 97 ∷ 0 ∷ 98 ∷ 0 ∷ 10 ∷ []

extract_unicode_strings-IsGreedy_example : IsGreedy 2 wide 0 (extract_unicode_strings wide 2)
extract_unicode_strings-IsGreedy_example =
    extract_unicode_strings-IsGreedy wide 2 refl (omega arith)
