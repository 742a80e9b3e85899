-- ===== src/Features/Regex.antt =====
-- `CompiledRegex` of capa-x/src/features.rs. The crates `regex` and `fancy_regex` are parameters.
use Prim.Native.String.{◌++◌ as str_append}
use capa_x.Prelude.{String, Bool, false, Option, none, some, if◌then◌else◌}
use capa_x.Prelude.Result.{Result, ok, err}
use capa_x.Prelude.Text.{strip_prefix_char, strip_suffix}

-- What the two crates answer: whether a pattern compiles, and whether it matches a text.
-- `none` is an internal error of `fancy_regex`, such as its guard against backtracking.
pub record RegexCrates : Type 0 where
  pub standard_new : String → Bool
  pub standard_is_match : String → String → Bool
  pub fancy_new : String → Result String (Unit {0})
  pub fancy_is_match : String → String → Option Bool

-- A compiled expression is determined by the pattern that it was compiled from.
pub data RegexEngine : Type 0 where
  standard : String → RegexEngine
  fancy : String → RegexEngine

pub record CompiledRegex : Type 0 where
  pub raw : String
  pub engine : RegexEngine

unwrap_or_false : Option Bool → Bool
unwrap_or_false none = false
unwrap_or_false (some b) = b

engine_is_match : RegexCrates → RegexEngine → String → Bool
unfolding unwrap_or_false
engine_is_match crates (standard pattern) text = crates.standard_is_match pattern text
engine_is_match crates (fancy pattern) text = unwrap_or_false (crates.fancy_is_match pattern text)

unfoldable pub is_match : RegexCrates → CompiledRegex → String → Bool
unfolding engine_is_match
is_match crates re text = engine_is_match crates re.engine text

-- the text between the delimiters, and whether the flag `i` is given
delimited : String → Option (String × Bool)
delimited raw = elim (strip_prefix_char b'/' raw) [
  | none ↦ none
  | some body ↦ elim (strip_suffix "/i" body) [
    | some p ↦ some (p, Bool.true)
    | none ↦ elim (strip_suffix "/" body) [ some p ↦ some (p, false) | none ↦ none ]
  ]
]

abbrev with_flags : String → Bool → String
with_flags pat ignorecase =
    str_append (str_append (str_append "(?s" (if ignorecase then "i" else "")) ")") pat

abbrev syntax_error : String → String
syntax_error raw = str_append "invalid regular expression syntax: " raw

abbrev pattern_error : String → String → String
pattern_error raw e =
    str_append
      (str_append (str_append "invalid regular expression: " raw)
        " it should use Python syntax, try it at https://pythex.org (")
      (str_append e ")")

compile_engine : RegexCrates → String → String → Result String RegexEngine
compile_engine crates raw pattern =
    if crates.standard_new pattern then ok (standard pattern) else elim (crates.fancy_new pattern) [
      | ok _ ↦ ok (fancy pattern)
      | err e ↦ err (pattern_error raw e)
    ]

with_raw : String → Result String RegexEngine → Result String CompiledRegex
with_raw raw (ok engine) = ok (record { raw = raw; engine = engine })
with_raw raw (err e) = err e

pub compile : RegexCrates → String → Result String CompiledRegex
unfolding delimited compile_engine with_raw
compile crates raw = elim (delimited raw) [
  | none ↦ err (syntax_error raw)
  | some (pat, ignorecase) ↦ with_raw raw (compile_engine crates raw (with_flags pat ignorecase))
]
