-- ===== src/Capabilities/Required.antt =====
-- `required_features` and `index_score` of capa-x/src/capabilities/ruleset.rs: features one of which
-- must be there for a rule body to match.
pub mod Present
pub mod Sound
use capa_x.Prelude.{
  ℕ, zero, suc, ◌-◌, ◌^◌, min, ◌≡◌, Bool, true, false, ◌&&◌, ◌||◌, Option, none, some, List, [],
  ◌∷◌, ◌++◌, ltb, leb, ◌==◌, length, any, if◌then◌else◌,
}
use capa_x.Prelude.Int.{ℤ, pos, negsuc, ℤ_leb}
use capa_x.Features.{
  Feature, StringFeature, plain, substring, regex, api, string, bytes, number, offset,
  operand_number, operand_offset, mnemonic, characteristic, section, import, export, function_name,
  class, namespace, property, os, arch, format, com_object, matched_rule, basic_block, feature_eq,
}
use capa_x.Features.Number.{NumberValue, int, float}
use capa_x.Rules.{Node, Statement, NodeList, node}

abbrev in_range : ℤ → ℤ → ℤ → Bool
in_range low high v = ℤ_leb low v && ℤ_leb v high

number_score : NumberValue → ℕ
number_score (int v) =
    if in_range (negsuc 0x7fff) (pos 0x8000) v
      || in_range (pos 0xffff_ff00) (pos 0xffff_ffff) v
      || in_range (pos 0xffff_ffff_ffff_ff00) (pos 0xffff_ffff_ffff_ffff) v
    then 3
    else 7
number_score (float v) = 7

unfoldable pub index_score : Feature → ℕ
unfolding number_score
index_score (matched_rule _) = 9
index_score (string (plain _)) = 9
index_score (api _) = 8
index_score (export _) = 7
index_score (number v) = number_score v
index_score (operand_number _ v) = number_score v
index_score (class _) = 5
index_score (namespace _) = 5
index_score (property _ _) = 5
index_score (import _) = 5
index_score (section _) = 5
index_score (function_name _) = 5
index_score (characteristic _) = 4
index_score (offset _) = 4
index_score (operand_offset _ _) = 4
index_score (mnemonic _) = 2
index_score basic_block = 1
index_score _ = 0

-- `HashSet<Feature>`: no two elements are equal features, and their order means nothing
abbrev pub set_contains : Feature → List Feature → Bool
set_contains f s = any (λ g. feature_eq g f) s

unfoldable pub set_insert : List Feature → Feature → List Feature
set_insert s f = if set_contains f s then s else s ++ f ∷ []

unfoldable pub set_extend : List Feature → List Feature → List Feature
set_extend s [] = s
set_extend s (f ∷ fs) = set_extend (set_insert s f) fs

-- a score, and the alternatives
abbrev pub Requirement : Type 0
Requirement = ℕ × List Feature

-- `(*score, Reverse(features.len()))` of the newer value is at least that of the older
abbrev pub not_below : Requirement → Requirement → Bool
not_below (s, fs) (t, gs) = ltb t s || (s == t && leb (length fs) (length gs))

-- one step of `max_by_key`, which keeps the last of several maxima
unfoldable pub better : Option Requirement → Option Requirement → Option Requirement
better best none = best
better none (some r) = some r
better (some b) (some r) = if not_below r b then some r else some b

unfoldable mutual
  pub required_features : Node → Option Requirement
  required_features (node stmt description) = statement_required stmt

  pub statement_required : Statement → Option Requirement
  statement_required (Statement.not child) = none
  statement_required (Statement.some_of zero children) = none
  statement_required (Statement.range feature zero max) = none
  statement_required (Statement.subscope scope body) = none
  statement_required (Statement.leaf feature) = some (index_score feature, feature ∷ [])
  statement_required (Statement.range feature (suc min) max) =
      some (index_score feature, feature ∷ [])
  statement_required (Statement.and children) = and_required children none
  statement_required (Statement.or children) = or_required children 255 []
  statement_required (Statement.some_of (suc count) children) = or_required children 255 []

  pub and_required : NodeList → Option Requirement → Option Requirement
  and_required NodeList.nil best = best
  and_required (NodeList.cons c cs) best = and_required cs (better best (required_features c))

  pub or_required : NodeList → ℕ → List Feature → Option Requirement
  or_required NodeList.nil score alternatives = some (score, alternatives)
  or_required (NodeList.cons c cs) score alternatives = elim (required_features c) [
    | none ↦ none
    | some (child_score, features) ↦
        or_required cs (min score child_score) (set_extend alternatives features)
  ]
