-- ===== src/Engine/Meaning.antt =====
-- What a rule body says of a feature set, with no order of evaluation and no errors: the reference for
-- the two evaluators of capa-x/src/engine.rs. A `count(..)` compares the number of the locations of its
-- feature as a `u32`, since the source casts the number; the counts of children do not wrap.
pub mod Boolean
pub mod Full
pub mod Ranges
use capa_x.Prelude.{
  ℕ, suc, ◌+◌, ◌<◌, String, Bool, true, false, not, ◌&&◌, ◌||◌, ◌≡◌, ◌⊎◌, Option, leb,
  if◌then◌else◌, u32_mod, length, List, [], ◌∷◌, ltb, some, ◌%◌, none,
}
use capa_x.Prelude.Result.{Result, ok, err}
use capa_x.Prelude.Text.{contains_text}
use capa_x.Features.{
  Feature, StringFeature, plain, substring, regex, string, bytes, os, com_object, feature_eq,
}
use capa_x.Features.Regex.{RegexCrates, is_match}
use capa_x.IndexMap
use capa_x.Address.{Address}
use capa_x.Rules.{Node, Statement, NodeList, node, length_nodes}
use capa_x.Engine.FeatureSet.{FeatureSet}
use capa_x.Engine.Leaves.{bytes_test, os_test}
use capa_x.Engine.Boolean.{any_key, on_string}

-- a scan holds if any feature of the set passes its test, any other leaf if it is in the set
unfoldable pub leaf_holds : RegexCrates → FeatureSet → Feature → Bool
leaf_holds crates fs (string (substring needle)) = any_key (on_string (contains_text needle)) fs
leaf_holds crates fs (string (regex re)) = any_key (on_string (is_match crates re)) fs
leaf_holds crates fs (bytes needle) = any_key (bytes_test needle) fs
leaf_holds crates fs (os query) = any_key (os_test query) fs
leaf_holds crates fs (com_object kind name) = false
leaf_holds crates fs feature = IndexMap.contains_key feature_eq feature fs

-- the locations of a feature, of which an absent one has none
unfoldable pub locations : FeatureSet → Feature → List Address
locations [] f = []
locations ((g, addrs) ∷ fs) f = let rest = locations fs f in if feature_eq g f then addrs else rest

-- a number is in an interval that may have no upper end
unfoldable pub is_between : ℕ → Option ℕ → ℕ → Bool
is_between min none n = not (ltb n min)
is_between min (some max) n = not (ltb n min || ltb max n)

abbrev pub count_bool : Bool → ℕ
count_bool true = 1
count_bool false = 0

unfoldable mutual
  pub holds : RegexCrates → FeatureSet → Node → Bool
  holds crates fs (node stmt description) = statement_holds crates fs stmt

  pub statement_holds : RegexCrates → FeatureSet → Statement → Bool
  statement_holds crates fs (Statement.and children) = all_hold crates fs children
  statement_holds crates fs (Statement.or children) = any_holds crates fs children
  statement_holds crates fs (Statement.not child) = not (holds crates fs child)
  statement_holds crates fs (Statement.some_of count children) =
      leb count (count_holding crates fs children)
  statement_holds crates fs (Statement.range feature min max) =
      is_between min max (length (locations fs feature) % u32_mod)
  statement_holds crates fs (Statement.subscope scope body) = false
  statement_holds crates fs (Statement.leaf feature) = leaf_holds crates fs feature

  pub all_hold : RegexCrates → FeatureSet → NodeList → Bool
  all_hold crates fs NodeList.nil = true
  all_hold crates fs (NodeList.cons c cs) = holds crates fs c && all_hold crates fs cs

  pub any_holds : RegexCrates → FeatureSet → NodeList → Bool
  any_holds crates fs NodeList.nil = false
  any_holds crates fs (NodeList.cons c cs) = holds crates fs c || any_holds crates fs cs

  pub count_holding : RegexCrates → FeatureSet → NodeList → ℕ
  count_holding crates fs NodeList.nil = 0
  count_holding crates fs (NodeList.cons c cs) =
      count_bool (holds crates fs c) + count_holding crates fs cs

-- Every `N or more` has fewer than 2^32 children.
unfoldable mutual
  pub IsSized : Node → Type 0
  IsSized (node stmt description) = StatementIsSized stmt

  pub StatementIsSized : Statement → Type 0
  StatementIsSized (Statement.and children) = AllSized children
  StatementIsSized (Statement.or children) = AllSized children
  StatementIsSized (Statement.not child) = IsSized child
  StatementIsSized (Statement.some_of count children) =
      (length_nodes children < u32_mod) × AllSized children
  StatementIsSized (Statement.range feature min max) = Unit
  StatementIsSized (Statement.subscope scope body) = IsSized body
  StatementIsSized (Statement.leaf feature) = Unit

  pub AllSized : NodeList → Type 0
  AllSized NodeList.nil = Unit
  AllSized (NodeList.cons c cs) = IsSized c × AllSized cs

-- No `optional:` is empty: an `N or more` has a positive count or a child.
unfoldable mutual
  pub IsInhabited : Node → Type 0
  IsInhabited (node stmt description) = StatementIsInhabited stmt

  pub StatementIsInhabited : Statement → Type 0
  StatementIsInhabited (Statement.and children) = AllInhabited children
  StatementIsInhabited (Statement.or children) = AllInhabited children
  StatementIsInhabited (Statement.not child) = IsInhabited child
  StatementIsInhabited (Statement.some_of count children) =
      ((0 < count) ⊎ (0 < length_nodes children)) × AllInhabited children
  StatementIsInhabited (Statement.range feature min max) = Unit
  StatementIsInhabited (Statement.subscope scope body) = IsInhabited body
  StatementIsInhabited (Statement.leaf feature) = Unit

  pub AllInhabited : NodeList → Type 0
  AllInhabited NodeList.nil = Unit
  AllInhabited (NodeList.cons c cs) = IsInhabited c × AllInhabited cs

abbrev pub LeafIsExtracted : Feature → Type 0
LeafIsExtracted (com_object kind name) = ⊥
LeafIsExtracted _ = Unit

-- No subscope and no COM leaf is left, as after `expand_and_extract`.
unfoldable mutual
  pub IsExtracted : Node → Type 0
  IsExtracted (node stmt description) = StatementIsExtracted stmt

  pub StatementIsExtracted : Statement → Type 0
  StatementIsExtracted (Statement.and children) = AllExtracted children
  StatementIsExtracted (Statement.or children) = AllExtracted children
  StatementIsExtracted (Statement.not child) = IsExtracted child
  StatementIsExtracted (Statement.some_of count children) = AllExtracted children
  StatementIsExtracted (Statement.range feature min max) = Unit
  StatementIsExtracted (Statement.subscope scope body) = ⊥
  StatementIsExtracted (Statement.leaf feature) = LeafIsExtracted feature

  pub AllExtracted : NodeList → Type 0
  AllExtracted NodeList.nil = Unit
  AllExtracted (NodeList.cons c cs) = IsExtracted c × AllExtracted cs

-- An outcome that is no error agrees with a Boolean.
abbrev pub Agrees {ℓ} : {E : Type ℓ} → Result E Bool → Bool → Type 0
Agrees (ok b) x = b ≡ x
Agrees (err e) x = Unit
