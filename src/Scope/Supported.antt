-- ===== src/Scope/Supported.antt =====
-- Which features each scope can have: `supported_features` and `ensure_feature_valid_for_scopes` of
-- capa-x/src/rules/scope.rs. A set is a list, of which only the membership matters.
pub mod Nesting
use capa_x.Prelude.{
  ℕ, String, Bool, true, false, Option, none, some, List, [], ◌∷◌, ◌++◌, str_eq, any, ◌==◌,
  if◌then◌else◌,
}
use capa_x.Prelude.Result.{Result, ok, err}
use capa_x.IndexMap
use capa_x.Features.{
  Feature, api, string, bytes, number, offset, operand_number, operand_offset, mnemonic,
  characteristic, section, import, export, function_name, class, namespace, property, os, arch,
  format, com_object, matched_rule, basic_block,
}
use capa_x.Scope.{Scope, Scopes, scope_eq, scope_index}
use capa_x.Rules.Error.{RuleError, invalid, feature_not_supported}

pub data FeatureKind : Type 0 where
  matched_rule_kind export_kind import_kind section_kind function_name_kind string_family_kind
        bytes_kind api_kind number_kind offset_kind mnemonic_kind operand_number_kind
        operand_offset_kind class_kind namespace_kind property_kind os_kind arch_kind format_kind
        basic_block_kind :
      FeatureKind

abbrev kind_index : FeatureKind → ℕ
kind_index matched_rule_kind = 0
kind_index export_kind = 1
kind_index import_kind = 2
kind_index section_kind = 3
kind_index function_name_kind = 4
kind_index string_family_kind = 5
kind_index bytes_kind = 6
kind_index api_kind = 7
kind_index number_kind = 8
kind_index offset_kind = 9
kind_index mnemonic_kind = 10
kind_index operand_number_kind = 11
kind_index operand_offset_kind = 12
kind_index class_kind = 13
kind_index namespace_kind = 14
kind_index property_kind = 15
kind_index os_kind = 16
kind_index arch_kind = 17
kind_index format_kind = 18
kind_index basic_block_kind = 19

-- the derived `PartialEq`
abbrev pub kind_eq : FeatureKind → FeatureKind → Bool
kind_eq a b = kind_index a == kind_index b

unfoldable pub feature_kind : Feature → Option FeatureKind
feature_kind (api _) = some api_kind
feature_kind (string _) = some string_family_kind
feature_kind (bytes _) = some bytes_kind
feature_kind (number _) = some number_kind
feature_kind (offset _) = some offset_kind
feature_kind (operand_number _ _) = some operand_number_kind
feature_kind (operand_offset _ _) = some operand_offset_kind
feature_kind (mnemonic _) = some mnemonic_kind
feature_kind (characteristic _) = none
feature_kind (section _) = some section_kind
feature_kind (import _) = some import_kind
feature_kind (export _) = some export_kind
feature_kind (function_name _) = some function_name_kind
feature_kind (class _) = some class_kind
feature_kind (namespace _) = some namespace_kind
feature_kind (property _ _) = some property_kind
feature_kind (os _) = some os_kind
feature_kind (arch _) = some arch_kind
feature_kind (format _) = some format_kind
feature_kind (com_object _ _) = none
feature_kind (matched_rule _) = some matched_rule_kind
feature_kind basic_block = some basic_block_kind

pub record ScopeFeatures : Type 0 where
  pub kinds : List FeatureKind
  pub characteristics : List String

abbrev none_supported : ScopeFeatures
none_supported = record { kinds = []; characteristics = [] }

abbrev pub Table : Type 0
Table = List (Scope × ScopeFeatures)

-- `HashSet::extend` for both sets
abbrev pub extend_both : ScopeFeatures → ScopeFeatures → ScopeFeatures
extend_both entry src = record {
  kinds = entry.kinds ++ src.kinds;
  characteristics = entry.characteristics ++ src.characteristics;
}

-- `table.get_mut(&target)`, changed in place where it is there
unfoldable pub merge_into : Table → Scope → ScopeFeatures → Table
merge_into [] target src = []
merge_into ((s, entry) ∷ table) target src =
    let rest = merge_into table target src in
    if scope_eq s target then (s, extend_both entry src) ∷ table else (s, entry) ∷ rest

abbrev features_or_none : Option ScopeFeatures → ScopeFeatures
features_or_none none = none_supported
features_or_none (some entry) = entry

-- `table[&scope]`, of which every use names a scope of the table
abbrev entry_of : Table → Scope → ScopeFeatures
entry_of table scope = features_or_none (IndexMap.get scope_eq scope table)

abbrev base_table : Table
base_table =
    (Scope.global, record { kinds = os_kind ∷ arch_kind ∷ format_kind ∷ []; characteristics = [] })
    ∷ (
      Scope.file,
      record {
        kinds =
            matched_rule_kind ∷ export_kind ∷ import_kind ∷ section_kind ∷ function_name_kind
            ∷ string_family_kind ∷ class_kind ∷ namespace_kind ∷ [];
        characteristics = "embedded pe" ∷ "mixed mode" ∷ "forwarded export" ∷ [];
      },
    )
    ∷ (Scope.process, record { kinds = matched_rule_kind ∷ []; characteristics = [] })
    ∷ (Scope.thread, none_supported)
    ∷ (Scope.span_of_calls, none_supported)
    ∷ (
      Scope.call,
      record {
        kinds = matched_rule_kind ∷ string_family_kind ∷ api_kind ∷ number_kind ∷ [];
        characteristics = [];
      },
    )
    ∷ (
      Scope.function,
      record {
        kinds = matched_rule_kind ∷ basic_block_kind ∷ [];
        characteristics = "calls from" ∷ "calls to" ∷ "loop" ∷ "recursive call" ∷ [];
      },
    )
    ∷ (
      Scope.basic_block,
      record {
        kinds = matched_rule_kind ∷ [];
        characteristics = "tight loop" ∷ "stack string" ∷ [];
      },
    )
    ∷ (
      Scope.instruction,
      record {
        kinds =
            matched_rule_kind ∷ api_kind ∷ property_kind ∷ number_kind ∷ string_family_kind
            ∷ bytes_kind ∷ offset_kind ∷ mnemonic_kind ∷ operand_number_kind ∷ operand_offset_kind
            ∷ class_kind ∷ namespace_kind ∷ [];
        characteristics =
            "nzxor" ∷ "peb access" ∷ "fs access" ∷ "gs access" ∷ "indirect call" ∷ "call $+5"
            ∷ "cross section flow" ∷ "unmanaged call" ∷ [];
      },
    )
    ∷ []

abbrev merge_all : Table → List Scope → ScopeFeatures → Table
merge_all table [] src = table
merge_all table (s ∷ ss) src = merge_all (merge_into table s src) ss src

-- the features of one scope become features of another
abbrev propagate : Scope → Scope → Table → Table
propagate from target table = merge_into table target (entry_of table from)

abbrev below_global : List Scope
below_global =
    Scope.instruction ∷ Scope.basic_block ∷ Scope.function ∷ Scope.file ∷ Scope.process
    ∷ Scope.thread ∷ Scope.span_of_calls ∷ Scope.call ∷ []

unfoldable pub supported_features : Table
unfolding merge_into
supported_features = propagate Scope.basic_block Scope.function (
    propagate Scope.instruction Scope.basic_block (
      propagate Scope.thread Scope.process (
        propagate Scope.span_of_calls Scope.thread (
          propagate Scope.call Scope.span_of_calls
            (merge_all base_table below_global (entry_of base_table Scope.global))))))

-- what the table has for one flavor of a rule's scopes
unfoldable pub flavor_features : Option Scope → ScopeFeatures
unfolding supported_features
flavor_features none = none_supported
flavor_features (some scope) = entry_of supported_features scope

abbrev pub scopes_features : Scopes → ScopeFeatures
scopes_features scopes =
    extend_both (flavor_features scopes.static_) (flavor_features scopes.dynamic)

abbrev pub kind_in : FeatureKind → List FeatureKind → Bool
kind_in kind kinds = any (λ k. kind_eq k kind) kinds

abbrev pub text_in : String → List String → Bool
text_in value values = any (λ v. str_eq v value) values

abbrev pub kind_allowed : Option FeatureKind → ScopeFeatures → Bool
kind_allowed none allowed = true
kind_allowed (some kind) allowed = kind_in kind allowed.kinds

-- the test of a characteristic is its text, that of any other feature its kind
abbrev pub allows : ScopeFeatures → Feature → Bool
allows allowed (com_object _ _) = true
allows allowed (characteristic value) = text_in value allowed.characteristics
allows allowed feature = kind_allowed (feature_kind feature) allowed

unfoldable pub ensure_feature_valid_for_scopes : Scopes → Feature → Result RuleError (Unit {0})
unfolding flavor_features feature_kind
ensure_feature_valid_for_scopes scopes feature =
    if allows (scopes_features scopes) feature
    then ok tt
    else err (invalid (feature_not_supported feature scopes))
