-- ===== src/Rules/Error.antt =====
-- `RuleError` of capa-x/src/rules/error.rs. A message that formats a value is a constructor that
-- holds the value, and any other message is its text.
use capa_x.Prelude.{String}
use capa_x.Features.{Feature, ComKind}
use capa_x.Scope.{Scopes}

pub data Message : Type 0 where
  text : String → Message
  not_a_static_scope not_a_dynamic_scope scope_not_a_string : String → Message
  feature_not_supported : Feature → Scopes → Message
  duplicate_rule_name missing_rule circular_dependency : String → Message
  depends_on_missing_rule : String → String → Message
  invalid_com_guid : String → Message
  unknown_com_name : String → ComKind → Message

pub data RuleError : Type 0 where
  invalid : Message → RuleError
  invalid_with_path : String → Message → RuleError
  invalid_rule_set : Message → RuleError
  yaml : Message → RuleError

abbrev message : RuleError → Message
message (invalid m) = m
message (invalid_with_path path m) = m
message (invalid_rule_set m) = m
message (yaml m) = m

unfoldable pub with_path : RuleError → String → RuleError
with_path e path = invalid_with_path path (message e)
