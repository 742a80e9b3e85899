-- ===== src/Examples/RuleScopes.antt =====
-- The theorems on scopes at concrete values.
use capa_x.Prelude.{◌≡◌, refl, some, none, true}
use capa_x.Prelude.Result.{ok}
use capa_x.Features.{characteristic}
use capa_x.Scope.{Scopes, Scope}
use capa_x.Scope.Names.{is_subscope_compatible}
use capa_x.Scope.FromDict.{from_dict}
use capa_x.Scope.FromDict.Valid.{to_dict, from_dict-to_dict}
use capa_x.Scope.Supported.{
  ensure_feature_valid_for_scopes, flavor_features, supported_features, merge_into,
}
use capa_x.Scope.Supported.Nesting.{all_enclose, ensure_feature_valid_for_scopes-nested}

abbrev in_function : Scopes
in_function = record { static_ = some Scope.function; dynamic = some Scope.thread }

abbrev in_instruction : Scopes
in_instruction = record { static_ = some Scope.instruction; dynamic = none }

from_dict-to_dict_example : from_dict (to_dict in_function) ≡ ok in_function
from_dict-to_dict_example = from_dict-to_dict in_function refl

function_encloses : all_enclose in_function in_instruction ≡ true
unfolding is_subscope_compatible
function_encloses = refl

nzxor_in_instruction :
    ensure_feature_valid_for_scopes in_instruction (characteristic "nzxor") ≡ ok tt
unfolding ensure_feature_valid_for_scopes flavor_features supported_features merge_into
nzxor_in_instruction = refl

ensure_feature_valid_for_scopes-nested_example :
    ensure_feature_valid_for_scopes in_function (characteristic "nzxor") ≡ ok tt
ensure_feature_valid_for_scopes-nested_example =
    ensure_feature_valid_for_scopes-nested in_function in_instruction (characteristic "nzxor")
      function_encloses nzxor_in_instruction
