-- ===== src/Scope/FromDict.antt =====
-- `Scopes::from_dict` of capa-x/src/rules/scope.rs. Of a YAML value it reads whether it is a text.
pub mod Valid
use capa_x.Prelude.{
  String, Bool, true, false, Option, none, some, List, [], ◌∷◌, str_eq, any, ◌&&◌, if◌then◌else◌,
  not,
}
use capa_x.Prelude.Result.{Result, ok, err, ◌>>=◌}
use capa_x.Prelude.Sort.{str_leb, sort}
use capa_x.Scope.{Scope, Scopes}
use capa_x.Scope.Names.{parse, static_scopes, dynamic_scopes, scope_in}
use capa_x.Rules.Error.{
  RuleError, Message, text, invalid, not_a_static_scope, not_a_dynamic_scope, scope_not_a_string,
}

pub data Yaml : Type 0 where
  string : String → Yaml
  other : Yaml

abbrev pub Mapping : Type 0
Mapping = List (Yaml × Yaml)

-- `map.keys().filter_map(|k| k.as_str())`
abbrev pub text_keys : Mapping → List String
text_keys [] = []
text_keys ((string k, v) ∷ map) = k ∷ text_keys map
text_keys ((other, v) ∷ map) = text_keys map

-- `map.get(Value::String(key))`
abbrev pub get_text : Mapping → String → Option Yaml
get_text [] key = none
get_text ((string k, v) ∷ map) key = if str_eq k key then some v else get_text map key
get_text ((other, v) ∷ map) key = get_text map key

abbrev pub must_be_provided : String → RuleError
must_be_provided key = invalid (text (Prim.Native.String.◌++◌ key " scope must be provided"))

unfoldable pub yaml_scalar_str : Mapping → String → Result RuleError String
yaml_scalar_str map key = elim (get_text map key) [
  | none ↦ err (must_be_provided key)
  | some (string s) ↦ ok s
  | some other ↦ err (invalid (scope_not_a_string key))
]

abbrev pub same_texts : List String → List String → Bool
same_texts [] [] = true
same_texts (a ∷ as_) (b ∷ bs) = str_eq a b && same_texts as_ bs
same_texts _ _ = false

unfoldable pub supported_value : String → Option String
supported_value value = if str_eq value "unsupported" then none else some value

abbrev pub legal_scope :
    List Scope → (String → Message) → String → Option Scope → Result RuleError (Option Scope)
legal_scope legal illegal s none = err (invalid (illegal s))
legal_scope legal illegal s (some scope) =
    if scope_in scope legal then ok (some scope) else err (invalid (illegal s))

-- a flavor that is not `unsupported` names one of the flavor's scopes
unfoldable pub flavor_scope :
    List Scope → (String → Message) → Option String → Result RuleError (Option Scope)
flavor_scope legal illegal none = ok none
flavor_scope legal illegal (some s) = legal_scope legal illegal s (parse s)

-- the flavors' scopes, once the two texts are read
unfoldable pub of_values : String → String → Result RuleError Scopes
unfolding flavor_scope supported_value
of_values static_value dynamic_value = elim (supported_value static_value) [
  | none ↦ elim (supported_value dynamic_value) [
    | none ↦ err (invalid (text "invalid scopes value. At least one scope must be specified"))
    | some d ↦ flavors none (some d)
  ]
  | some s ↦ flavors (some s) (supported_value dynamic_value)
]
  where
    flavors : Option String → Option String → Result RuleError Scopes
    flavors static_raw dynamic_raw =
        flavor_scope static_scopes not_a_static_scope static_raw >>= λ static_scope.
        flavor_scope dynamic_scopes not_a_dynamic_scope dynamic_raw >>= λ dynamic_scope.
        ok (record { static_ = static_scope; dynamic = dynamic_scope })

unfoldable pub from_dict : Mapping → Result RuleError Scopes
from_dict map =
    let keys = text_keys map in
    if not (any (str_eq "static") keys)
    then err (must_be_provided "static")
    else if not (any (str_eq "dynamic") keys)
    then err (must_be_provided "dynamic")
    else if not (same_texts (sort str_leb keys) ("dynamic" ∷ "static" ∷ []))
    then err (invalid (text "scope flavors can be either static or dynamic"))
    else (yaml_scalar_str map "static" >>= λ static_value.
        yaml_scalar_str map "dynamic" >>= λ dynamic_value. of_values static_value dynamic_value)
