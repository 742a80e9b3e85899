-- ===== src/Scope/FromDict/Valid.antt =====
-- Which scopes a rule's `scopes:` mapping can give.
use capa_x.Prelude.{
  String, Bool, true, false, Option, none, some, List, [], ◌∷◌, ◌&&◌, ◌||◌, ◌≡◌, refl, arith,
}
use capa_x.Prelude.Result.{ok}
use capa_x.Prelude.Sort.{str_leb, sort, insert_sorted}
use capa_x.Scope.{Scope, Scopes, file}
use capa_x.Scope.Names.{as_str, parse-as_str, static_scopes, dynamic_scopes, scope_in}
use capa_x.Scope.FromDict.{Mapping, string, from_dict, of_values, supported_value, yaml_scalar_str}

abbrev pub is_legal : List Scope → Option Scope → Bool
is_legal legal none = true
is_legal legal (some s) = scope_in s legal

abbrev pub is_given : Option Scope → Bool
is_given none = false
is_given (some s) = true

-- Each flavor is one of its own scopes or unsupported, and one of them is supported.
abbrev pub is_valid : Scopes → Bool
is_valid scopes =
    (is_legal static_scopes scopes.static_ && is_legal dynamic_scopes scopes.dynamic)
    && (is_given scopes.static_ || is_given scopes.dynamic)

-- the value that stands for a flavor in a rule
abbrev pub value_of : Option Scope → String
value_of none = "unsupported"
value_of (some s) = as_str s

abbrev pub to_dict : Scopes → Mapping
to_dict scopes =
    (string "static", string (value_of scopes.static_))
    ∷ (string "dynamic", string (value_of scopes.dynamic))
    ∷ []

supported_name : (s : Scope) → supported_value (as_str s) ≡ some (as_str s)
unfolding as_str supported_value
supported_name file = refl
supported_name _ = refl

no_flavor : supported_value "unsupported" ≡ none
unfolding supported_value
no_flavor = refl

values_back :
    (static_scope dynamic_scope : Option Scope)
    → is_valid (record { static_ = static_scope; dynamic = dynamic_scope }) ≡ true
    → of_values (value_of static_scope) (value_of dynamic_scope)
      ≡ ok (record { static_ = static_scope; dynamic = dynamic_scope })
unfolding of_values
values_back none none h = cc
values_back none (some d) h =
    rw (no_flavor, supported_name d, of_values)
      (rw (parse-as_str d)
        (let legal : scope_in d dynamic_scopes ≡ true = ground arith in rw legal refl))
values_back (some s) none h =
    rw (no_flavor, supported_name s, of_values)
      (rw (parse-as_str s)
        (let legal : scope_in s static_scopes ≡ true = ground arith in rw legal refl))
values_back (some s) (some d) h =
    rw (supported_name s, supported_name d, of_values)
      (rw (parse-as_str s, parse-as_str d)
        (let legal : scope_in s static_scopes ≡ true = ground arith in
          let also : scope_in d dynamic_scopes ≡ true = ground arith in rw legal (rw also refl)))

-- Every valid pair of scopes is read back from the mapping that names its two flavors.
pub from_dict-to_dict :
    (scopes : Scopes) → is_valid scopes ≡ true → from_dict (to_dict scopes) ≡ ok scopes
unfolding from_dict yaml_scalar_str str_leb sort insert_sorted
from_dict-to_dict scopes h = values_back scopes.static_ scopes.dynamic h
