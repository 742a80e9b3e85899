-- ===== src/Scope.antt =====
-- The scopes of capa-x/src/rules/scope.rs.
pub mod Names
pub mod FromDict
pub mod Supported
use capa_x.Prelude.{ℕ, Bool, Option, none, some, false, ◌==◌, ◌||◌}

pub data Scope : Type 0 where
  file process thread span_of_calls call function basic_block instruction global : Scope

abbrev pub scope_index : Scope → ℕ
scope_index file = 0
scope_index process = 1
scope_index thread = 2
scope_index span_of_calls = 3
scope_index call = 4
scope_index function = 5
scope_index basic_block = 6
scope_index instruction = 7
scope_index global = 8

-- the derived `PartialEq`
abbrev pub scope_eq : Scope → Scope → Bool
scope_eq a b = scope_index a == scope_index b

pub record Scopes : Type 0 where
  pub static_ : Option Scope
  pub dynamic : Option Scope

abbrev is_some_scope : Option Scope → Scope → Bool
is_some_scope none scope = false
is_some_scope (some s) scope = scope_eq s scope

unfoldable pub scopes_contains : Scopes → Scope → Bool
scopes_contains scopes scope =
    is_some_scope scopes.static_ scope || is_some_scope scopes.dynamic scope
