-- ===== src/Scope/Names.antt =====
-- The scopes' names and their orders in capa-x/src/rules/scope.rs.
use capa_x.Prelude.{
  ℕ, suc, String, Bool, true, false, Option, none, some, List, [], ◌∷◌, ◌≡◌, refl, str_eq, any, all,
  if◌then◌else◌, leb, arith,
}
use capa_x.IndexMap
use capa_x.Scope.{
  Scope, file, process, thread, span_of_calls, call, function, basic_block, instruction, global,
  scope_eq,
}

unfoldable pub as_str : Scope → String
as_str file = "file"
as_str process = "process"
as_str thread = "thread"
as_str span_of_calls = "span of calls"
as_str call = "call"
as_str function = "function"
as_str basic_block = "basic block"
as_str instruction = "instruction"
as_str global = "global"

-- the arms of the `match`, in their order
abbrev pub scope_names : List (String × Scope)
scope_names =
    ("file", file)
    ∷ ("process", process)
    ∷ ("thread", thread)
    ∷ ("span of calls", span_of_calls)
    ∷ ("call", call)
    ∷ ("function", function)
    ∷ ("basic block", basic_block)
    ∷ ("instruction", instruction)
    ∷ ("global", global)
    ∷ []

unfoldable pub parse : String → Option Scope
parse s = IndexMap.get str_eq s scope_names

abbrev pub static_scopes : List Scope
static_scopes = file ∷ global ∷ function ∷ basic_block ∷ instruction ∷ []

abbrev pub dynamic_scopes : List Scope
dynamic_scopes = file ∷ global ∷ process ∷ thread ∷ span_of_calls ∷ call ∷ []

abbrev pub static_scope_order : List Scope
static_scope_order = file ∷ function ∷ basic_block ∷ instruction ∷ []

abbrev pub dynamic_scope_order : List Scope
dynamic_scope_order = file ∷ process ∷ thread ∷ span_of_calls ∷ call ∷ []

abbrev pub scope_in : Scope → List Scope → Bool
scope_in scope scopes = any (scope_eq scope) scopes

-- `iter().position(|s| *s == scope)`
abbrev pub position : Scope → List Scope → Option ℕ
position scope [] = none
position scope (s ∷ ss) =
    let rest = position scope ss in
    if scope_eq s scope then some 0 else elim rest [ none ↦ none | some i ↦ some (suc i) ]

abbrev pub at_or_after : ℕ → Option ℕ → Bool
at_or_after pos none = false
at_or_after pos (some p) = leb p pos

-- decides by the first of the two orders that has the subscope
unfoldable pub is_subscope_compatible : Option Scope → Scope → Bool
is_subscope_compatible none subscope = false
is_subscope_compatible (some scope) subscope = elim (position subscope static_scope_order) [
  | some pos ↦ at_or_after pos (position scope static_scope_order)
  | none ↦ elim (position subscope dynamic_scope_order) [
    | some pos ↦ at_or_after pos (position scope dynamic_scope_order)
    | none ↦ false
  ]
]

abbrev pub all_scopes : List Scope
all_scopes =
    file ∷ process ∷ thread ∷ span_of_calls ∷ call ∷ function ∷ basic_block ∷ instruction ∷ global
    ∷ []

-- A test that every listed scope passes holds of every scope.
pub of_all_scopes : (p : Scope → Bool) → all p all_scopes ≡ true → (s : Scope) → p s ≡ true
of_all_scopes p h file = ground arith
of_all_scopes p h process = ground arith
of_all_scopes p h thread = ground arith
of_all_scopes p h span_of_calls = ground arith
of_all_scopes p h call = ground arith
of_all_scopes p h function = ground arith
of_all_scopes p h basic_block = ground arith
of_all_scopes p h instruction = ground arith
of_all_scopes p h global = ground arith

-- Every scope is read back from its name.
pub parse-as_str : (s : Scope) → parse (as_str s) ≡ some s
unfolding parse as_str
parse-as_str file = refl
parse-as_str _ = refl
