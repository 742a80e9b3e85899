-- ===== src/Rules.antt =====
-- capa-x/src/rules/mod.rs: rules and the logic trees of their bodies.
pub mod Error
pub mod Graph
use capa_x.Prelude.{ℕ, String, Bool, false, Option, some, List, str_eq}
use capa_x.Features.{Feature}
use capa_x.Scope.{Scope, Scopes}
use capa_x.IndexMap.{get}

-- `Vec<Node>` is the type `NodeList`.
mutual
  pub data Node : Type 0 where
    node : Statement → Option String → Node

  pub data Statement : Type 0 where
    and or : NodeList → Statement
    not : Node → Statement
    some_of : ℕ → NodeList → Statement
    range : Feature → ℕ → Option ℕ → Statement
    subscope : Scope → Node → Statement
    leaf : Feature → Statement

  pub data NodeList : Type 0 where
    nil : NodeList
    cons : Node → NodeList → NodeList

abbrev pub node_stmt : Node → Statement
node_stmt (node stmt description) = stmt

abbrev pub node_description : Node → Option String
node_description (node stmt description) = description

unfoldable pub length_nodes : NodeList → ℕ
length_nodes nil = 0
length_nodes (cons n ns) = Prim.Native.Nat.suc (length_nodes ns)

-- The values of a rule's `meta:` mapping that the matcher looks at.
pub data RawValue : Type 0 where
  flag : Bool → RawValue
  string : String → RawValue
  other : RawValue

pub record RuleMeta : Type 0 where
  pub name : String
  pub namespace : Option String
  pub authors : List String
  pub description : String
  pub lib : Bool
  pub attack : List String
  pub mbc : List String
  pub references : List String
  pub examples : List String
  pub raw : List (String × RawValue)

pub record Rule : Type 0 where
  pub name : String
  pub namespace : Option String
  pub meta : RuleMeta
  pub scopes : Scopes
  pub body : Node
  pub is_lib : Bool
  pub source : String

flag_or_false : Option RawValue → Bool
flag_or_false (some (flag b)) = b
flag_or_false _ = false

unfoldable pub is_subscope_rule : Rule → Bool
unfolding flag_or_false
is_subscope_rule rule = flag_or_false (get str_eq "capa/subscope-rule" rule.meta.raw)
