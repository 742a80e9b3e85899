-- ===== src/Capabilities/Extract.antt =====
-- `expand_com`, `extract_children` and `subscope_rule` of capa-x/src/capabilities/ruleset.rs: COM
-- leaves are expanded, and each subscope is replaced by a match of a rule of its own. The `u64`
-- counter numbers the subscopes of one rule.
pub mod Removed
pub mod Lifting
use Prim.Native.String.{◌++◌ as str_append}
use capa_x.Prelude.{
  ℕ, zero, suc, ◌%◌, ◌/◌, ◌<◌, String, true, Option, none, some, List, [], ◌∷◌, ◌++◌, ltb,
  get_elem?, if◌then◌else◌,
}
use capa_x.Prelude.Result.{Result, ok, ◌>>=◌, map_ok}
use capa_x.Features.{ComKind, Feature, com_object, matched_rule}
use capa_x.Scope.{Scope, Scopes, process, thread, span_of_calls, call}
use capa_x.Rules.{Node, Statement, NodeList, node, Rule, RuleMeta, RawValue, flag, string}
use capa_x.Rules.Error.{RuleError}
use capa_x.Capabilities.Com.{ComDatabase, translate_com_feature}

module _ (database : ComKind → ComDatabase) where
  unfoldable mutual
    pub expand_com : Statement → Result RuleError Statement
    expand_com (Statement.leaf (com_object kind name)) = translate_com_feature database name kind
    expand_com (Statement.leaf feature) = ok (Statement.leaf feature)
    expand_com (Statement.and children) = map_ok Statement.and (expand_com_children children)
    expand_com (Statement.or children) = map_ok Statement.or (expand_com_children children)
    expand_com (Statement.some_of count children) =
        map_ok (Statement.some_of count) (expand_com_children children)
    expand_com (Statement.not child) = map_ok Statement.not (expand_com_node child)
    expand_com (Statement.subscope scope body) =
        map_ok (Statement.subscope scope) (expand_com_node body)
    expand_com (Statement.range feature min max) = ok (Statement.range feature min max)

    pub expand_com_node : Node → Result RuleError Node
    expand_com_node (node stmt description) = map_ok (λ s. node s description) (expand_com stmt)

    pub expand_com_children : NodeList → Result RuleError NodeList
    expand_com_children NodeList.nil = ok NodeList.nil
    expand_com_children (NodeList.cons c cs) =
        expand_com_node c >>= λ n. map_ok (NodeList.cons n) (expand_com_children cs)

abbrev digit_texts : List String
digit_texts = "0" ∷ "1" ∷ "2" ∷ "3" ∷ "4" ∷ "5" ∷ "6" ∷ "7" ∷ "8" ∷ "9" ∷ []

abbrev text_or_empty : Option String → String
text_or_empty none = ""
text_or_empty (some t) = t

abbrev digit : ℕ → String
digit n = text_or_empty (get_elem? digit_texts n)

-- the digits of a number; a number has fewer of them than its value and one more
unfoldable pub digits : ℕ → ℕ → String
digits zero n = ""
digits (suc fuel) n =
    let front = digits fuel (n / 10) in
    if ltb n 10 then digit n else str_append front (digit (n % 10))

-- `format!("{rule_name}/{counter}")`
abbrev pub subscope_name : String → ℕ → String
subscope_name rule_name counter =
    str_append (str_append rule_name "/") (digits (suc counter) counter)

-- the counter, and what has been lifted out
abbrev pub Lifted : Type 0
Lifted = ℕ × List (String × (Scope × Node))

-- a child that is a subscope is lifted out as it is, its own subscopes with it
unfoldable mutual
  pub extract_children : Statement → String → Lifted → Statement × Lifted
  extract_children (Statement.and children) rule_name l =
      let r = extract_child_list children rule_name l in (Statement.and r.0, r.1)
  extract_children (Statement.or children) rule_name l =
      let r = extract_child_list children rule_name l in (Statement.or r.0, r.1)
  extract_children (Statement.some_of count children) rule_name l =
      let r = extract_child_list children rule_name l in (Statement.some_of count r.0, r.1)
  extract_children (Statement.not child) rule_name l =
      let r = extract_single_child child rule_name l in (Statement.not r.0, r.1)
  extract_children (Statement.subscope scope body) rule_name l =
      let r = extract_single_child body rule_name l in (Statement.subscope scope r.0, r.1)
  extract_children (Statement.range feature min max) rule_name l =
      (Statement.range feature min max, l)
  extract_children (Statement.leaf feature) rule_name l = (Statement.leaf feature, l)

  pub extract_child_list : NodeList → String → Lifted → NodeList × Lifted
  extract_child_list NodeList.nil rule_name l = (NodeList.nil, l)
  extract_child_list (NodeList.cons c cs) rule_name l =
      let r = extract_single_child c rule_name l in
      let rest = extract_child_list cs rule_name r.1 in (NodeList.cons r.0 rest.0, rest.1)

  pub extract_single_child : Node → String → Lifted → Node × Lifted
  extract_single_child (node (Statement.subscope scope body) description) rule_name (k, lifted) =
      let name = subscope_name rule_name (suc k) in
      (
        node (Statement.leaf (matched_rule name)) none,
        (suc k, lifted ++ (name, (scope, body)) ∷ []),
      )
  extract_single_child (node stmt description) rule_name l =
      let r = extract_children stmt rule_name l in (node r.0 description, r.1)

abbrev scopes_of : Scope → Scopes
scopes_of process = record { static_ = none; dynamic = some process }
scopes_of thread = record { static_ = none; dynamic = some thread }
scopes_of span_of_calls = record { static_ = none; dynamic = some span_of_calls }
scopes_of call = record { static_ = none; dynamic = some call }
scopes_of scope = record { static_ = some scope; dynamic = none }

unfoldable pub subscope_rule : String → Scope → Node → String → Rule
subscope_rule name scope body parent = record {
  name = name;
  namespace = none;
  meta = record {
    name = name;
    namespace = none;
    authors = [];
    description = "";
    lib = true;
    attack = [];
    mbc = [];
    references = [];
    examples = [];
    raw =
        ("name", string name)
        ∷ ("lib", flag true)
        ∷ ("capa/subscope-rule", flag true)
        ∷ ("capa/parent", string parent)
        ∷ [];
  };
  scopes = scopes_of scope;
  body = body;
  is_lib = true;
  source = "";
}
