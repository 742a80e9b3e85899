-- ===== src/Capabilities/Extract/Removed.antt =====
-- What the expansion of COM leaves and the lifting of subscopes leave behind.
use capa_x.Rules.Error.{RuleError}
use capa_x.Prelude.Result.{Result, ◌>>=◌, err, map_ok}
use capa_x.Capabilities.Com.{
  guid_leaves, ComDatabase, guid_to_bytes, translate_com_feature, guids_or_error,
}
use capa_x.Features.{ComKind}
use capa_x.IndexMap
use capa_x.Prelude.{str_eq, String, List, ℕ, Option, ◌∷◌, ◌≡◌, [], subst, none}
use capa_x.Rules.{Node, Statement, NodeList, node}
use capa_x.Capabilities.Extract.Lifting.{lifted_bodies, with_bodies, statement_lifted}
use capa_x.Engine.Meaning.{IsExtracted, StatementIsExtracted, AllExtracted, LeafIsExtracted}
use capa_x.Capabilities.Extract.{
  extract_children, extract_child_list, extract_single_child, Lifted, Result, List, ComKind, ◌∷◌,
  Option, ℕ, RuleError, ok, map_ok, expand_com, com_object, expand_com_node, expand_com_children,
  some,
}

-- No COM leaf is left.
unfoldable mutual
  pub IsExpanded : Node → Type 0
  IsExpanded (node stmt description) = StatementIsExpanded stmt

  pub StatementIsExpanded : Statement → Type 0
  StatementIsExpanded (Statement.and children) = AllExpanded children
  StatementIsExpanded (Statement.or children) = AllExpanded children
  StatementIsExpanded (Statement.not child) = IsExpanded child
  StatementIsExpanded (Statement.some_of count children) = AllExpanded children
  StatementIsExpanded (Statement.range feature min max) = Unit
  StatementIsExpanded (Statement.subscope scope body) = IsExpanded body
  StatementIsExpanded (Statement.leaf feature) = LeafIsExtracted feature

  pub AllExpanded : NodeList → Type 0
  AllExpanded NodeList.nil = Unit
  AllExpanded (NodeList.cons c cs) = IsExpanded c × AllExpanded cs

-- The root of the body is not itself a subscope.
abbrev pub HasPlainRoot : Statement → Type 0
HasPlainRoot (Statement.subscope scope body) = ⊥
HasPlainRoot _ = Unit

mutual
  unfolding IsExpanded IsExtracted extract_children

  statement_removed :
      (s : Statement) (rule_name : String) (l : Lifted)
      → StatementIsExpanded s
      → HasPlainRoot s
      → StatementIsExtracted (extract_children s rule_name l).0
  statement_removed (Statement.and children) r l e p = list_removed children r l e
  statement_removed (Statement.or children) r l e p = list_removed children r l e
  statement_removed (Statement.some_of count children) r l e p = list_removed children r l e
  statement_removed (Statement.not child) r l e p = node_removed child r l e
  statement_removed (Statement.subscope scope body) r l e p = p
  statement_removed (Statement.range feature min max) r l e p = tt
  statement_removed (Statement.leaf feature) r l e p = e

  list_removed :
      (cs : NodeList) (rule_name : String) (l : Lifted)
      → AllExpanded cs
      → AllExtracted (extract_child_list cs rule_name l).0
  list_removed NodeList.nil r l e = tt
  list_removed (NodeList.cons c cs) r l e =
      (node_removed c r l e.0, list_removed cs r (extract_single_child c r l).1 e.1)

  node_removed :
      (n : Node) (rule_name : String) (l : Lifted)
      → IsExpanded n
      → IsExtracted (extract_single_child n rule_name l).0
  node_removed (node (Statement.subscope scope body) d) r (k, lifted) e = tt
  node_removed (node (Statement.and children) d) r l e = list_removed children r l e
  node_removed (node (Statement.or children) d) r l e = list_removed children r l e
  node_removed (node (Statement.some_of count children) d) r l e = list_removed children r l e
  node_removed (node (Statement.not child) d) r l e = node_removed child r l e
  node_removed (node (Statement.range feature min max) d) r l e = tt
  node_removed (node (Statement.leaf feature) d) r l e = e

-- what holds of a value that is returned
abbrev OnOk {ℓ κ} : {E : Type ℓ} {A : Type κ} → (A → Type 0) → Result E A → Type 0
OnOk P (ok a) = P a
OnOk P (err e) = Unit

OnOk-map_ok :
    {A B : Type 0} (P : A → Type 0) (Q : B → Type 0) (f : A → B) (r : Result RuleError A)
    → ((a : A) → P a → Q (f a))
    → OnOk P r
    → OnOk Q (map_ok f r)
OnOk-map_ok P Q f (ok a) h k = h a k
OnOk-map_ok P Q f (err e) h k = tt

OnOk-bind :
    {A B : Type 0} (P : A → Type 0) (Q : B → Type 0) (f : A → Result RuleError B)
    (r : Result RuleError A)
    → ((a : A) → P a → OnOk Q (f a))
    → OnOk P r
    → OnOk Q (r >>= f)
OnOk-bind P Q f (ok a) h k = h a k
OnOk-bind P Q f (err e) h k = tt

abbrev Anything : List ℕ → Type 0
Anything raw = Unit

Anything-returned : (r : Result RuleError (List ℕ)) → OnOk Anything r
Anything-returned (ok raw) = tt
Anything-returned (err e) = tt

guid_leaves-AllExpanded :
    (symbol : String) (guids : List String) → OnOk AllExpanded (guid_leaves symbol guids)
unfolding guid_leaves IsExpanded
guid_leaves-AllExpanded symbol [] = tt
guid_leaves-AllExpanded symbol (guid ∷ guids) =
    OnOk-bind Anything AllExpanded _ (guid_to_bytes guid)
      (λ raw _.
        OnOk-bind AllExpanded AllExpanded _ (guid_leaves symbol guids) (λ rest h. (tt, (tt, h)))
          (guid_leaves-AllExpanded symbol guids))
      (Anything-returned (guid_to_bytes guid))

guids-expanded :
    (name : String) (kind : ComKind) (guids : Option (List String))
    → OnOk StatementIsExpanded (guids_or_error name kind guids)
unfolding IsExpanded
guids-expanded name kind none = tt
guids-expanded name kind (some []) = tt
guids-expanded name kind (some (guid ∷ guids)) =
    OnOk-bind AllExpanded StatementIsExpanded _ _ (λ children h. h)
      (guid_leaves-AllExpanded _ (guid ∷ guids))

module _ (database : ComKind → ComDatabase) where
  mutual
    unfolding IsExpanded expand_com translate_com_feature

    statement_expanded : (s : Statement) → OnOk StatementIsExpanded (expand_com database s)
    statement_expanded (Statement.leaf (com_object kind name)) =
        guids-expanded name kind (IndexMap.get str_eq name (database kind))
    statement_expanded (Statement.leaf feature) = tt
    statement_expanded (Statement.and children) =
        OnOk-map_ok AllExpanded StatementIsExpanded Statement.and
          (expand_com_children database children) (λ cs h. h) (children_expanded children)
    statement_expanded (Statement.or children) =
        OnOk-map_ok AllExpanded StatementIsExpanded Statement.or
          (expand_com_children database children) (λ cs h. h) (children_expanded children)
    statement_expanded (Statement.some_of count children) =
        OnOk-map_ok AllExpanded StatementIsExpanded (Statement.some_of count)
          (expand_com_children database children) (λ cs h. h) (children_expanded children)
    statement_expanded (Statement.not child) =
        OnOk-map_ok IsExpanded StatementIsExpanded Statement.not (expand_com_node database child)
          (λ n h. h) (node-IsExpanded child)
    statement_expanded (Statement.subscope scope body) =
        OnOk-map_ok IsExpanded StatementIsExpanded (Statement.subscope scope)
          (expand_com_node database body) (λ n h. h) (node-IsExpanded body)
    statement_expanded (Statement.range feature min max) = tt

    node-IsExpanded : (n : Node) → OnOk IsExpanded (expand_com_node database n)
    node-IsExpanded (node stmt description) =
        OnOk-map_ok StatementIsExpanded IsExpanded (λ s. node s description)
          (expand_com database stmt) (λ s h. h) (statement_expanded stmt)

    children_expanded : (cs : NodeList) → OnOk AllExpanded (expand_com_children database cs)
    children_expanded NodeList.nil = tt
    children_expanded (NodeList.cons c cs) =
        OnOk-bind IsExpanded AllExpanded _ (expand_com_node database c)
          (λ n h.
            OnOk-map_ok AllExpanded AllExpanded (NodeList.cons n) (expand_com_children database cs)
              (λ ns k. (h, k)) (children_expanded cs))
          (node-IsExpanded c)

-- A body is expanded, and then its subscopes are lifted out. When its root is not itself a subscope, no
-- COM leaf and no subscope is left in it, and what has been lifted out before is followed by its
-- outermost subscopes, each with its scope and its whole body, in the order of the text and under the
-- names of the rule that count on; the counter counts them.
pub extract_children-IsExtracted :
    (database : ComKind → ComDatabase) (stmt expanded : Statement) (rule_name : String) (l : Lifted)
    → expand_com database stmt ≡ ok expanded
    → HasPlainRoot expanded
    → StatementIsExtracted (extract_children expanded rule_name l).0
      × ((extract_children expanded rule_name l).1
          ≡ with_bodies rule_name l (lifted_bodies expanded))
extract_children-IsExtracted database stmt expanded rule_name l h p = (
  statement_removed expanded rule_name l
      (subst (OnOk StatementIsExpanded) h (statement_expanded database stmt)) p,
  statement_lifted expanded rule_name l,
)
