-- ===== src/Capabilities/Build/Weights.antt =====
-- The extraction of subscopes ends: a rule that is pushed has one subscope less than its parent had.
use capa_x.Rules.Graph.Termination.{HasOutcome}
use capa_x.Rules.Error.{RuleError}
use capa_x.Prelude.Result.{Result, ◌>>=◌, map_ok}
use capa_x.Capabilities.Com.{
  guid_leaves, guid_to_bytes, guids_or_error, ComDatabase, translate_com_feature,
}
use capa_x.Features.{ComKind, com_object}
use capa_x.IndexMap
use capa_x.Capabilities.Build.{
  with_body, optimized, reversed, expand_and_extract, Option, Result, ComKind, RuleError,
  ComDatabase, some, node_stmt, ok, expand_com, extract_loop, err, node_description,
}
use capa_x.Prelude.{
  str_eq, ℕ, suc, ◌+◌, ◌≤◌, String, List, [], ◌∷◌, ◌++◌, ◌≡◌, arith, Option, none, ◌<◌, refl, zero,
  ap,
}
use capa_x.Scope.{Scope}
use capa_x.Rules.{Node, Statement, NodeList, Rule, node, node_stmt, node_description}
use capa_x.Capabilities.Extract.{
  Lifted, extract_children, extract_child_list, extract_single_child, subscope_rule, expand_com,
  expand_com_children, expand_com_node,
}
use capa_x.Capabilities.Build.{subscopes, node_subscopes, all_subscopes, weight, push_extracted}

-- the weight of what has been lifted out
abbrev lifted_weight : List (String × (Scope × Node)) → ℕ
lifted_weight [] = 0
lifted_weight ((name, (scope, body)) ∷ rest) = suc (node_subscopes body) + lifted_weight rest

lifted_weight-snoc :
    (l : List (String × (Scope × Node))) (name : String) (scope : Scope) (body : Node)
    → lifted_weight (l ++ (name, (scope, body)) ∷ []) ≡ lifted_weight l + suc (node_subscopes body)
lifted_weight-snoc [] name scope body = omega arith
lifted_weight-snoc ((n, (s, b)) ∷ l) name scope body =
    omega (arith, lifted_weight-snoc l name scope body)

mutual
  unfolding extract_children subscopes

  statement_lifts :
      (s : Statement) (r : String) (l : Lifted)
      → lifted_weight (extract_children s r l).1.1 ≤ lifted_weight l.1 + subscopes s
  statement_lifts (Statement.and children) r l = list_lifts children r l
  statement_lifts (Statement.or children) r l = list_lifts children r l
  statement_lifts (Statement.some_of count children) r l = list_lifts children r l
  statement_lifts (Statement.not child) r l = node_lifts child r l
  statement_lifts (Statement.subscope scope body) r l = omega (arith, node_lifts body r l)
  statement_lifts (Statement.range feature min max) r l = omega arith
  statement_lifts (Statement.leaf feature) r l = omega arith

  list_lifts :
      (cs : NodeList) (r : String) (l : Lifted)
      → lifted_weight (extract_child_list cs r l).1.1 ≤ lifted_weight l.1 + all_subscopes cs
  list_lifts NodeList.nil r l = omega arith
  list_lifts (NodeList.cons c cs) r l =
      omega (arith, node_lifts c r l, list_lifts cs r (extract_single_child c r l).1)

  node_lifts :
      (n : Node) (r : String) (l : Lifted)
      → lifted_weight (extract_single_child n r l).1.1 ≤ lifted_weight l.1 + node_subscopes n
  node_lifts (node (Statement.subscope scope body) d) r (k, lifted) =
      omega (arith, lifted_weight-snoc lifted _ scope body)
  node_lifts (node (Statement.and children) d) r l = list_lifts children r l
  node_lifts (node (Statement.or children) d) r l = list_lifts children r l
  node_lifts (node (Statement.some_of count children) d) r l = list_lifts children r l
  node_lifts (node (Statement.not child) d) r l = node_lifts child r l
  node_lifts (node (Statement.range feature min max) d) r l = omega arith
  node_lifts (node (Statement.leaf feature) d) r l = omega arith

weight-push_extracted :
    (parent : String) (l : List (String × (Scope × Node))) (stack : List Rule)
    → weight (push_extracted parent l stack) ≡ lifted_weight l + weight stack
unfolding push_extracted subscope_rule
weight-push_extracted parent [] stack = omega arith
weight-push_extracted parent ((name, (scope, body)) ∷ l) stack =
    omega (arith, weight-push_extracted parent l (subscope_rule name scope body parent ∷ stack))

-- Expanding COM leaves makes no subscopes: what is returned has as many as there were.
abbrev Keeps : {A : Type 0} → (A → ℕ) → ℕ → Result RuleError A → Type 0
Keeps size n (ok a) = size a ≡ n
Keeps size n (err e) = Unit

Keeps-map_ok :
    {A B : Type 0} (size_a : A → ℕ) (size_b : B → ℕ) (n m : ℕ) (f : A → B) (r : Result RuleError A)
    → ((a : A) → size_a a ≡ n → size_b (f a) ≡ m)
    → Keeps size_a n r
    → Keeps size_b m (map_ok f r)
Keeps-map_ok size_a size_b n m f (ok a) h k = h a k
Keeps-map_ok size_a size_b n m f (err e) h k = tt

Keeps-bind :
    {A B : Type 0} (size_a : A → ℕ) (size_b : B → ℕ) (n m : ℕ) (f : A → Result RuleError B)
    (r : Result RuleError A)
    → ((a : A) → size_a a ≡ n → Keeps size_b m (f a))
    → Keeps size_a n r
    → Keeps size_b m (r >>= f)
Keeps-bind size_a size_b n m f (ok a) h k = h a k
Keeps-bind size_a size_b n m f (err e) h k = tt

bytes_kept : (r : Result RuleError (List ℕ)) → Keeps (λ raw. 0) 0 r
bytes_kept (ok raw) = refl
bytes_kept (err e) = tt

leaves_kept :
    (symbol : String) (guids : List String) → Keeps all_subscopes 0 (guid_leaves symbol guids)
unfolding guid_leaves subscopes
leaves_kept symbol [] = refl
leaves_kept symbol (guid ∷ guids) =
    Keeps-bind (λ raw. 0) all_subscopes 0 0 _ (guid_to_bytes guid)
      (λ raw _.
        Keeps-bind all_subscopes all_subscopes 0 0 _ (guid_leaves symbol guids)
          (λ rest h. omega (arith, h)) (leaves_kept symbol guids))
      (bytes_kept (guid_to_bytes guid))

guids_kept :
    (name : String) (kind : ComKind) (guids : Option (List String))
    → Keeps subscopes 0 (guids_or_error name kind guids)
unfolding subscopes
guids_kept name kind none = tt
guids_kept name kind (some []) = tt
guids_kept name kind (some (guid ∷ guids)) =
    Keeps-bind all_subscopes subscopes 0 0 _ _ (λ cs h. h) (leaves_kept _ (guid ∷ guids))

module _ (database : ComKind → ComDatabase) where
  mutual
    unfolding subscopes expand_com translate_com_feature

    statement_kept : (s : Statement) → Keeps subscopes (subscopes s) (expand_com database s)
    statement_kept (Statement.leaf (com_object kind name)) =
        guids_kept name kind (IndexMap.get str_eq name (database kind))
    statement_kept (Statement.leaf feature) = refl
    statement_kept (Statement.and children) =
        Keeps-map_ok all_subscopes subscopes (all_subscopes children) (all_subscopes children)
          Statement.and (expand_com_children database children) (λ cs h. h) (children_kept children)
    statement_kept (Statement.or children) =
        Keeps-map_ok all_subscopes subscopes (all_subscopes children) (all_subscopes children)
          Statement.or (expand_com_children database children) (λ cs h. h) (children_kept children)
    statement_kept (Statement.some_of count children) =
        Keeps-map_ok all_subscopes subscopes (all_subscopes children) (all_subscopes children)
          (Statement.some_of count) (expand_com_children database children) (λ cs h. h)
          (children_kept children)
    statement_kept (Statement.not child) =
        Keeps-map_ok node_subscopes subscopes (node_subscopes child) (node_subscopes child)
          Statement.not (expand_com_node database child) (λ n h. h) (node_kept child)
    statement_kept (Statement.subscope scope body) =
        Keeps-map_ok node_subscopes subscopes (node_subscopes body) (suc (node_subscopes body))
          (Statement.subscope scope) (expand_com_node database body) (λ n h. ap suc h)
          (node_kept body)
    statement_kept (Statement.range feature min max) = refl

    node_kept : (n : Node) → Keeps node_subscopes (node_subscopes n) (expand_com_node database n)
    node_kept (node stmt description) =
        Keeps-map_ok subscopes node_subscopes (subscopes stmt) (subscopes stmt)
          (λ s. node s description) (expand_com database stmt) (λ s h. h) (statement_kept stmt)

    children_kept :
        (cs : NodeList) → Keeps all_subscopes (all_subscopes cs) (expand_com_children database cs)
    children_kept NodeList.nil = refl
    children_kept (NodeList.cons c cs) =
        Keeps-bind node_subscopes all_subscopes (node_subscopes c)
          (node_subscopes c + all_subscopes cs) _ (expand_com_node database c)
          (λ n h.
            Keeps-map_ok all_subscopes all_subscopes (all_subscopes cs)
              (node_subscopes c + all_subscopes cs) (NodeList.cons n)
              (expand_com_children database cs) (λ ns k. omega (arith, h, k)) (children_kept cs))
          (node_kept c)

  subscopes_of_body : (n : Node) → subscopes (node_stmt n) ≡ node_subscopes n
  unfolding subscopes
  subscopes_of_body (node stmt description) = refl

  extract_step :
      (fuel : ℕ) (rule : Rule) (stack done : List Rule) (found : Result RuleError Statement)
      → Keeps subscopes (subscopes (node_stmt rule.body)) found
      → weight (rule ∷ stack) < suc fuel
      → ((s d : List Rule) → weight s < fuel → HasOutcome (extract_loop database fuel s d))
      → HasOutcome (elim found [
        | err e ↦ some (err e)
        | ok expanded ↦
            extract_loop database fuel
              (push_extracted rule.name (extract_children expanded rule.name (0, [])).1.1 stack)
              (done
                ++ with_body rule (
                    node
                      (extract_children expanded rule.name (0, [])).0
                      (node_description rule.body))
                  ∷ [])
      ])
  extract_step fuel rule stack done (err e) k h ih = tt
  extract_step fuel rule stack done (ok expanded) k h ih = ih _ _ (
      omega (
        arith,
        k,
        subscopes_of_body rule.body,
        statement_lifts expanded rule.name (0, []),
        weight-push_extracted rule.name (extract_children expanded rule.name (0, [])).1.1 stack,
      ))

  extract_loop-HasOutcome :
      (fuel : ℕ) (stack done : List Rule)
      → weight stack < fuel
      → HasOutcome (extract_loop database fuel stack done)
  unfolding extract_loop
  extract_loop-HasOutcome zero stack done h = absurd (omega arith)
  extract_loop-HasOutcome (suc fuel) [] done h = tt
  extract_loop-HasOutcome (suc fuel) (rule ∷ stack) done h =
      extract_step fuel rule stack done (expand_com database (node_stmt rule.body))
        (statement_kept (node_stmt rule.body)) h (extract_loop-HasOutcome fuel)

weight-reversed : (rules acc : List Rule) → weight (reversed rules acc) ≡ weight rules + weight acc
weight-reversed [] acc = omega arith
weight-reversed (r ∷ rs) acc = omega (arith, weight-reversed rs (r ∷ acc))

HasOutcome-optimized :
    (o : Option (Result RuleError (List Rule))) → HasOutcome o → HasOutcome (optimized o)
HasOutcome-optimized none h = h
HasOutcome-optimized (some (ok rules)) h = tt
HasOutcome-optimized (some (err e)) h = tt

-- The extraction ends, with the rules or an error.
pub expand_and_extract-HasOutcome :
    (database : ComKind → ComDatabase) (rules : List Rule)
    → HasOutcome (expand_and_extract database rules)
unfolding expand_and_extract
expand_and_extract-HasOutcome database rules = HasOutcome-optimized _ (
    extract_loop-HasOutcome database (suc (weight rules)) (reversed rules []) []
      (omega (arith, weight-reversed rules [])))
