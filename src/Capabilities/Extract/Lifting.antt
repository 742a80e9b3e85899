-- ===== src/Capabilities/Extract/Lifting.antt =====
-- What `extract_children` of capa-x/src/capabilities/ruleset.rs lifts out of a body, and under which
-- names.

use capa_x.Capabilities.Extract.{subscope_name}
use capa_x.Scope.{Scope}
use capa_x.Prelude.{
  ap, length-append, suc, ◌+◌, ◌++◌, length, ◌∙◌, arith, append-nil, append_assoc, refl, sym,
  String, List, ℕ, Option, ◌∷◌, ◌≡◌, [],
}
use capa_x.Rules.{Node, Statement, NodeList, node}
use capa_x.Capabilities.Extract.{
  extract_children, extract_child_list, extract_single_child, Lifted, List, ◌∷◌, Option, ℕ,
}

-- The outermost subscopes below the root of a body, in the order of the text.
unfoldable mutual
  pub lifted_bodies : Statement → List (Scope × Node)
  lifted_bodies (Statement.and children) = bodies_in children
  lifted_bodies (Statement.or children) = bodies_in children
  lifted_bodies (Statement.some_of count children) = bodies_in children
  lifted_bodies (Statement.not (node child d)) = bodies_at child
  lifted_bodies (Statement.subscope scope (node body d)) = bodies_at body
  lifted_bodies (Statement.range feature min max) = []
  lifted_bodies (Statement.leaf feature) = []

  pub bodies_at : Statement → List (Scope × Node)
  bodies_at (Statement.subscope scope body) = (scope, body) ∷ []
  bodies_at (Statement.and children) = bodies_in children
  bodies_at (Statement.or children) = bodies_in children
  bodies_at (Statement.some_of count children) = bodies_in children
  bodies_at (Statement.not (node child d)) = bodies_at child
  bodies_at (Statement.range feature min max) = []
  bodies_at (Statement.leaf feature) = []

  pub bodies_in : NodeList → List (Scope × Node)
  bodies_in NodeList.nil = []
  bodies_in (NodeList.cons (node c d) cs) = bodies_at c ++ bodies_in cs

-- subscopes with the names of their rules, which count on from a number
unfoldable pub numbered : String → ℕ → List (Scope × Node) → List (String × (Scope × Node))
numbered rule_name k [] = []
numbered rule_name k (b ∷ bodies) =
    (subscope_name rule_name (suc k), b) ∷ numbered rule_name (suc k) bodies

-- what has been lifted out, with these bodies behind it
abbrev pub with_bodies : String → Lifted → List (Scope × Node) → Lifted
with_bodies rule_name l bodies = (l.0 + length bodies, l.1 ++ numbered rule_name l.0 bodies)

numbered-append :
    (r : String) (k : ℕ) (xs ys : List (Scope × Node))
    → numbered r k (xs ++ ys) ≡ numbered r k xs ++ numbered r (k + length xs) ys
unfolding numbered
numbered-append r k [] ys = ap (λ n. numbered r n ys) (omega arith)
numbered-append r k (x ∷ xs) ys =
    ap (λ rest. (subscope_name r (suc k), x) ∷ rest)
      (numbered-append r (suc k) xs ys
        ∙ ap (λ n. numbered r (suc k) xs ++ numbered r n ys) (omega arith))

pair_lifted :
    {k n : ℕ} {xs ys : List (String × (Scope × Node))}
    → k ≡ n
    → xs ≡ ys
    → ◌≡◌ {A = Lifted} (k, xs) (n, ys)
pair_lifted e h = rw (e, h) refl

with_bodies-append :
    (r : String) (l : Lifted) (xs ys : List (Scope × Node))
    → with_bodies r (with_bodies r l xs) ys ≡ with_bodies r l (xs ++ ys)
with_bodies-append r (k, lifted) xs ys = pair_lifted (omega (arith, length-append xs ys)) (
    append_assoc lifted (numbered r k xs) (numbered r (k + length xs) ys)
    ∙ ap (λ rest. lifted ++ rest) (sym (numbered-append r k xs ys)))

nothing_lifted : (r : String) (l : Lifted) → l ≡ with_bodies r l []
unfolding numbered
nothing_lifted r (k, lifted) = pair_lifted (omega arith) (sym (append-nil lifted))

one_lifted :
    (r : String) (l : Lifted) (b : Scope × Node)
    → ◌≡◌ {A = Lifted}
        (suc l.0, l.1 ++ (subscope_name r (suc l.0), b) ∷ [])
        (with_bodies r l (b ∷ []))
unfolding numbered
one_lifted r (k, lifted) b = pair_lifted (omega arith) refl

mutual
  unfolding extract_children lifted_bodies

  pub statement_lifted :
      (s : Statement) (r : String) (l : Lifted)
      → (extract_children s r l).1 ≡ with_bodies r l (lifted_bodies s)
  statement_lifted (Statement.and children) r l = list_lifted children r l
  statement_lifted (Statement.or children) r l = list_lifted children r l
  statement_lifted (Statement.some_of count children) r l = list_lifted children r l
  statement_lifted (Statement.not (node child d)) r l = node_lifted child d r l
  statement_lifted (Statement.subscope scope (node body d)) r l = node_lifted body d r l
  statement_lifted (Statement.range feature min max) r l = nothing_lifted r l
  statement_lifted (Statement.leaf feature) r l = nothing_lifted r l

  list_lifted :
      (cs : NodeList) (r : String) (l : Lifted)
      → (extract_child_list cs r l).1 ≡ with_bodies r l (bodies_in cs)
  list_lifted NodeList.nil r l = nothing_lifted r l
  list_lifted (NodeList.cons (node c d) cs) r l =
      list_lifted cs r (extract_single_child (node c d) r l).1
      ∙ ap (λ (m : Lifted). with_bodies r m (bodies_in cs)) (node_lifted c d r l)
      ∙ with_bodies-append r l (bodies_at c) (bodies_in cs)

  node_lifted :
      (s : Statement) (d : Option String) (r : String) (l : Lifted)
      → (extract_single_child (node s d) r l).1 ≡ with_bodies r l (bodies_at s)
  node_lifted (Statement.subscope scope body) d r (k, lifted) =
      one_lifted r (k, lifted) (scope, body)
  node_lifted (Statement.and children) d r l = list_lifted children r l
  node_lifted (Statement.or children) d r l = list_lifted children r l
  node_lifted (Statement.some_of count children) d r l = list_lifted children r l
  node_lifted (Statement.not (node child e)) d r l = node_lifted child e r l
  node_lifted (Statement.range feature min max) d r l = nothing_lifted r l
  node_lifted (Statement.leaf feature) d r l = nothing_lifted r l
