-- ===== src/Capabilities/Optimize/Meaning.antt =====
-- Optimising a body changes neither its cost nor what it says.
use capa_x.Prelude.{
  ℕ, ◌+◌, ◌%◌, ◌≡◌, refl, ap, ◌∙◌, ◌&&◌, ◌||◌, not, leb, arith, Bool-cases, inl, inr, u32_mod,
}
use capa_x.Features.Regex.{RegexCrates}
use capa_x.Rules.{Node, Statement, NodeList, node}
use capa_x.Engine.FeatureSet.{FeatureSet}
use capa_x.Engine.Meaning.{holds, statement_holds, all_hold, any_holds, count_holding, count_bool}
use capa_x.Capabilities.Optimize.{
  node_cost, statement_cost, sum_costs, insert_by_cost, optimize_node, optimize_statement,
  optimize_children,
}

sum_swap : (a b s : ℕ) → (b + (a + s) % u32_mod) % u32_mod ≡ (a + (b + s) % u32_mod) % u32_mod
sum_swap a b s = omega arith

sum_costs-insert_by_cost :
    (n : Node) (cs : NodeList)
    → sum_costs (insert_by_cost n cs) ≡ (node_cost n + sum_costs cs) % u32_mod
unfolding sum_costs insert_by_cost
sum_costs-insert_by_cost n NodeList.nil = refl
sum_costs-insert_by_cost n (NodeList.cons c cs) =
    elim (Bool-cases (leb (node_cost n) (node_cost c))) [
      | inl e ↦ rw e refl
      | inr e ↦
          rw e (
            rw (sum_costs-insert_by_cost n cs)
              (sum_swap (node_cost n) (node_cost c) (sum_costs cs)))
    ]

mutual
  unfolding node_cost optimize_node

  cost_node : (n : Node) → node_cost (optimize_node n) ≡ node_cost n
  cost_node (node stmt description) = cost_statement stmt

  cost_statement : (s : Statement) → statement_cost (optimize_statement s) ≡ statement_cost s
  cost_statement (Statement.and children) = rw (cost_children children) refl
  cost_statement (Statement.or children) = rw (cost_children children) refl
  cost_statement (Statement.some_of count children) = rw (cost_children children) refl
  cost_statement (Statement.not child) = rw (cost_node child) refl
  cost_statement (Statement.subscope scope body) = rw (cost_node body) refl
  cost_statement (Statement.range feature min max) = refl
  cost_statement (Statement.leaf feature) = refl

  cost_children : (cs : NodeList) → sum_costs (optimize_children cs) ≡ sum_costs cs
  cost_children NodeList.nil = refl
  cost_children (NodeList.cons c cs) =
      sum_costs-insert_by_cost (optimize_node c) (optimize_children cs)
      ∙ rw (cost_node c, cost_children cs) refl

module _ (crates : RegexCrates) (fs : FeatureSet) where
  all-insert :
      (n : Node) (cs : NodeList)
      → all_hold crates fs (insert_by_cost n cs) ≡ (holds crates fs n && all_hold crates fs cs)
  unfolding all_hold insert_by_cost
  all-insert n NodeList.nil = refl
  all-insert n (NodeList.cons c cs) = ground (arith, all-insert n cs)

  any-insert :
      (n : Node) (cs : NodeList)
      → any_holds crates fs (insert_by_cost n cs) ≡ (holds crates fs n || any_holds crates fs cs)
  unfolding any_holds insert_by_cost
  any-insert n NodeList.nil = refl
  any-insert n (NodeList.cons c cs) = ground (arith, any-insert n cs)

  count-insert :
      (n : Node) (cs : NodeList)
      → count_holding crates fs (insert_by_cost n cs)
        ≡ count_bool (holds crates fs n) + count_holding crates fs cs
  unfolding count_holding insert_by_cost
  count-insert n NodeList.nil = refl
  count-insert n (NodeList.cons c cs) = elim (Bool-cases (leb (node_cost n) (node_cost c))) [
    | inl e ↦ rw e refl
    | inr e ↦ rw e (omega (arith, count-insert n cs))
  ]

  mutual
    unfolding holds optimize_node

    node_kept : (n : Node) → holds crates fs (optimize_node n) ≡ holds crates fs n
    node_kept (node stmt description) = statement_kept stmt

    statement_kept :
        (s : Statement)
        → statement_holds crates fs (optimize_statement s) ≡ statement_holds crates fs s
    statement_kept (Statement.and children) = all_kept children
    statement_kept (Statement.or children) = any_kept children
    statement_kept (Statement.some_of count children) = ap (leb count) (count_kept children)
    statement_kept (Statement.not child) = ap not (node_kept child)
    statement_kept (Statement.subscope scope body) = refl
    statement_kept (Statement.range feature min max) = refl
    statement_kept (Statement.leaf feature) = refl

    all_kept : (cs : NodeList) → all_hold crates fs (optimize_children cs) ≡ all_hold crates fs cs
    all_kept NodeList.nil = refl
    all_kept (NodeList.cons c cs) =
        all-insert (optimize_node c) (optimize_children cs) ∙ rw (node_kept c, all_kept cs) refl

    any_kept : (cs : NodeList) → any_holds crates fs (optimize_children cs) ≡ any_holds crates fs cs
    any_kept NodeList.nil = refl
    any_kept (NodeList.cons c cs) =
        any-insert (optimize_node c) (optimize_children cs) ∙ rw (node_kept c, any_kept cs) refl

    count_kept :
        (cs : NodeList)
        → count_holding crates fs (optimize_children cs) ≡ count_holding crates fs cs
    count_kept NodeList.nil = refl
    count_kept (NodeList.cons c cs) =
        count-insert (optimize_node c) (optimize_children cs) ∙ rw (node_kept c, count_kept cs) refl

-- Optimising a body keeps what it says of every feature set, and its cost.
pub holds-optimize_node :
    (crates : RegexCrates) (fs : FeatureSet) (n : Node)
    → (holds crates fs (optimize_node n) ≡ holds crates fs n)
      × (node_cost (optimize_node n) ≡ node_cost n)
holds-optimize_node crates fs n = (node_kept crates fs n, cost_node n)
