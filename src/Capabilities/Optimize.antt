-- ===== src/Capabilities/Optimize.antt =====
-- `feature_cost`, `node_cost` and `optimize_node` of capa-x/src/capabilities/ruleset.rs: the
-- children of a node in the order of what they cost.
pub mod Meaning
use capa_x.Prelude.{ℕ, ◌+◌, ◌%◌, Bool, leb, if◌then◌else◌, u32_mod, ◌≡◌, refl, arith, ap}
use capa_x.Features.{Feature, os, arch, format, string, substring, regex, bytes}
use capa_x.Rules.{Node, Statement, NodeList, node}

unfoldable pub feature_cost : Feature → ℕ
feature_cost (os _) = 0
feature_cost (arch _) = 0
feature_cost (format _) = 0
feature_cost (string (substring _)) = 2
feature_cost (string (regex _)) = 2
feature_cost (bytes _) = 2
feature_cost _ = 1

-- sums of `u32`
unfoldable mutual
  pub node_cost : Node → ℕ
  node_cost (node stmt description) = statement_cost stmt

  pub statement_cost : Statement → ℕ
  statement_cost (Statement.leaf feature) = feature_cost feature
  statement_cost (Statement.not child) = (1 + node_cost child) % u32_mod
  statement_cost (Statement.range feature min max) = (1 + feature_cost feature) % u32_mod
  statement_cost (Statement.and children) = (1 + sum_costs children) % u32_mod
  statement_cost (Statement.or children) = (1 + sum_costs children) % u32_mod
  statement_cost (Statement.some_of count children) = (1 + sum_costs children) % u32_mod
  statement_cost (Statement.subscope scope body) = (1 + node_cost body) % u32_mod

  pub sum_costs : NodeList → ℕ
  sum_costs NodeList.nil = 0
  sum_costs (NodeList.cons c cs) = (node_cost c + sum_costs cs) % u32_mod

-- a node goes before those behind it that cost as much
unfoldable pub insert_by_cost : Node → NodeList → NodeList
insert_by_cost n NodeList.nil = NodeList.cons n NodeList.nil
insert_by_cost n (NodeList.cons c cs) =
    let rest = insert_by_cost n cs in
    if leb (node_cost n) (node_cost c)
    then NodeList.cons n (NodeList.cons c cs)
    else NodeList.cons c rest

-- A child is optimised before it is put in its place, where the source sorts first: that does not
-- change what it costs, so the order is the same.
unfoldable mutual
  pub optimize_node : Node → Node
  optimize_node (node stmt description) = node (optimize_statement stmt) description

  pub optimize_statement : Statement → Statement
  optimize_statement (Statement.and children) = Statement.and (optimize_children children)
  optimize_statement (Statement.or children) = Statement.or (optimize_children children)
  optimize_statement (Statement.some_of count children) =
      Statement.some_of count (optimize_children children)
  optimize_statement (Statement.not child) = Statement.not (optimize_node child)
  optimize_statement (Statement.subscope scope body) = Statement.subscope scope (optimize_node body)
  optimize_statement (Statement.range feature min max) = Statement.range feature min max
  optimize_statement (Statement.leaf feature) = Statement.leaf feature

  pub optimize_children : NodeList → NodeList
  optimize_children NodeList.nil = NodeList.nil
  optimize_children (NodeList.cons c cs) = insert_by_cost (optimize_node c) (optimize_children cs)
