-- ===== src/Capabilities/Build/Ordered.antt =====
-- The orders that `rules_for_scope` of capa-x/src/capabilities/ruleset.rs makes for the scopes of
-- `MATCH_ORDER`, and what they are made from.
use capa_x.Prelude.{
  ℕ, ◌≡◌, refl, sym, ap, ◌∙◌, subst, String, true, false, Option, none, some, List, [], ◌∷◌, inl,
  inr, arith, get_elem?, any, Bool-cases,
}
use capa_x.Scope.{
  Scope, scope_eq, scope_index, process, thread, span_of_calls, call, instruction, basic_block,
  function, file, global,
}
use capa_x.Rules.{Rule}
use capa_x.Rules.Graph.{Namespaces}
use capa_x.Capabilities.Build.{
  orders, with_order, rules_for_scope, restricted, ordered, topo_sort_subset, names_in_scope,
  dependencies_in, enough_visits, top_names,
}
use capa_x.Capabilities.Build.Indexed.{names_of_scope}
use capa_x.Capabilities.Build.Sorted.{IsWithin, closure_all-Covers}

-- the inverse of the numbering of the scopes
abbrev or_global : Option Scope → Scope
or_global none = global
or_global (some s) = s

abbrev scope_at : ℕ → Scope
scope_at n = or_global (
    get_elem?
      (file ∷ process ∷ thread ∷ span_of_calls ∷ call ∷ function ∷ basic_block ∷ instruction ∷ [])
      n)

scope_at-index : (s : Scope) → scope_at (scope_index s) ≡ s
scope_at-index process = refl
scope_at-index thread = refl
scope_at-index span_of_calls = refl
scope_at-index call = refl
scope_at-index instruction = refl
scope_at-index basic_block = refl
scope_at-index function = refl
scope_at-index file = refl
scope_at-index global = refl

scope_eq-same : (a b : Scope) → scope_eq a b ≡ true → a ≡ b
scope_eq-same a b h =
    let same : scope_index a ≡ scope_index b = ground arith in
    sym (scope_at-index a) ∙ ap scope_at same ∙ scope_at-index b

-- every scope that is listed has the order that is made for it
abbrev pub HasOrder : List Rule → Namespaces → Scope → List (Scope × List String) → Type 0
HasOrder rules namespaces scope by_scope =
    (names : List String) × ((names_of_scope scope by_scope ≡ some names)
      × (rules_for_scope rules namespaces scope ≡ some names))

HasOrder-step :
    (rules : List Rule) (namespaces : Namespaces) (scope s : Scope) (a : Option (List String))
    (b : Option (List (Scope × List String))) (by_scope : List (Scope × List String))
    → rules_for_scope rules namespaces s ≡ a
    → with_order s a b ≡ some by_scope
    → (scope_eq s scope ≡ false
        → (rest : List (Scope × List String)) → b ≡ some rest
        → HasOrder rules namespaces scope rest)
    → HasOrder rules namespaces scope by_scope
HasOrder-step rules namespaces scope s none b by_scope e h ih = cc
HasOrder-step rules namespaces scope s (some ns) none by_scope e h ih = cc
HasOrder-step rules namespaces scope s (some ns) (some rest) by_scope e h ih =
    let same : (s, ns) ∷ rest ≡ by_scope = cc in
    subst (HasOrder rules namespaces scope) same (elim (Bool-cases (scope_eq s scope)) [
      | inl k ↦ (
        ns,
        (rw k refl, ap (rules_for_scope rules namespaces) (sym (scope_eq-same s scope k)) ∙ e),
      )
      | inr k ↦ rw k (ih k rest refl)
    ])

pub orders-HasOrder :
    (rules : List Rule) (namespaces : Namespaces) (scopes : List Scope) (scope : Scope)
    (by_scope : List (Scope × List String))
    → any (λ s. scope_eq s scope) scopes ≡ true
    → orders rules namespaces scopes ≡ some by_scope
    → HasOrder rules namespaces scope by_scope
unfolding orders
orders-HasOrder rules namespaces [] scope by_scope i h = cc
orders-HasOrder rules namespaces (s ∷ scopes) scope by_scope i h =
    HasOrder-step rules namespaces scope s _ _ by_scope refl h
      (λ e rest k. orders-HasOrder rules namespaces scopes scope rest (ground arith) k)

-- how the names of a scope come about
pub record IsOrder (rules : List Rule) (namespaces : Namespaces) (scope : Scope)
    (names : List String) : Type 0 where
  pub order : List String
  pub closed : List String
  pub restricts : names_in_scope rules scope order ≡ names
  pub covers : IsWithin (top_names rules) closed
  pub sorts :
      topo_sort_subset
        (dependencies_in rules namespaces)
        (enough_visits rules namespaces closed)
        closed
      ≡ some order

module _ (rules : List Rule) (namespaces : Namespaces) (scope : Scope) where
  IsOrder-of_sorted :
      (closed names : List String) (found : Option (List String))
      → IsWithin (top_names rules) closed
      → topo_sort_subset
          (dependencies_in rules namespaces)
          (enough_visits rules namespaces closed)
          closed
        ≡ found
      → restricted rules scope found ≡ some names
      → IsOrder rules namespaces scope names
  IsOrder-of_sorted closed names none c e h = cc
  IsOrder-of_sorted closed names (some order) c e h = record {
    order = order;
    closed = closed;
    restricts = cc;
    covers = c;
    sorts = e;
  }

  IsOrder-of_closed :
      (names : List String) (found : Option (List String))
      → ((closed : List String) → found ≡ some closed → IsWithin (top_names rules) closed)
      → restricted rules scope (ordered rules namespaces found) ≡ some names
      → IsOrder rules namespaces scope names
  IsOrder-of_closed names none c h = cc
  IsOrder-of_closed names (some closed) c h =
      IsOrder-of_sorted closed names _ (c closed refl) refl h

  pub rules_for_scope-IsOrder :
      (names : List String)
      → rules_for_scope rules namespaces scope ≡ some names
      → IsOrder rules namespaces scope names
  unfolding rules_for_scope
  rules_for_scope-IsOrder names h =
      IsOrder-of_closed names _
        (λ closed e.
          let c =
            closure_all-Covers (dependencies_in rules namespaces)
              (enough_visits rules namespaces (top_names rules)) (top_names rules) [] closed e in
          c.covered)
        h
