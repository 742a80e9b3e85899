-- ===== src/Capabilities/Build/Indexed.antt =====
-- A set that was built presents every scope that is matched by an order and its index.
use capa_x.Prelude.Result.{ok}
use capa_x.Prelude.{
  All, ◌≡◌, refl, sym, ap, ◌∙◌, String, Option, none, some, List, [], ◌∷◌, Bool-cases, inl, inr,
  get_elem?, subst,
}
use capa_x.IndexMap
use capa_x.Scope.{Scope, scope_eq}
use capa_x.Rules.{Rule}
use capa_x.Rules.Graph.{by_name, Namespaces}
use capa_x.Capabilities.Index
use capa_x.Capabilities.Index.{RuleFeatureIndex}
use capa_x.Capabilities.Matching.{MatchingRuleSet, rule_named, name_at, rule_at}
use capa_x.Capabilities.Matching.Exhaustive.{IsIndexed, Presents}
use capa_x.Prelude.Result.{Result, ok, err}
use capa_x.Rules.Error.{RuleError}
use capa_x.Rules.Graph
use capa_x.Features.{ComKind}
use capa_x.Capabilities.Com.{ComDatabase}
use capa_x.Rules.Graph.{index_rules_by_namespace}
use capa_x.Capabilities.Build.{
  assembled, build, built, checked, new, expand_and_extract, match_order, restricted, with_order,
  orders, set_of, names_in_scope, rules_named, index_orders, rules_for_scope, ok, enough_checks,
}
use capa_x.Capabilities.Build.Lookup.{
  AllFound, found_at, names_in_scope-AllFound, get-rules_named, get-rules_by_name-nil,
}

-- The lookups of a scope in what was built for it.
abbrev pub names_of_scope : Scope → List (Scope × List String) → Option (List String)
names_of_scope scope by_scope = IndexMap.get scope_eq scope by_scope

abbrev index_of : List Rule → Option (List String) → Option RuleFeatureIndex
index_of rules none = none
index_of rules (some names) = some (Index.new (rules_named rules names))

get-index_orders :
    (rules : List Rule) (scope : Scope) (by_scope : List (Scope × List String))
    → IndexMap.get scope_eq scope (index_orders rules by_scope)
      ≡ index_of rules (names_of_scope scope by_scope)
unfolding index_orders
get-index_orders rules scope [] = refl
get-index_orders rules scope ((s, names) ∷ rest) = elim (Bool-cases (scope_eq s scope)) [
  | inl e ↦ rw e refl
  | inr e ↦ rw e (get-index_orders rules scope rest)
]

-- what a list of scopes is given
abbrev pub AreFiltered : List Rule → List (Scope × List String) → Type 0
AreFiltered rules by_scope = All (λ o. AllFound rules o.1) by_scope

restricted-AllFound :
    (rules : List Rule) (scope : Scope) (order : Option (List String)) (names : List String)
    → restricted rules scope order ≡ some names
    → AllFound rules names
restricted-AllFound rules scope none names h = cc
restricted-AllFound rules scope (some order) names h =
    let same : names_in_scope rules scope order ≡ names = cc in
    subst (AllFound rules) same (names_in_scope-AllFound rules scope order)

orders-step :
    (rules : List Rule) (scope : Scope) (a : Option (List String))
    (b : Option (List (Scope × List String))) (by_scope : List (Scope × List String))
    → ((names : List String) → a ≡ some names → AllFound rules names)
    → ((rest : List (Scope × List String)) → b ≡ some rest → AreFiltered rules rest)
    → with_order scope a b ≡ some by_scope
    → AreFiltered rules by_scope
orders-step rules scope none b by_scope f g h = cc
orders-step rules scope (some names) none by_scope f g h = cc
orders-step rules scope (some names) (some rest) by_scope f g h =
    let same : (scope, names) ∷ rest ≡ by_scope = cc in
    subst (AreFiltered rules) same (f names refl, g rest refl)

pub orders-AreFiltered :
    (rules : List Rule) (namespaces : Namespaces) (scopes : List Scope)
    (by_scope : List (Scope × List String))
    → orders rules namespaces scopes ≡ some by_scope
    → AreFiltered rules by_scope
unfolding orders rules_for_scope
orders-AreFiltered rules namespaces [] by_scope h =
    let same : [] ≡ by_scope = cc in subst (AreFiltered rules) same tt
orders-AreFiltered rules namespaces (scope ∷ scopes) by_scope h =
    orders-step rules scope _ _ by_scope (λ names e. restricted-AllFound rules scope _ names e)
      (λ rest e. orders-AreFiltered rules namespaces scopes rest e) h

filtered_names :
    (rules : List Rule) (scope : Scope) (by_scope : List (Scope × List String))
    (names : List String)
    → AreFiltered rules by_scope
    → names_of_scope scope by_scope ≡ some names
    → AllFound rules names
filtered_names rules scope [] names h e = cc
filtered_names rules scope ((s, ns) ∷ rest) names h e = elim (Bool-cases (scope_eq s scope)) [
  | inl k ↦ here (sym (rw k refl) ∙ e)
  | inr k ↦ filtered_names rules scope rest names h.1 (sym (rw k refl) ∙ e)
]
  where
    here : some ns ≡ some names → AllFound rules names
    here k = let same : ns ≡ names = cc in subst (AllFound rules) same h.0

rule_named-found :
    (rules : List Rule) (namespaces : Namespaces) (by_scope : List (Scope × List String))
    (o : Option String)
    → rule_named (set_of rules namespaces by_scope) o ≡ found_at rules o
rule_named-found rules namespaces by_scope none = refl
rule_named-found rules namespaces by_scope (some name) = get-rules_by_name-nil name rules

-- A scope that has an order has its index at the same positions.
pub set_of-IsIndexed :
    (rules : List Rule) (namespaces : Namespaces) (by_scope : List (Scope × List String))
    (scope : Scope) (names : List String)
    → AreFiltered rules by_scope
    → names_of_scope scope by_scope ≡ some names
    → IsIndexed (set_of rules namespaces by_scope) scope (rules_named rules names)
unfolding rule_at
set_of-IsIndexed rules namespaces by_scope scope names h e = record {
  resolves = λ i.
      ap (λ o. rule_named (set_of rules namespaces by_scope) (name_at o i)) e
      ∙ rule_named-found rules namespaces by_scope (get_elem? names i)
      ∙ get-rules_named rules names i (filtered_names rules scope by_scope names h e);
  indexed = get-index_orders rules scope by_scope ∙ ap (index_of rules) e;
}

-- What holds of the sets that are put together of the expanded rules holds of what is built.
module _ (database : ComKind → ComDatabase) (rules : List Rule) (P : MatchingRuleSet → Type 0)
    (of_orders : (expanded : List Rule) (by_scope : List (Scope × List String))
      → expand_and_extract database rules ≡ some (ok expanded)
      → orders expanded (index_rules_by_namespace expanded) match_order ≡ some by_scope
      → P (set_of expanded (index_rules_by_namespace expanded) by_scope)) where
  of_assembled :
      (expanded : List Rule) (found : Option (List (Scope × List String))) (set : MatchingRuleSet)
      → expand_and_extract database rules ≡ some (ok expanded)
      → orders expanded (index_rules_by_namespace expanded) match_order ≡ found
      → assembled expanded (index_rules_by_namespace expanded) found ≡ some (ok set)
      → P set
  of_assembled expanded none set x e h = cc
  of_assembled expanded (some by_scope) set x e h =
      let same : set_of expanded (index_rules_by_namespace expanded) by_scope ≡ set = cc in
      subst P same (of_orders expanded by_scope x e)

  of_built :
      (result : Option (Result RuleError (List Rule))) (set : MatchingRuleSet)
      → expand_and_extract database rules ≡ result
      → built result ≡ some (ok set)
      → P set
  unfolding build
  of_built none set x h = cc
  of_built (some (err e)) set x h = cc
  of_built (some (ok expanded)) set x h = of_assembled expanded _ set x refl h

  of_checked :
      (rule_set : Option (Result RuleError Graph.RuleSet))
      (next : Option (Result RuleError MatchingRuleSet)) (set : MatchingRuleSet)
      → (next ≡ some (ok set) → P set)
      → checked rule_set next ≡ some (ok set)
      → P set
  of_checked none next set f h = cc
  of_checked (some (err e)) next set f h = cc
  of_checked (some (ok rule_set)) next set f h = f h

  pub of_new : (set : MatchingRuleSet) → new database rules ≡ some (ok set) → P set
  unfolding new
  of_new set h =
      of_checked (Graph.new (enough_checks rules) rules) _ set
        (of_built (expand_and_extract database rules) set refl) h

-- a scope without an order has no index
set_of-Presents :
    (rules : List Rule) (namespaces : Namespaces) (by_scope : List (Scope × List String))
    (scope : Scope) (names : Option (List String))
    → AreFiltered rules by_scope
    → names_of_scope scope by_scope ≡ names
    → Presents (set_of rules namespaces by_scope) scope
set_of-Presents rules namespaces by_scope scope none h e =
    inl (get-index_orders rules scope by_scope ∙ ap (index_of rules) e)
set_of-Presents rules namespaces by_scope scope (some names) h e =
    inr (rules_named rules names, set_of-IsIndexed rules namespaces by_scope scope names h e)

-- A set of rules that is built is one that the drivers can use.
pub new-Presents :
    (database : ComKind → ComDatabase) (rules : List Rule) (set : MatchingRuleSet)
    → new database rules ≡ some (ok set)
    → (scope : Scope) → Presents set scope
new-Presents database rules set h scope =
    of_new database rules (λ s. Presents s scope)
      (λ expanded by_scope x e.
        set_of-Presents expanded (index_rules_by_namespace expanded) by_scope scope _
          (orders-AreFiltered expanded (index_rules_by_namespace expanded) match_order by_scope e)
          refl)
      set h
