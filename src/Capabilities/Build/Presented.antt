-- ===== src/Capabilities/Build/Presented.antt =====
-- The rules by which `MatchingRuleSet::new` of capa-x/src/capabilities/ruleset.rs presents a scope.
use capa_x.Prelude.{
  ℕ, ◌<◌, ◌≡◌, refl, sym, ap, ◌∙◌, subst, String, true, Option, none, some, List, [], ◌∷◌, inl, inr,
  arith, All, if◌then◌else◌, any, Bool-cases, str_eq, str_eq_iff,
}
use capa_x.Prelude.Result.{ok}
use capa_x.Features.{ComKind}
use capa_x.Scope.{Scope, scope_eq}
use capa_x.Rules.{Rule}
use capa_x.Rules.Graph.{name_in, by_name, Namespaces, sorted_dependencies, index_rules_by_namespace}
use capa_x.Capabilities.Com.{ComDatabase}
use capa_x.Capabilities.Matching.{MatchingRuleSet}
use capa_x.Capabilities.Matching.Exhaustive.{IsIndexed}
use capa_x.Capabilities.Build.{
  new, expand_and_extract, match_order, rules_named, dependencies_in, dependencies_or_none,
  enough_visits,
}
use capa_x.Capabilities.Build.Indexed.{set_of-IsIndexed, orders-AreFiltered, of_new}
use capa_x.Capabilities.Build.Ordered.{orders-HasOrder, rules_for_scope-IsOrder}
use capa_x.Capabilities.Build.Ranked.{topo_sort_subset-ComeFirst}
use capa_x.Capabilities.Build.Scoped.{DependenciesBefore, name-by_name, kept-DependenciesBefore}

-- The ranks of names fall from a rule to what it depends on.
abbrev pub AreRanked : (String → ℕ) → List Rule → Namespaces → Type 0
AreRanked rank rules namespaces =
    All (λ r. All (λ d. rank d < rank r.name) (sorted_dependencies namespaces r)) rules

All-name_in :
    (P : String → Type 0) (names : List String) (n : String)
    → All P names
    → name_in n names ≡ true
    → P n
All-name_in P [] n h k = cc
All-name_in P (m ∷ names) n h k = elim (Bool-cases (str_eq n m)) [
  | inl e ↦ subst P (sym ((str_eq_iff n m).0 e)) h.0
  | inr e ↦ All-name_in P names n h.1 (ground arith)
]

All-by_name :
    (P : Rule → Type 0) (rules : List Rule) (n : String) (rule : Rule)
    → All P rules
    → by_name rules n ≡ some rule
    → P rule
unfolding by_name
All-by_name P [] n rule h k = cc
All-by_name P (r ∷ rules) n rule h k =
    after (by_name rules n) (λ f e. All-by_name P rules n f h.1 e) refl k
  where
    after :
        (o : Option Rule)
        → ((f : Rule) → by_name rules n ≡ some f → P f)
        → by_name rules n ≡ o
        → elim o [ some f ↦ some f | none ↦ if str_eq r.name n then some r else none ] ≡ some rule
        → P rule
    after (some f) later e g = later rule (e ∙ g)
    after none later e g = elim (Bool-cases (str_eq r.name n)) [
      | inl s ↦
          let here : some r ≡ some rule = sym (rw s refl) ∙ g in
          let same : r ≡ rule = cc in subst P same h.0
      | inr s ↦ let there : none ≡ some rule = sym (rw s refl) ∙ g in cc
    ]

ranked_names :
    (rank : String → ℕ) (rules : List Rule) (namespaces : Namespaces) (n d : String)
    → AreRanked rank rules namespaces
    → name_in d (dependencies_in rules namespaces n) ≡ true
    → rank d < rank n
ranked_names rank rules namespaces n d h i = after (by_name rules n) refl i
  where
    after :
        (o : Option Rule)
        → by_name rules n ≡ o
        → name_in d (dependencies_or_none namespaces o) ≡ true
        → rank d < rank n
    after none e k = cc
    after (some r) e k =
        subst (λ m. rank d < rank m) (name-by_name rules n r e)
          (All-name_in (λ x. rank x < rank r.name) (sorted_dependencies namespaces r) d
            (All-by_name (λ q. All (λ x. rank x < rank q.name) (sorted_dependencies namespaces q))
              rules n r h e)
            k)

-- Where the expanded rules do not depend on each other in a circle, as a rank of their names tells, the
-- rules by which a set that is built presents a scope stand in an order in which all that a rule
-- depends on, as far as it is of the scope, comes before it.
pub new-DependenciesBefore :
    (database : ComKind → ComDatabase) (rules : List Rule) (set : MatchingRuleSet) (scope : Scope)
    (expanded : List Rule) (rank : String → ℕ)
    → any (λ s. scope_eq s scope) match_order ≡ true
    → new database rules ≡ some (ok set)
    → expand_and_extract database rules ≡ some (ok expanded)
    → AreRanked rank expanded (index_rules_by_namespace expanded)
    → (scope_rules : List Rule) × (IsIndexed set scope scope_rules
        × DependenciesBefore expanded (index_rules_by_namespace expanded) scope [] scope_rules)
new-DependenciesBefore database rules set scope expanded rank i h x ranked =
    of_new database rules
      (λ s.
        (scope_rules : List Rule) × (IsIndexed s scope scope_rules
          × DependenciesBefore expanded (index_rules_by_namespace expanded) scope [] scope_rules))
      (λ rs by_scope y e.
        let same : rs ≡ expanded = cc in
        let ns = index_rules_by_namespace rs in
        let names = orders-HasOrder rs ns match_order scope by_scope i e in
        let o = rules_for_scope-IsOrder rs ns scope names.0 names.1.1 in
        let first =
          topo_sort_subset-ComeFirst (dependencies_in rs ns) rank
            (λ n d k.
              ranked_names rank rs ns n d
                (subst (λ q. AreRanked rank q (index_rules_by_namespace q)) (sym same) ranked) k)
            (enough_visits rs ns o.closed) o.closed o.order o.sorts in
        (
          rules_named rs names.0,
          (
            set_of-IsIndexed rs ns by_scope scope names.0
                (orders-AreFiltered rs ns match_order by_scope e) names.1.0,
            subst
                (λ q.
                  DependenciesBefore q (index_rules_by_namespace q) scope []
                    (rules_named rs names.0))
                same
                (subst (DependenciesBefore rs ns scope []) (ap (rules_named rs) o.restricts)
                  (kept-DependenciesBefore rs scope ns o.order [] [] (λ d s k. k) first)),
          ),
        ))
      set h
