-- ===== src/Capabilities/Build/Scoped.antt =====
-- What `rules_for_scope` of capa-x/src/capabilities/ruleset.rs keeps of an order: the rules of the scope.
use capa_x.Prelude.{
  ◌≡◌, refl, sym, ap, ◌∙◌, subst, String, Bool, true, false, Option, none, some, List, [], ◌∷◌,
  ◌++◌, ◌⊎◌, inl, inr, arith, All, str_eq, str_eq_iff, Bool-cases, if◌then◌else◌,
}
use capa_x.Scope.{Scope, scopes_contains}
use capa_x.Rules.{Rule, is_subscope_rule}
use capa_x.Rules.Graph.{name_in, by_name, names_of, Namespaces, sorted_dependencies}
use capa_x.Capabilities.Build.{
  names_in_scope, rules_named, top_names, dependencies_in, dependencies_or_none,
}
use capa_x.Capabilities.Build.Lookup.{rules_named-found}
use capa_x.Capabilities.Build.Ranked.{ComeFirst}
use capa_x.Capabilities.Build.Sorted.{IsWithin, name_in-snoc}

-- the rule of a name is one of the scope
abbrev pub is_of_scope : Scope → Option Rule → Bool
is_of_scope scope none = false
is_of_scope scope (some rule) = scopes_contains rule.scopes scope

-- Every rule is one of the scope.
abbrev pub AreOfScope : Scope → List Rule → Type 0
AreOfScope scope scope_rules = All (λ r. scopes_contains r.scopes scope ≡ true) scope_rules

-- Every rule that was not made from a subscope is in the list, if the rule of its name is of the scope.
abbrev pub AreComplete : List Rule → Scope → List Rule → List Rule → Type 0
AreComplete rules scope scope_rules listed =
    All
      (λ r.
        (is_subscope_rule r ≡ true)
        ⊎ ((is_of_scope scope (by_name rules r.name) ≡ false)
            ⊎ (name_in r.name (names_of scope_rules) ≡ true)))
      listed

-- What each rule depends on stands before it or in the first list, if it is of the scope.
abbrev pub DependenciesBefore : List Rule → Namespaces → Scope → List String → List Rule → Type 0
DependenciesBefore rules namespaces scope before [] = Unit
DependenciesBefore rules namespaces scope before (r ∷ scope_rules) =
    All (λ d. (is_of_scope scope (by_name rules d) ≡ false) ⊎ (name_in d before ≡ true))
      (sorted_dependencies namespaces r)
    × DependenciesBefore rules namespaces scope (before ++ r.name ∷ []) scope_rules

by_name_step :
    (r rule : Rule) (n : String) (o : Option Rule)
    → (o ≡ some rule → rule.name ≡ n)
    → elim o [ some f ↦ some f | none ↦ if str_eq r.name n then some r else none ] ≡ some rule
    → rule.name ≡ n
by_name_step r rule n (some f) ih h = ih h
by_name_step r rule n none ih h = elim (Bool-cases (str_eq r.name n)) [
  | inl e ↦
      let here : some r ≡ some rule = sym (rw e refl) ∙ h in
      let same : r ≡ rule = cc in sym (ap (λ (x : Rule). x.name) same) ∙ (str_eq_iff r.name n).0 e
  | inr e ↦ let there : none ≡ some rule = sym (rw e refl) ∙ h in cc
]

pub name-by_name :
    (rules : List Rule) (n : String) (rule : Rule) → by_name rules n ≡ some rule → rule.name ≡ n
unfolding by_name
name-by_name [] n rule h = cc
name-by_name (r ∷ rules) n rule h =
    by_name_step r rule n (by_name rules n) (name-by_name rules n rule) h

module _ (rules : List Rule) (scope : Scope) where
  abbrev pub kept : List String → List Rule
  kept names = rules_named rules (names_in_scope rules scope names)

  named :
      (n : String) (names : List String) (r : Rule)
      → by_name rules n ≡ some r
      → scopes_contains r.scopes scope ≡ true
      → names_in_scope rules scope (n ∷ names) ≡ n ∷ names_in_scope rules scope names
  unfolding names_in_scope
  named n names r e k = rw (e, k) refl

  -- a name of the order, whose rule is kept or is not
  kept_cases :
      (n : String) (names : List String) (o : Option Rule)
      → by_name rules n ≡ o
      → ((is_of_scope scope (by_name rules n) ≡ false) × (kept (n ∷ names) ≡ kept names))
        ⊎ ((r : Rule) × ((by_name rules n ≡ some r)
              × ((scopes_contains r.scopes scope ≡ true) × (kept (n ∷ names) ≡ r ∷ kept names))))
  unfolding names_in_scope rules_named
  kept_cases n names none e = inl (rw e refl, rw (e, names_in_scope) refl)
  kept_cases n names (some r) e = elim (Bool-cases (scopes_contains r.scopes scope)) [
    | inl k ↦ inr (
      r,
      (
        e,
        (
          k,
          ap (rules_named rules) (named n names r e k)
              ∙ rules_named-found rules n (names_in_scope rules scope names) r e,
        ),
      ),
    )
    | inr k ↦ inl (rw e k, rw (e, names_in_scope, k) refl)
  ]

  pub rules_named-AreOfScope : (names : List String) → AreOfScope scope (kept names)
  unfolding rules_named names_in_scope
  rules_named-AreOfScope [] = tt
  rules_named-AreOfScope (n ∷ names) = elim (kept_cases n names _ refl) [
    | inl c ↦ subst (AreOfScope scope) (sym c.1) (rules_named-AreOfScope names)
    | inr c ↦ subst (AreOfScope scope) (sym c.1.1.1) (c.1.1.0, rules_named-AreOfScope names)
  ]

  -- a name of the order stays if its rule is of the scope
  kept-name_in :
      (n : String) (order : List String)
      → is_of_scope scope (by_name rules n) ≡ true
      → name_in n order ≡ true
      → name_in n (names_of (kept order)) ≡ true
  kept-name_in n [] here h = cc
  kept-name_in n (m ∷ order) here h = elim (kept_cases m order _ refl) [
    | inl c ↦ elim (Bool-cases (str_eq n m)) [
      | inl s ↦
          let same = ap (λ x. is_of_scope scope (by_name rules x)) ((str_eq_iff n m).0 s) in
          absurd (ground (arith, c.0, same))
      | inr s ↦
          subst (λ rs. name_in n (names_of rs) ≡ true) (sym c.1)
            (kept-name_in n order here (ground arith))
    ]
    | inr c ↦
        let own = name-by_name rules m c.0 c.1.0 in
        subst (λ rs. name_in n (names_of rs) ≡ true) (sym c.1.1.1)
          (elim (Bool-cases (str_eq n m)) [
            | inl s ↦ ground (arith, ap (str_eq n) own)
            | inr s ↦ let rest = kept-name_in n order here (ground arith) in ground arith
          ])
  ]

  pub kept-AreComplete :
      (order : List String) (listed : List Rule)
      → IsWithin (top_names listed) order
      → AreComplete rules scope (kept order) listed
  unfolding top_names
  kept-AreComplete order [] h = tt
  kept-AreComplete order (r ∷ listed) h = elim (Bool-cases (is_subscope_rule r)) [
    | inl e ↦ (inl e, kept-AreComplete order listed (λ n k. h n (rw e k)))
    | inr e ↦ (
      inr (elim (Bool-cases (is_of_scope scope (by_name rules r.name))) [
        | inl k ↦ inr (
            kept-name_in r.name order k
              (h r.name (rw e (ground (arith, (str_eq_iff r.name r.name).1 refl)))))
        | inr k ↦ inl k
      ]),
      kept-AreComplete order listed (λ n k. h n (rw e (ground arith))),
    )
  ]

  module _ (namespaces : Namespaces) where
    all_before :
        (deps before listed : List String)
        → ((d : String)
            → is_of_scope scope (by_name rules d) ≡ true
            → name_in d before ≡ true
            → name_in d listed ≡ true)
        → All (λ d. name_in d before ≡ true) deps
        → All (λ d. (is_of_scope scope (by_name rules d) ≡ false) ⊎ (name_in d listed ≡ true)) deps
    all_before [] before listed keep h = tt
    all_before (d ∷ deps) before listed keep h = (
      elim (Bool-cases (is_of_scope scope (by_name rules d))) [
        | inl e ↦ inr (keep d e h.0)
        | inr e ↦ inl e
      ],
      all_before deps before listed keep h.1,
    )

    pub kept-DependenciesBefore :
        (order before listed : List String)
        → ((d : String)
            → is_of_scope scope (by_name rules d) ≡ true
            → name_in d before ≡ true
            → name_in d listed ≡ true)
        → ComeFirst (dependencies_in rules namespaces) before order
        → DependenciesBefore rules namespaces scope listed (kept order)
    kept-DependenciesBefore [] before listed keep h = unfold names_in_scope rules_named in tt
    kept-DependenciesBefore (n ∷ order) before listed keep h = elim (kept_cases n order _ refl) [
      | inl c ↦ subst (DependenciesBefore rules namespaces scope listed) (sym c.1) (
          kept-DependenciesBefore order (before ++ n ∷ []) listed
            (λ d e i. elim (Bool-cases (str_eq d n)) [
              | inl s ↦
                  let same = ap (λ x. is_of_scope scope (by_name rules x)) ((str_eq_iff d n).0 s) in
                  absurd (ground (arith, c.0, same))
              | inr s ↦ keep d e (ground (arith, name_in-snoc d before n))
            ])
            h.1)
      | inr c ↦
          let own = name-by_name rules n c.0 c.1.0 in
          let deps = ap (dependencies_or_none namespaces) c.1.0 in
          subst (DependenciesBefore rules namespaces scope listed) (sym c.1.1.1) (
            all_before (sorted_dependencies namespaces c.0) before listed keep
                (subst (λ ds. All (λ d. name_in d before ≡ true) ds) deps h.0),
            kept-DependenciesBefore order (before ++ n ∷ []) (listed ++ c.0.name ∷ [])
                (λ d e i. elim (Bool-cases (str_eq d n)) [
                  | inl s ↦ ground (arith, name_in-snoc d listed c.0.name, ap (str_eq d) own)
                  | inr s ↦
                      let kept_before = keep d e (ground (arith, name_in-snoc d before n)) in
                      ground (arith, name_in-snoc d listed c.0.name)
                ])
                h.1,
          )
    ]
