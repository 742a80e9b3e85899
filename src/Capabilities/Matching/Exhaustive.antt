-- ===== src/Capabilities/Matching/Exhaustive.antt =====
-- The indexed matcher gives what an evaluation of every rule in order gives.
use capa_x.Scope.{Scope, scope_eq}
use capa_x.Engine.Evaluate.{evaluate}
use capa_x.Capabilities.Matching.Published.{Adds-index_rule_matches}
use capa_x.Engine.Namespaces.{index_rule_matches}
use capa_x.Prelude.{
  ℕ, ◌≡◌, sym, ap, ◌∙◌, inl, inr, true, false, List, Option, some, arith, Bool-cases, get_elem?,
  ◌+◌, suc, ◌≤◌, length, ◌⊎◌, ◌∷◌, ◌<◌, All, [], subst, refl, zero, none,
}
use capa_x.Prelude.Result.{Result, ok, err}
use capa_x.Ordered.{nat_ord}
use capa_x.SortedSet.{contains}
use capa_x.IndexMap
use capa_x.Address.{Address}
use capa_x.Features.Regex.{RegexCrates}
use capa_x.Rules.{Rule}
use capa_x.Engine.FeatureSet.{FeatureSet}
use capa_x.Engine.MatchResult.{MatchResult, EngineError}
use capa_x.Engine.Boolean.{evaluate_boolean}
use capa_x.Engine.Meaning.{holds, IsExtracted, IsSized, IsInhabited}
use capa_x.Engine.Meaning.Boolean.{evaluate_boolean-holds}
use capa_x.Capabilities.Index.{new, activate}
use capa_x.Capabilities.Index.Complete.{new-Registered}
use capa_x.Capabilities.Index.Candidates.{hit_of_holds}
use capa_x.Capabilities.Matching.{
  MatchResults, Matched, match_loop, match_all, suc, length, new_keys, index_rule_matches, [],
  push_result, evaluate, MatchingRuleSet, Scope, match_scope, rule_at, scope_eq, none,
}
use capa_x.Capabilities.Matching.Ready.{
  Ready, Ready-skip, Ready-activate, absent_below, Ready-tail, Ready-candidates,
}

-- A rule body that can be evaluated without an error or a vacuous `optional:`.
pub record IsMatchable (rule : Rule) : Type 0 where
  pub extracted : IsExtracted rule.body
  pub sized : IsSized rule.body
  pub inhabited : IsInhabited rule.body

false_is_true : false ≡ true → ⊥
false_is_true h = cc

nat_cases : (p c : ℕ) → p ≤ c → (p ≡ c) ⊎ (p < c)
nat_cases p c h = grind arith

suc_shift : (p i : ℕ) → suc p + i ≡ p + suc i
suc_shift p i = omega arith

module _ (crates : RegexCrates) (rules : List Rule) (at : ℕ → Option Rule) (addr : Address)
    (resolves : (i : ℕ) → at i ≡ get_elem? rules i) where
  abbrev loop : ℕ → List ℕ → FeatureSet → MatchResults → Option Matched
  loop = match_loop crates at (new rules) addr

  -- a rule that the features do not lead to does not hold
  absent_fails :
      (p : ℕ) (waiting : List ℕ) (fs : FeatureSet) (rule : Rule)
      → get_elem? rules p ≡ some rule
      → IsMatchable rule
      → Ready rules p waiting fs
      → contains p waiting ≡ false
      → evaluate_boolean crates rule.body fs ≡ ok false
  absent_fails p waiting fs rule here m r absent = elim (Bool-cases (holds crates fs rule.body)) [
    | inl e ↦ absurd (
        false_is_true (
          sym absent
          ∙ r.complete p (omega arith) (
              hit_of_holds (new rules) crates p fs rule.body (new-Registered rules p rule here) e)))
    | inr e ↦ evaluate_boolean-holds crates rule.body fs m.extracted m.sized m.inhabited ∙ ap ok e
  ]

  first :
      (p : ℕ) (rule : Rule) (rest : List Rule)
      → ((i : ℕ) → get_elem? rules (p + i) ≡ get_elem? (rule ∷ rest) i)
      → get_elem? rules p ≡ some rule
  first p rule rest suffix = ap (get_elem? rules) (omega arith) ∙ suffix 0

  next :
      (p : ℕ) (rule : Rule) (rest : List Rule)
      → ((i : ℕ) → get_elem? rules (p + i) ≡ get_elem? (rule ∷ rest) i)
      → (i : ℕ) → get_elem? rules (suc p + i) ≡ get_elem? rest i
  next p rule rest suffix i = ap (get_elem? rules) (suc_shift p i) ∙ suffix (suc i)

  -- what stays to be shown of the rest of the run
  abbrev Agree : ℕ → List ℕ → List Rule → FeatureSet → MatchResults → Type 0
  Agree fuel waiting rest fs results =
      loop fuel waiting fs results ≡ some (match_all crates addr rest fs results)

  -- a rule that is not waiting
  skip_case :
      (p fuel : ℕ) (waiting : List ℕ) (rest : List Rule) (fs : FeatureSet) (results : MatchResults)
      (rule : Rule)
      → evaluate_boolean crates rule.body fs ≡ ok false
      → Agree fuel waiting rest fs results
      → Agree fuel waiting (rule ∷ rest) fs results
  unfolding match_all
  skip_case p fuel waiting rest fs results rule e ih = rw (e, match_all) ih

  -- the rule at the head of the waiting positions
  step_case :
      (p fuel : ℕ) (waiting : List ℕ) (rest : List Rule) (fs : FeatureSet) (results : MatchResults)
      (rule : Rule)
      → at p ≡ some rule
      → IsMatchable rule
      → Ready rules p (p ∷ waiting) fs
      → ((w : List ℕ) (f : FeatureSet) (r : MatchResults)
          → Ready rules (suc p) w f
          → Agree fuel w rest f r)
      → Agree (suc fuel) (p ∷ waiting) (rule ∷ rest) fs results
  unfolding match_all match_loop
  step_case p fuel waiting rest fs results rule here m r ih =
      rw
        (
          here,
          evaluate_boolean-holds crates rule.body fs m.extracted m.sized m.inhabited,
          match_loop,
          match_all,
        )
        (elim (Bool-cases (holds crates fs rule.body)) [
          | inl e ↦ rw e (go (evaluate crates rule.body fs false))
          | inr e ↦ rw e (ih waiting fs results (Ready-tail rules p waiting fs r))
        ])
    where
      go :
          (full : Result EngineError MatchResult)
          → elim full [
            | err e ↦ some (err e)
            | ok tree ↦
                loop fuel
                  (activate
                    (new rules)
                    p
                    (new_keys fs (index_rule_matches fs rule (addr ∷ [])))
                    waiting)
                  (index_rule_matches fs rule (addr ∷ []))
                  (push_result rule.name (addr, tree) results)
          ]
            ≡ some (elim full [
              | err e ↦ err e
              | ok tree ↦
                  match_all crates addr rest
                    (index_rule_matches fs rule (addr ∷ []))
                    (push_result rule.name (addr, tree) results)
            ])
      go (err e) = refl
      go (ok tree) = ih _ _ _ (
          Ready-activate rules p waiting fs (index_rule_matches fs rule (addr ∷ []))
            (Adds-index_rule_matches fs rule (addr ∷ [])) r)

  run_eq :
      (rest : List Rule) (p fuel : ℕ) (waiting : List ℕ) (fs : FeatureSet) (results : MatchResults)
      → ((i : ℕ) → get_elem? rules (p + i) ≡ get_elem? rest i)
      → length rules ≡ p + length rest
      → length rest < fuel
      → All IsMatchable rest
      → Ready rules p waiting fs
      → Agree fuel waiting rest fs results
  run_eq rest p zero waiting fs results suffix len lt m r = absurd (omega arith)
  run_eq [] p (suc fuel) [] fs results suffix len lt m r = unfold match_loop match_all in refl
  run_eq [] p (suc fuel) (c ∷ waiting) fs results suffix len lt m r =
      absurd (omega (arith, r.low c (ground arith), r.high c (ground arith)))
  run_eq (rule ∷ rest) p (suc fuel) [] fs results suffix len lt m r =
      skip_case p (suc fuel) [] rest fs results rule
        (absent_fails p [] fs rule (first p rule rest suffix) m.0 r refl)
        (run_eq rest (suc p) (suc fuel) [] fs results (next p rule rest suffix) (omega arith)
          (omega arith) m.1 (Ready-skip rules p [] fs r refl))
  run_eq (rule ∷ rest) p (suc fuel) (c ∷ waiting) fs results suffix len lt m r =
      elim (nat_cases p c (r.low c (ground arith))) [
        | inl e ↦
            subst (λ n. Agree (suc fuel) (n ∷ waiting) (rule ∷ rest) fs results) e
              (step_case p fuel waiting rest fs results rule (resolves p ∙ first p rule rest suffix)
                m.0 (subst (λ n. Ready rules p (n ∷ waiting) fs) (sym e) r)
                (λ w f q ready.
                  run_eq rest (suc p) fuel w f q (next p rule rest suffix) (omega arith)
                    (omega arith) m.1 ready))
        | inr l ↦
            let absent = absent_below p c waiting r.sorted l in
            skip_case p (suc fuel) (c ∷ waiting) rest fs results rule
              (absent_fails p (c ∷ waiting) fs rule (first p rule rest suffix) m.0 r absent)
              (run_eq rest (suc p) (suc fuel) (c ∷ waiting) fs results (next p rule rest suffix)
                (omega arith) (omega arith) m.1 (Ready-skip rules p (c ∷ waiting) fs r absent))
      ]

-- How a set of rules presents one scope: an order of names, the rules that they name, and the index
-- of those rules.
pub record IsIndexed (set : MatchingRuleSet) (scope : Scope) (rules : List Rule) : Type 0 where
  pub resolves : (i : ℕ) → rule_at set scope i ≡ get_elem? rules i
  pub indexed : IndexMap.get scope_eq scope set.indexes ≡ some (new rules)

-- How a set presents a scope: not at all, or by an order and its index.
abbrev pub Presents : MatchingRuleSet → Scope → Type 0
Presents set scope =
    (IndexMap.get scope_eq scope set.indexes ≡ none)
    ⊎ ((rules : List Rule) × IsIndexed set scope rules)

abbrev pub presented :
    {A : Type 0} {P : List Rule → Type 0} → A ⊎ ((rules : List Rule) × P rules) → List Rule
presented (inl absent) = []
presented (inr here) = here.0

-- For a scope that the set presents by an order of rules and its index, for rules without subscopes,
-- COM leaves and vacuous `N or more`, and with more rounds than there are rules, the matcher that consults the index returns the same features and the same results, in
-- the same order, or the same error, as the evaluation of every rule of the scope in its order.
pub match_scope-match_all :
    (crates : RegexCrates) (set : MatchingRuleSet) (scope : Scope) (rules : List Rule)
    (fs : FeatureSet) (addr : Address) (fuel : ℕ)
    → IsIndexed set scope rules
    → All IsMatchable rules
    → length rules < fuel
    → match_scope crates fuel set scope fs addr ≡ some (match_all crates addr rules fs [])
match_scope-match_all crates set scope rules fs addr fuel h m lt =
    unfold match_scope in
    rw h.indexed (
      run_eq crates rules (rule_at set scope) addr h.resolves rules 0 fuel _ fs []
        (λ i. ap (get_elem? rules) (omega arith)) (omega arith) lt m (Ready-candidates rules fs))

-- The same for every scope, also for one that the set does not present.
pub match_scope-presented :
    (crates : RegexCrates) (set : MatchingRuleSet) (scope : Scope) (p : Presents set scope)
    (fs : FeatureSet) (addr : Address) (fuel : ℕ)
    → All IsMatchable (presented p)
    → length (presented p) < fuel
    → match_scope crates fuel set scope fs addr ≡ some (match_all crates addr (presented p) fs [])
match_scope-presented crates set scope (inl absent) fs addr fuel m lt =
    unfold match_scope match_all in rw absent refl
match_scope-presented crates set scope (inr here) fs addr fuel m lt =
    match_scope-match_all crates set scope here.0 fs addr fuel here.1 m lt
