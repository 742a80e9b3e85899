-- ===== src/Capabilities/Matching/Total.antt =====
-- The loop over the candidates ends: a position that is waiting is ahead of the ones that are done.
use capa_x.Prelude.{
  ℕ, zero, suc, ◌+◌, ◌<◌, ◌≡◌, refl, List, [], ◌∷◌, Option, none, some, arith, length, true, false,
  Bool, inl, inr,
}
use capa_x.Prelude.Result.{Result, ok, err}
use capa_x.Ordered.{nat_ord}
use capa_x.IndexMap
use capa_x.Address.{Address}
use capa_x.Scope.{Scope, scope_eq}
use capa_x.Rules.{Rule}
use capa_x.Features.Regex.{RegexCrates}
use capa_x.Engine.FeatureSet.{FeatureSet}
use capa_x.Engine.MatchResult.{MatchResult, EngineError}
use capa_x.Engine.Evaluate.{evaluate}
use capa_x.Engine.Boolean.{evaluate_boolean}
use capa_x.Engine.Namespaces.{index_rule_matches}
use capa_x.Rules.Graph.Termination.{HasOutcome}
use capa_x.Capabilities.Index.{new, activate}
use capa_x.Capabilities.Matching.{
  MatchResults, Matched, match_loop, new_keys, push_result, MatchingRuleSet, match_scope, rule_at,
  Bool,
}
use capa_x.Capabilities.Matching.Exhaustive.{Presents, presented}
use capa_x.Capabilities.Matching.Published.{Adds-index_rule_matches}
use capa_x.Capabilities.Matching.Ready.{
  Ready, Ready-activate, Ready-tail, Ready-candidates, lt_of_Above,
}

module _ (crates : RegexCrates) (rules : List Rule) (at : ℕ → Option Rule) (addr : Address) where
  abbrev loop : ℕ → List ℕ → FeatureSet → MatchResults → Option Matched
  loop = match_loop crates at (new rules) addr

  -- the waiting positions are ahead of their first
  Ready-head :
      (p c : ℕ) (waiting : List ℕ) (fs : FeatureSet)
      → Ready rules p (c ∷ waiting) fs
      → Ready rules c (c ∷ waiting) fs
  Ready-head p c waiting fs r = record {
    sorted = r.sorted;
    low = λ q k. ground (arith, lt_of_Above c q waiting r.sorted.0);
    high = r.high;
    complete = λ q l k. r.complete q (omega (arith, r.low c (ground arith))) k;
  }

  module _ (fuel c : ℕ) (waiting : List ℕ) (fs : FeatureSet) (results : MatchResults)
      (ready : Ready rules c (c ∷ waiting) fs)
      (next : (w : List ℕ) (f : FeatureSet) (r : MatchResults)
        → Ready rules (suc c) w f
        → HasOutcome (loop fuel w f r)) where
    tail_ends : HasOutcome (loop fuel waiting fs results)
    tail_ends = next waiting fs results (Ready-tail rules c waiting fs ready)

    full_ends :
        (rule : Rule) (full : Result EngineError MatchResult)
        → HasOutcome (elim full [
          | err e ↦ some (err e)
          | ok tree ↦
              let published = index_rule_matches fs rule (addr ∷ []) in
              loop fuel
                (activate (new rules) c (new_keys fs published) waiting)
                published
                (push_result rule.name (addr, tree) results)
        ])
    full_ends rule (err e) = tt
    full_ends rule (ok tree) = next _ _ _ (
        Ready-activate rules c waiting fs (index_rule_matches fs rule (addr ∷ []))
          (Adds-index_rule_matches fs rule (addr ∷ [])) ready)

    short_ends :
        (rule : Rule) (short : Result EngineError Bool)
        → HasOutcome (elim short [
          | err e ↦ some (err e)
          | ok false ↦ loop fuel waiting fs results
          | ok true ↦ elim (evaluate crates rule.body fs false) [
            | err e ↦ some (err e)
            | ok tree ↦
                let published = index_rule_matches fs rule (addr ∷ []) in
                loop fuel
                  (activate (new rules) c (new_keys fs published) waiting)
                  published
                  (push_result rule.name (addr, tree) results)
          ]
        ])
    short_ends rule (err e) = tt
    short_ends rule (ok false) = tail_ends
    short_ends rule (ok true) = full_ends rule (evaluate crates rule.body fs false)

    step_ends :
        (found : Option Rule) → at c ≡ found → HasOutcome (loop (suc fuel) (c ∷ waiting) fs results)
    unfolding match_loop
    step_ends none e = rw (e, HasOutcome) tail_ends
    step_ends (some rule) e =
        rw (e, HasOutcome) (short_ends rule (evaluate_boolean crates rule.body fs))

  loop-HasOutcome :
      (fuel p : ℕ) (waiting : List ℕ) (fs : FeatureSet) (results : MatchResults)
      → Ready rules p waiting fs
      → 0 < fuel
      → length rules < p + fuel
      → HasOutcome (loop fuel waiting fs results)
  unfolding match_loop
  loop-HasOutcome zero p waiting fs results r pos lt = absurd (omega arith)
  loop-HasOutcome (suc fuel) p [] fs results r pos lt = tt
  loop-HasOutcome (suc fuel) p (c ∷ waiting) fs results r pos lt =
      step_ends fuel c waiting fs results (Ready-head p c waiting fs r)
        (λ w f q ready.
          loop-HasOutcome fuel (suc c) w f q ready
            (omega (arith, r.low c (ground arith), r.high c (ground arith)))
            (omega (arith, r.low c (ground arith))))
        (at c) refl

-- For a scope whose index is the index of some rules, whatever their bodies are, the matcher ends with
-- its matches or an error when it has more rounds than there are rules.
pub match_scope-HasOutcome :
    (crates : RegexCrates) (set : MatchingRuleSet) (scope : Scope) (rules : List Rule)
    (fs : FeatureSet) (addr : Address) (fuel : ℕ)
    → IndexMap.get scope_eq scope set.indexes ≡ some (new rules)
    → length rules < fuel
    → HasOutcome (match_scope crates fuel set scope fs addr)
unfolding match_scope
match_scope-HasOutcome crates set scope rules fs addr fuel h lt =
    rw (h, HasOutcome)
      (loop-HasOutcome crates rules (rule_at set scope) addr fuel 0 _ fs []
        (Ready-candidates rules fs) (omega arith) (omega arith))

pub match_scope-presented-HasOutcome :
    (crates : RegexCrates) (set : MatchingRuleSet) (scope : Scope) (p : Presents set scope)
    (fs : FeatureSet) (addr : Address) (fuel : ℕ)
    → length (presented p) < fuel
    → HasOutcome (match_scope crates fuel set scope fs addr)
match_scope-presented-HasOutcome crates set scope (inl absent) fs addr fuel lt =
    unfold match_scope in rw (absent, HasOutcome) tt
match_scope-presented-HasOutcome crates set scope (inr here) fs addr fuel lt =
    match_scope-HasOutcome crates set scope here.0 fs addr fuel here.1.indexed lt
