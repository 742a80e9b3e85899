-- ===== src/Capabilities/Driver/Hits.antt =====
-- The hits that `extend_matches` of capa-x/src/capabilities/static_analysis.rs and
-- dynamic_analysis.rs puts together.
use capa_x.Prelude.{
  ◌≡◌, ap, Bool, false, ◌&&◌, ◌||◌, String, List, [], ◌∷◌, ◌++◌, arith, any-append, Bool-cases, inl,
  inr, str_eq, str_eq_iff,
}
use capa_x.Prelude.Result.{Result, ok, err}
use capa_x.IndexMap
use capa_x.Address.{Address, cmp}
use capa_x.Address.Order.{address_ord}
use capa_x.SortedSet.{is_eq}
use capa_x.Engine.MatchResult.{MatchResult, EngineError}
use capa_x.Capabilities.Matching.{MatchResults}
use capa_x.Capabilities.Driver.{extend_matches}
use capa_x.Capabilities.Driver.Promoted.{is_hit, hit_at}

-- the outcome of a match is one with a hit of the rule at the address
abbrev pub finds : String → Address → Result EngineError MatchResults → Bool
finds name addr (ok matches) = is_hit name addr matches
finds name addr (err e) = false

-- what is found with the features that a walk ends with
abbrev pub finds_after {ℓ} : {A : Type ℓ} → Result EngineError A → (A → Bool) → Bool
finds_after (ok a) test = test a
finds_after (err e) test = false

module _ (name : String) (addr : Address) where
  is_hit-entry :
      (n : String) (hits : List (Address × MatchResult)) (into : MatchResults)
      → is_hit name addr (IndexMap.entry str_eq n hits (λ old. old ++ hits) into)
        ≡ (is_hit name addr into || (str_eq name n && hit_at addr hits))
  unfolding IndexMap.entry
  is_hit-entry n hits [] = ground arith
  is_hit-entry n hits ((j, old) ∷ into) = elim (Bool-cases (str_eq j n)) [
    | inl e ↦
        let same : str_eq name j ≡ str_eq name n = ap (str_eq name) ((str_eq_iff j n).0 e) in
        rw e (ground (arith, any-append (λ hit. is_eq (cmp addr hit.0)) old hits))
    | inr e ↦ rw e (ground (arith, is_hit-entry n hits into))
  ]

  -- A hit of either is one of both, and no other is.
  pub is_hit-extend_matches :
      (into from : MatchResults)
      → is_hit name addr (extend_matches into from)
        ≡ (is_hit name addr into || is_hit name addr from)
  unfolding extend_matches
  is_hit-extend_matches into [] = ground arith
  is_hit-extend_matches into ((n, hits) ∷ from) = ground (
    arith,
    is_hit-extend_matches (IndexMap.entry str_eq n hits (λ old. old ++ hits) into) from,
    is_hit-entry n hits into,
  )
