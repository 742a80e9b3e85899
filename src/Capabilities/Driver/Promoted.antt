-- ===== src/Capabilities/Driver/Promoted.antt =====
-- The loop over all matches below the file, in capa-x/src/capabilities/static_analysis.rs and
-- dynamic_analysis.rs, publishes every match.
use capa_x.Prelude.{
  ◌≡◌, refl, sym, ap, ◌∙◌, Bool, true, false, ◌&&◌, ◌||◌, String, some, List, [], ◌∷◌, arith, any,
  map, Bool-cases, inl, inr, str_eq, str_eq_iff,
}
use capa_x.SortedSet.{contains, is_eq, contains-extend}
use capa_x.Address.{Address, cmp}
use capa_x.Address.Order.{address_ord}
use capa_x.Features.{Feature, feature_eq, matched_rule}
use capa_x.Rules.{Rule}
use capa_x.Engine.FeatureSet.{FeatureSet}
use capa_x.Engine.FeatureSet.Has.{has, has-merge}
use capa_x.Engine.MatchResult.{MatchResult}
use capa_x.Engine.Namespaces.{published}
use capa_x.Freeze.{Located}
use capa_x.Capabilities.Matching.{MatchResults}
use capa_x.Capabilities.Matcher.{Matcher}
use capa_x.Capabilities.Driver.{index_matches, index_rule, hit_addresses, file_features_of}
use capa_x.Capabilities.Driver.Visible.{has-index_rule_matches, index_matches-has}

abbrev pub hit_at : Address → List (Address × MatchResult) → Bool
hit_at addr hits = any (λ hit. is_eq (cmp addr hit.0)) hits

-- a rule of this name has matched at the address
abbrev pub is_hit : String → Address → MatchResults → Bool
is_hit name addr [] = false
is_hit name addr ((n, hits) ∷ matches) =
    (str_eq name n && hit_at addr hits) || is_hit name addr matches

-- a match of the rule is seen as this feature: of its name, its namespace, or a prefix of that
abbrev pub is_published_as : Rule → Feature → Bool
is_published_as rule f = any (λ name. feature_eq (matched_rule name) f) (published rule)

contains-addresses :
    (addr : Address) (hits : List (Address × MatchResult))
    → contains addr (map (λ hit. hit.0) hits) ≡ hit_at addr hits
contains-addresses addr [] = refl
contains-addresses addr ((a, r) ∷ hits) = ground (arith, contains-addresses addr hits)

contains-hit_addresses :
    (addr : Address) (hits : List (Address × MatchResult))
    → contains addr (hit_addresses hits) ≡ hit_at addr hits
contains-hit_addresses addr hits =
    contains-extend addr [] (map (λ hit. hit.0) hits) ∙ contains-addresses addr hits

module _ (rule_set : Matcher) (name : String) (rule : Rule) (f : Feature) (addr : Address)
    (known : rule_set.get name ≡ some rule) (seen : is_published_as rule f ≡ true) where
  index_rule-hit :
      (fs : FeatureSet) (n : String) (hits : List (Address × MatchResult))
      → str_eq name n ≡ true
      → hit_at addr hits ≡ true
      → has f addr (index_rule fs (rule_set.get n) hits) ≡ true
  index_rule-hit fs n hits e h =
      let same : rule_set.get n ≡ some rule =
        ap rule_set.get (sym ((str_eq_iff name n).0 e)) ∙ known in
      rw (same, index_rule)
        (ground (
          arith,
          has-index_rule_matches f addr fs rule (hit_addresses hits),
          contains-hit_addresses addr hits,
        ))

  index_matches-hit :
      (fs : FeatureSet) (matches : MatchResults)
      → is_hit name addr matches ≡ true
      → has f addr (index_matches rule_set fs matches) ≡ true
  unfolding index_matches
  index_matches-hit fs [] h = cc
  index_matches-hit fs ((n, hits) ∷ matches) h =
      elim (Bool-cases (str_eq name n && hit_at addr hits)) [
        | inl e ↦
            index_matches-has f addr rule_set (index_rule fs (rule_set.get n) hits) matches
              (index_rule-hit fs n hits (ground arith) (ground arith))
        | inr e ↦ index_matches-hit (index_rule fs (rule_set.get n) hits) matches (ground arith)
      ]

  -- what was there stays, and every match is added
  pub index_matches-visible :
      (fs : FeatureSet) (matches : MatchResults)
      → (has f addr fs || is_hit name addr matches) ≡ true
      → has f addr (index_matches rule_set fs matches) ≡ true
  index_matches-visible fs matches h = elim (Bool-cases (has f addr fs)) [
    | inl e ↦ index_matches-has f addr rule_set fs matches e
    | inr e ↦ index_matches-hit fs matches (ground arith)
  ]

  -- What is below the file is in what the file's rules are matched against.
  pub file_features_of-lower :
      (features : Located) (global_features : List Feature) (lower : FeatureSet)
      → has f addr lower ≡ true
      → has f addr (file_features_of rule_set features global_features lower) ≡ true
  unfolding file_features_of
  file_features_of-lower features global_features lower h = has-merge f addr _ lower ∙ ground arith
