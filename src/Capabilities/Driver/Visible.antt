-- ===== src/Capabilities/Driver/Visible.antt =====
-- What a scope's matches and features become in the feature sets of the scopes around it.
use capa_x.Prelude.{
  ◌≡◌, Bool, true, ◌&&◌, ◌||◌, String, Option, none, some, List, [], ◌∷◌, arith, any,
}
use capa_x.SortedSet.{contains, is_eq}
use capa_x.Address.{Address, no_address, cmp}
use capa_x.Address.Order.{address_ord}
use capa_x.Features.{Feature, feature_eq, matched_rule}
use capa_x.Rules.{Rule}
use capa_x.Engine.FeatureSet.{FeatureSet, insert, insert_many}
use capa_x.Engine.FeatureSet.Has.{has, has-insert, has-insert_many}
use capa_x.Engine.MatchResult.{MatchResult}
use capa_x.Engine.Namespaces.{index_rule_matches, insert_all, published}
use capa_x.Freeze.{Located}
use capa_x.Capabilities.Matching.{MatchResults}
use capa_x.Capabilities.Matcher.{Matcher}
use capa_x.Capabilities.Driver.{
  seed, insert_located, insert_global, promote_matches, promote_rule, promote_hits, index_matches,
  index_rule, hit_addresses,
}

module _ (f : Feature) (loc : Address) where
  -- a feature is located somewhere in a list
  abbrev pub is_located : Located → Bool
  is_located features = any (λ p. feature_eq p.1 f && is_eq (cmp loc p.0)) features

  abbrev pub is_global : List Feature → Bool
  is_global features = any (λ g. feature_eq g f && is_eq (cmp loc no_address)) features

  has-insert_located :
      (fs : FeatureSet) (features : Located)
      → has f loc (insert_located fs features) ≡ (has f loc fs || is_located features)
  has-insert_located fs [] = ground arith
  has-insert_located fs ((addr, g) ∷ features) =
      ground (arith, has-insert_located (insert fs g addr) features, has-insert f loc fs g addr)

  has-insert_global :
      (fs : FeatureSet) (features : List Feature)
      → has f loc (insert_global fs features) ≡ (has f loc fs || is_global features)
  has-insert_global fs [] = ground arith
  has-insert_global fs (g ∷ features) =
      ground (
        arith,
        has-insert_global (insert fs g no_address) features,
        has-insert f loc fs g no_address,
      )

  -- A seeded set has what it had, the features at their addresses and the global ones at none.
  pub has-seed :
      (fs : FeatureSet) (features : Located) (global_features : List Feature)
      → has f loc (seed fs features global_features)
        ≡ (has f loc fs || (is_located features || is_global global_features))
  unfolding seed
  has-seed fs features global_features = ground (
    arith,
    has-insert_global (insert_located fs features) global_features,
    has-insert_located fs features,
  )

  -- one of the names that a rule is published under
  abbrev is_published : List String → Bool
  is_published names = any (λ name. feature_eq (matched_rule name) f) names

  has-insert_all :
      (fs : FeatureSet) (names : List String) (locs : List Address)
      → has f loc (insert_all fs names locs)
        ≡ (has f loc fs || (is_published names && contains loc locs))
  unfolding insert_all
  has-insert_all fs [] locs = ground arith
  has-insert_all fs (name ∷ names) locs = ground (
    arith,
    has-insert_all (insert_many fs (matched_rule name) locs) names locs,
    has-insert_many f loc fs (matched_rule name) locs,
  )

  pub has-index_rule_matches :
      (fs : FeatureSet) (rule : Rule) (locs : List Address)
      → has f loc (index_rule_matches fs rule locs)
        ≡ (has f loc fs || (is_published (published rule) && contains loc locs))
  unfolding index_rule_matches
  has-index_rule_matches fs rule locs = has-insert_all fs (published rule) locs

  promote_hits-has :
      (fs : FeatureSet) (rule : Rule) (hits : List (Address × MatchResult))
      → has f loc fs ≡ true
      → has f loc (promote_hits fs rule hits) ≡ true
  promote_hits-has fs rule [] h = h
  promote_hits-has fs rule ((addr, r) ∷ hits) h =
      promote_hits-has (index_rule_matches fs rule (addr ∷ [])) rule hits
        (ground (arith, has-index_rule_matches fs rule (addr ∷ [])))

  module _ (rule_set : Matcher) where
    promote_rule-has :
        (fs : FeatureSet) (found : Option Rule) (hits : List (Address × MatchResult))
        → has f loc fs ≡ true
        → has f loc (promote_rule fs found hits) ≡ true
    promote_rule-has fs none hits h = h
    promote_rule-has fs (some rule) hits h = promote_hits-has fs rule hits h

    -- Promoting matches removes nothing.
    pub promote_matches-has :
        (fs : FeatureSet) (matches : MatchResults)
        → has f loc fs ≡ true
        → has f loc (promote_matches rule_set fs matches) ≡ true
    unfolding promote_matches
    promote_matches-has fs [] h = h
    promote_matches-has fs ((name, res) ∷ matches) h =
        promote_matches-has (promote_rule fs (rule_set.get name) res) matches
          (promote_rule-has fs (rule_set.get name) res h)

    index_rule-has :
        (fs : FeatureSet) (found : Option Rule) (hits : List (Address × MatchResult))
        → has f loc fs ≡ true
        → has f loc (index_rule fs found hits) ≡ true
    index_rule-has fs none hits h = h
    index_rule-has fs (some rule) hits h =
        ground (arith, has-index_rule_matches fs rule (hit_addresses hits))

    pub index_matches-has :
        (fs : FeatureSet) (matches : MatchResults)
        → has f loc fs ≡ true
        → has f loc (index_matches rule_set fs matches) ≡ true
    unfolding index_matches
    index_matches-has fs [] h = h
    index_matches-has fs ((name, res) ∷ matches) h =
        index_matches-has (index_rule fs (rule_set.get name) res) matches
          (index_rule-has fs (rule_set.get name) res h)
