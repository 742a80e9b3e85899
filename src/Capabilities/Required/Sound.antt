-- ===== src/Capabilities/Required/Sound.antt =====
-- A body that holds has one of its required features in the set.
use capa_x.Engine.Meaning.Ranges.{range-meaning}
use capa_x.Prelude.{◌∙◌}
use capa_x.Capabilities.Required.Present.{
  present, any_present, leaf-present, range-present, present_cong,
}
use capa_x.Rules.{NodeList, Node, Statement}
use capa_x.Capabilities.Required.{
  set_insert, some, set_extend, set_contains, NodeList, better, Requirement, required_features,
  not_below, or_required, Node, node, min, Statement, statement_required, and_required,
}
use capa_x.Features.Regex.{RegexCrates}
use capa_x.Prelude.{
  zero, suc, ◌≡◌, Bool, true, List, [], ◌∷◌, arith, ℕ, Option, suc, none, ◌||◌, any-append, ◌<◌,
  Bool-cases, inl, min, inr, subst,
}
use capa_x.Features.{Feature}
use capa_x.Engine.FeatureSet.{FeatureSet}
use capa_x.Engine.Meaning.{holds, any_holds, count_holding, statement_holds, all_hold}

-- an equal feature that is in the set already speaks for one that is not inserted
any_present_of_equal :
    (fs : FeatureSet) (s : List Feature) (f : Feature)
    → set_contains f s ≡ true
    → present fs f ≡ true
    → any_present fs s ≡ true
any_present_of_equal fs [] f h k = cc
any_present_of_equal fs (g ∷ s) f h k =
    ground (arith, any_present_of_equal fs s f, present_cong fs f g)

any_present-set_insert :
    (fs : FeatureSet) (s : List Feature) (f : Feature)
    → (any_present fs s || present fs f) ≡ true
    → any_present fs (set_insert s f) ≡ true
unfolding set_insert
any_present-set_insert fs s f h =
    ground (arith, any_present_of_equal fs s f, any-append (present fs) s (f ∷ []))

any_present-set_extend :
    (fs : FeatureSet) (s t : List Feature)
    → (any_present fs s || any_present fs t) ≡ true
    → any_present fs (set_extend s t) ≡ true
unfolding set_extend
any_present-set_extend fs s [] h = ground arith
any_present-set_extend fs s (f ∷ t) h =
    any_present-set_extend fs (set_insert s f) t (ground (arith, any_present-set_insert fs s f))

-- one of the alternatives, if there are any, is present
abbrev pub Supported : FeatureSet → Option Requirement → Type 0
Supported fs none = Unit
Supported fs (some r) = any_present fs r.1 ≡ true

better-Supported :
    (fs : FeatureSet) (best r : Option Requirement)
    → Supported fs best
    → Supported fs r
    → Supported fs (better best r)
unfolding better
better-Supported fs best none h k = h
better-Supported fs none (some r) h k = k
better-Supported fs (some b) (some r) h k = elim (Bool-cases (not_below r b)) [
  | inl e ↦ rw e k
  | inr e ↦ rw e h
]

-- a positive number of children that hold
any_of_count :
    (crates : RegexCrates) (fs : FeatureSet) (cs : NodeList)
    → 0 < count_holding crates fs cs
    → any_holds crates fs cs ≡ true
unfolding holds
any_of_count crates fs NodeList.nil h = absurd (omega arith)
any_of_count crates fs (NodeList.cons c cs) h = ground (arith, any_of_count crates fs cs)

or_step :
    (crates : RegexCrates) (fs : FeatureSet) (score : ℕ) (alternatives : List Feature)
    (cs : NodeList) (r : Option Requirement) (first : Bool)
    → ((first || any_holds crates fs cs) || any_present fs alternatives) ≡ true
    → (first ≡ true → Supported fs r)
    → ((s : ℕ) (a : List Feature)
        → (any_holds crates fs cs || any_present fs a) ≡ true
        → Supported fs (or_required cs s a))
    → Supported fs (elim r [
      | none ↦ none
      | some (child_score, features) ↦
          or_required cs (min score child_score) (set_extend alternatives features)
    ])
or_step crates fs score alternatives cs none first h k rest = tt
or_step crates fs score alternatives cs (some (t, features)) first h k rest =
    rest (min score t) (set_extend alternatives features)
      (ground (arith, k, any_present-set_extend fs alternatives features))

module _ (crates : RegexCrates) (fs : FeatureSet) where
  mutual
    unfolding holds required_features

    pub node-Supported : (n : Node) → holds crates fs n ≡ true → Supported fs (required_features n)
    node-Supported (node stmt d) h = statement-Supported stmt h

    statement-Supported :
        (stmt : Statement)
        → statement_holds crates fs stmt ≡ true
        → Supported fs (statement_required stmt)
    statement-Supported (Statement.not child) h = tt
    statement-Supported (Statement.some_of zero cs) h = tt
    statement-Supported (Statement.range feature zero max) h = tt
    statement-Supported (Statement.subscope scope body) h = tt
    statement-Supported (Statement.leaf feature) h =
        ground (arith, leaf-present crates fs feature h)
    statement-Supported (Statement.range feature (suc low) max) h =
        ground
          (arith, range-present fs feature low max (range-meaning feature (suc low) max fs ∙ h))
    statement-Supported (Statement.and cs) h = and-Supported cs none h tt
    statement-Supported (Statement.or cs) h = or-Supported cs 255 [] (ground arith)
    statement-Supported (Statement.some_of (suc count) cs) h =
        or-Supported cs 255 [] (ground (arith, any_of_count crates fs cs))

    and-Supported :
        (cs : NodeList) (best : Option Requirement)
        → all_hold crates fs cs ≡ true
        → Supported fs best
        → Supported fs (and_required cs best)
    and-Supported NodeList.nil best h k = k
    and-Supported (NodeList.cons c cs) best h k =
        and-Supported cs (better best (required_features c)) (ground arith)
          (better-Supported fs best (required_features c) k (node-Supported c (ground arith)))

    or-Supported :
        (cs : NodeList) (score : ℕ) (alternatives : List Feature)
        → (any_holds crates fs cs || any_present fs alternatives) ≡ true
        → Supported fs (or_required cs score alternatives)
    or-Supported NodeList.nil score alternatives h = h
    or-Supported (NodeList.cons c cs) score alternatives h =
        or_step crates fs score alternatives cs (required_features c) (holds crates fs c) h
          (λ e. node-Supported c e) (λ s a k. or-Supported cs s a k)

-- A body that holds of a feature set has one of its required features present in it, where it has
-- required features at all.
pub any_present-required_features :
    (crates : RegexCrates) (fs : FeatureSet) (n : Node) (score : ℕ) (alternatives : List Feature)
    → required_features n ≡ some (score, alternatives)
    → holds crates fs n ≡ true
    → any_present fs alternatives ≡ true
any_present-required_features crates fs n score alternatives h k =
    subst (Supported fs) h (node-Supported crates fs n k)
