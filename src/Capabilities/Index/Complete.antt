-- ===== src/Capabilities/Index/Complete.antt =====
-- Every rule stands in the buckets of its required features.
use capa_x.Capabilities.Index.Buckets.{
  Extends, AllListed, register_all-Listed, contains-append, changed_always, AllListed-Extends,
  Extends-refl, register_all-Extends, Extends-trans,
}
use capa_x.Rules.{Node, Rule}
use capa_x.Capabilities.Required.{Requirement, required_features}
use capa_x.Prelude.{
  zero, suc, subst, ℕ, ◌≡◌, ◌∙◌, true, Option, none, some, List, [], ◌∷◌, ◌++◌, arith, suc,
  get_elem?, ◌+◌,
}
use capa_x.Ordered.{nat_ord}
use capa_x.SortedSet.{contains}
use capa_x.Capabilities.Index.{
  add_requirement, add_body, RuleFeatureIndex, Node, add_body, add_rules, required_features, Rule,
  suc, new, empty_index,
}

abbrev pub ByRequirement : RuleFeatureIndex → ℕ → Option Requirement → Type 0
ByRequirement index p none = contains p index.always ≡ true
ByRequirement index p (some r) = AllListed index p r.1

-- The rule with this body at this position is where the index looks for it.
abbrev pub Registered : RuleFeatureIndex → ℕ → Node → Type 0
Registered index p body = ByRequirement index p (required_features body)

ByRequirement-Extends :
    (a b : RuleFeatureIndex) (p : ℕ) (r : Option Requirement)
    → Extends a b
    → ByRequirement a p r
    → ByRequirement b p r
ByRequirement-Extends a b p none e h = e.always p h
ByRequirement-Extends a b p (some r) e h = AllListed-Extends a b p r.1 e h

always_keeps :
    (p : ℕ) (xs : List ℕ) (q : ℕ) → contains q xs ≡ true → contains q (xs ++ p ∷ []) ≡ true
always_keeps p xs q h = contains-append q xs (p ∷ []) ∙ ground arith

always_adds : (p : ℕ) (xs : List ℕ) → contains p (xs ++ p ∷ []) ≡ true
always_adds p xs = contains-append p xs (p ∷ []) ∙ ground arith

add_requirement-Extends :
    (index : RuleFeatureIndex) (p : ℕ) (r : Option Requirement)
    → Extends index (add_requirement index p r)
unfolding add_requirement
add_requirement-Extends index p none = changed_always index _ (always_keeps p index.always)
add_requirement-Extends index p (some r) = register_all-Extends index p r.1

add_requirement-ByRequirement :
    (index : RuleFeatureIndex) (p : ℕ) (r : Option Requirement)
    → ByRequirement (add_requirement index p r) p r
unfolding add_requirement
add_requirement-ByRequirement index p none = always_adds p index.always
add_requirement-ByRequirement index p (some r) = register_all-Listed index p r.1

add_rules-Extends :
    (index : RuleFeatureIndex) (p : ℕ) (rules : List Rule) → Extends index (add_rules index p rules)
unfolding add_rules
add_rules-Extends index p [] = Extends-refl index
add_rules-Extends index p (rule ∷ rules) =
    Extends-trans _ _ _ (add_requirement-Extends index p (required_features rule.body))
      (add_rules-Extends (add_body index p rule.body) (suc p) rules)

add_rules-Registered :
    (index : RuleFeatureIndex) (p : ℕ) (rules : List Rule) (i : ℕ) (rule : Rule)
    → get_elem? rules i ≡ some rule
    → Registered (add_rules index p rules) (p + i) rule.body
unfolding add_rules
add_rules-Registered index p [] i rule h = cc
add_rules-Registered index p (r ∷ rules) zero rule h =
    let e : r ≡ rule = cc in
    subst (λ x. Registered (add_rules index p (r ∷ rules)) (p + 0) x.body) e
      (subst (λ n. Registered (add_rules index p (r ∷ rules)) n r.body) (omega arith)
        (ByRequirement-Extends _ _ p (required_features r.body)
          (add_rules-Extends (add_body index p r.body) (suc p) rules)
          (add_requirement-ByRequirement index p (required_features r.body))))
add_rules-Registered index p (r ∷ rules) (suc i) rule h =
    subst (λ n. Registered (add_rules index p (r ∷ rules)) n rule.body) (omega arith)
      (add_rules-Registered (add_body index p r.body) (suc p) rules i rule h)

pub new-Registered :
    (rules : List Rule) (i : ℕ) (rule : Rule)
    → get_elem? rules i ≡ some rule
    → Registered (new rules) i rule.body
unfolding new
new-Registered rules i rule h =
    subst (λ n. Registered (new rules) n rule.body) (omega arith)
      (add_rules-Registered empty_index 0 rules i rule h)
