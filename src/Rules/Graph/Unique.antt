-- ===== src/Rules/Graph/Unique.antt =====
-- What the checks of capa-x/src/rules/graph.rs accept: rules of distinct names that depend on one
-- another only.
use capa_x.Prelude.{
  ℕ, ◌+◌, ◌≤◌, ◌≡◌, ◌≢◌, refl, sym, ap, ◌∙◌, ◌⊎◌, inl, inr, Bool, true, false, ◌||◌, String, Option,
  some, List, [], ◌∷◌, arith, any-append, All, str_eq, str_eq_iff, Bool-cases,
}
use capa_x.Prelude.Result.{Result, ok, err, bind-ok}
use capa_x.Rules.{Rule}
use capa_x.Rules.Error.{RuleError, invalid, duplicate_rule_name}
use capa_x.Rules.Graph.{
  Namespaces, RuleSet, name_in, add_name, names_of, unique_from, ensure_rules_are_unique, all_known,
  dependencies_met, ensure_rule_dependencies_are_met, sorted_dependencies, not_empty, new,
  index_rules_by_namespace,
}
use capa_x.Rules.Graph.Order.{str_eq_sym}

abbrev one_if : Bool → ℕ
one_if true = 1
one_if false = 0

-- how many rules have the name
abbrev pub count : String → List Rule → ℕ
count name [] = 0
count name (r ∷ rules) = one_if (str_eq name r.name) + count name rules

abbrev pub IsUnique : List Rule → Type 0
IsUnique [] = Unit
IsUnique (r ∷ rules) = (name_in r.name (names_of rules) ≡ false) × IsUnique rules

-- no rule has a name that has been seen
abbrev AreOutside : List String → List Rule → Type 0
AreOutside seen rules = All (λ r. name_in r.name seen ≡ false) rules

name_in-add_name :
    (m n : String) (seen : List String)
    → name_in m (add_name seen n) ≡ (name_in m seen || str_eq m n)
unfolding add_name
name_in-add_name m n seen = elim (Bool-cases (name_in n seen)) [
  | inl e ↦ rw e (elim (Bool-cases (str_eq m n)) [
    | inl k ↦
        let there : name_in m seen ≡ true = ap (λ t. name_in t seen) ((str_eq_iff m n).0 k) ∙ e in
        ground arith
    | inr k ↦ rw k (ground arith)
  ])
  | inr e ↦ rw e (any-append (str_eq m) seen (n ∷ []) ∙ ground arith)
]

AreOutside-before :
    (seen : List String) (n : String) (rules : List Rule)
    → AreOutside (add_name seen n) rules
    → AreOutside seen rules × (name_in n (names_of rules) ≡ false)
AreOutside-before seen n [] h = (tt, refl)
AreOutside-before seen n (r ∷ rules) h =
    let rest = AreOutside-before seen n rules h.1 in
    let here = name_in-add_name r.name n seen in
    ((ground (arith, h.0), rest.0), ground (arith, h.0, rest.1, str_eq_sym n r.name))

-- the two outcomes of the check, for names that have been seen before
abbrev Outcome : List Rule → List String → Type 0
Outcome rules seen =
    ((unique_from rules seen ≡ ok tt) × (IsUnique rules × AreOutside seen rules))
    ⊎ ((name : String) × ((unique_from rules seen ≡ err (invalid (duplicate_rule_name name)))
          × (2 ≤ count name rules + one_if (name_in name seen))))

Outcome-step :
    (r : Rule) (rules : List Rule) (seen : List String)
    → name_in r.name seen ≡ false
    → Outcome rules (add_name seen r.name)
    → Outcome (r ∷ rules) seen
unfolding unique_from
Outcome-step r rules seen e (inl (k, (unique, outside))) =
    let before = AreOutside-before seen r.name rules outside in
    inl (rw e k, ((before.1, unique), (e, before.0)))
Outcome-step r rules seen e (inr (name, (k, twice))) =
    inr (name, (rw e k, ground (arith, name_in-add_name name r.name seen)))

unique_from-Outcome : (rules : List Rule) (seen : List String) → Outcome rules seen
unfolding unique_from
unique_from-Outcome [] seen = inl (refl, (tt, tt))
unique_from-Outcome (r ∷ rules) seen = elim (Bool-cases (name_in r.name seen)) [
  | inl e ↦ inr (r.name, (rw e refl, ground (arith, (str_eq_iff r.name r.name).1 refl)))
  | inr e ↦ Outcome-step r rules seen e (unique_from-Outcome rules (add_name seen r.name))
]

-- The check accepts the rules, and then their names are distinct, or it reports a name, and then two
-- rules at least have that name.
pub ensure_rules_are_unique-IsUnique :
    (rules : List Rule)
    → ((ensure_rules_are_unique rules ≡ ok tt) × IsUnique rules)
      ⊎ ((name : String) × ((ensure_rules_are_unique rules
              ≡ err (invalid (duplicate_rule_name name)))
            × (2 ≤ count name rules)))
unfolding ensure_rules_are_unique
ensure_rules_are_unique-IsUnique rules = elim (unique_from-Outcome rules []) [
  | inl h ↦ inl (h.0, h.1.0)
  | inr h ↦ inr (h.0, (h.1.0, omega (arith, h.1.1)))
]

-- every dependency is the name of a rule
abbrev pub IsClosed : List String → Namespaces → List Rule → Type 0
IsClosed known namespaces rules =
    All (λ rule. All (λ dep. name_in dep known ≡ true) (sorted_dependencies namespaces rule)) rules

all_known-All :
    (known : List String) (name : String) (deps : List String)
    → all_known known name deps ≡ ok tt
    → All (λ dep. name_in dep known ≡ true) deps
unfolding all_known
all_known-All known name [] h = tt
all_known-All known name (dep ∷ deps) h = elim (Bool-cases (name_in dep known)) [
  | inl e ↦ (e, all_known-All known name deps (rw e at h))
  | inr e ↦ let wrong = rw e at h in cc
]

dependencies_met-IsClosed :
    (known : List String) (namespaces : Namespaces) (rules : List Rule)
    → dependencies_met known namespaces rules ≡ ok tt
    → IsClosed known namespaces rules
unfolding dependencies_met
dependencies_met-IsClosed known namespaces [] h = tt
dependencies_met-IsClosed known namespaces (rule ∷ rules) h =
    let v = bind-ok (all_known known rule.name (sorted_dependencies namespaces rule)) _ tt h in
    (
      all_known-All known rule.name (sorted_dependencies namespaces rule) v.1.0,
      dependencies_met-IsClosed known namespaces rules v.1.1,
    )

IsClosed-ensure_rule_dependencies_are_met :
    (rules : List Rule)
    → ensure_rule_dependencies_are_met rules (index_rules_by_namespace rules) ≡ ok tt
    → IsClosed (names_of rules) (index_rules_by_namespace rules) rules
IsClosed-ensure_rule_dependencies_are_met rules h =
    dependencies_met-IsClosed (names_of rules) (index_rules_by_namespace rules) rules
      (unfold ensure_rule_dependencies_are_met in h)

IsUnique-ensure_rules_are_unique :
    (rules : List Rule) → ensure_rules_are_unique rules ≡ ok tt → IsUnique rules
IsUnique-ensure_rules_are_unique rules h = elim (ensure_rules_are_unique-IsUnique rules) [
  | inl k ↦ k.1
  | inr k ↦ absurd (let wrong = sym h ∙ k.1.0 in cc)
]

not_empty_of_ok : (rules : List Rule) → not_empty rules ≡ ok tt → rules ≢ []
not_empty_of_ok [] h = cc
not_empty_of_ok (r ∷ rules) h = λ e. cc

-- a result behind the checks has passed them
passed :
    (checks : Result RuleError (Unit {0})) (next : Option (Result RuleError RuleSet))
    (set : RuleSet)
    → elim checks [ err e ↦ some (err e) | ok u ↦ next ] ≡ some (ok set)
    → checks ≡ ok tt
passed (ok u) next set h = refl
passed (err e) next set h = cc

-- A set of rules that `RuleSet::new` accepts has distinct names, is not empty, and depends on
-- nothing but its rules.
pub new-IsClosed :
    (fuel : ℕ) (rules : List Rule) (set : RuleSet)
    → new fuel rules ≡ some (ok set)
    → IsUnique rules
      × ((rules ≢ []) × IsClosed (names_of rules) (index_rules_by_namespace rules) rules)
unfolding new
new-IsClosed fuel rules set h =
    let checks = passed _ _ set h in
    let unique = bind-ok (ensure_rules_are_unique rules) _ tt checks in
    let filled = bind-ok (not_empty rules) _ tt unique.1.1 in
    (
      IsUnique-ensure_rules_are_unique rules unique.1.0,
      (
        not_empty_of_ok rules filled.1.0,
        IsClosed-ensure_rule_dependencies_are_met rules filled.1.1,
      ),
    )
