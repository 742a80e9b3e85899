-- ===== src/Capabilities/Index/Bounds.antt =====
-- The positions in the buckets are positions of rules.
use mathlib.Core.Option.{Option, none, some}
use capa_x.Prelude.{
  ℕ, suc, ◌+◌, ◌<◌, ◌≡◌, inl, inr, true, List, [], ◌∷◌, ◌++◌, arith, Bool-cases, length,
}
use capa_x.Ordered.{nat_ord}
use capa_x.SortedSet.{contains}
use capa_x.Features.{Feature, plain, substring, regex, string, feature_eq}
use capa_x.Rules.{Rule}
use capa_x.Capabilities.Required.{Requirement, required_features}
use capa_x.Capabilities.Index.{
  register_exact, RuleFeatureIndex, exact_positions, register, register_all, add_requirement,
  add_rules, new, push_new, empty_index, add_body,
}
use capa_x.Capabilities.Index.Buckets.{contains-append, contains-push_new, exact_entry}
use capa_x.Capabilities.Index.Candidates.{hit, led_by}

abbrev Below : ℕ → List ℕ → Type 0
Below n xs = (q : ℕ) → contains q xs ≡ true → q < n

record IsBounded (n : ℕ) (index : RuleFeatureIndex) : Type 0 where
  exact : (k : Feature) → Below n (exact_positions index k)
  strings : Below n index.strings
  bytes : Below n index.bytes
  os : Below n index.os
  always : Below n index.always

Below-push_new : (n p : ℕ) (xs : List ℕ) → p < n → Below n xs → Below n (push_new p xs)
Below-push_new n p xs lt h q c = ground (arith, contains-push_new q p xs, h q)

Below-snoc : (n p : ℕ) (xs : List ℕ) → p < n → Below n xs → Below n (xs ++ p ∷ [])
Below-snoc n p xs lt h q c = ground (arith, contains-append q xs (p ∷ []), h q)

Below-entry :
    (n p : ℕ) (index : RuleFeatureIndex) (f k : Feature)
    → p < n
    → Below n (exact_positions index k)
    → Below n (exact_positions (register_exact index p f) k)
Below-entry n p index f k lt h = rw (exact_entry index p f k) (elim (Bool-cases (feature_eq f k)) [
  | inl e ↦ rw e (Below-push_new n p (exact_positions index k) lt h)
  | inr e ↦ rw e h
])

module _ (n p : ℕ) (index : RuleFeatureIndex) (lt : p < n) (h : IsBounded n index) where
  register_strings-IsBounded : IsBounded n (record index { strings = push_new p index.strings })
  register_strings-IsBounded = record {
    exact = h.exact;
    strings = Below-push_new n p index.strings lt h.strings;
    bytes = h.bytes;
    os = h.os;
    always = h.always;
  }

  register-IsBounded : (f : Feature) → IsBounded n (register index p f)
  unfolding register
  register-IsBounded (string (plain s)) = exact_case (string (plain s))
    where
      exact_case : (f : Feature) → IsBounded n (register_exact index p f)
      exact_case f = record {
        exact = λ k. Below-entry n p index f k lt (h.exact k);
        strings = h.strings;
        bytes = h.bytes;
        os = h.os;
        always = h.always;
      }
  register-IsBounded (string (substring s)) = register_strings-IsBounded
  register-IsBounded (string (regex re)) = register_strings-IsBounded
  register-IsBounded (Feature.bytes b) = record {
    exact = h.exact;
    strings = h.strings;
    bytes = Below-push_new n p index.bytes lt h.bytes;
    os = h.os;
    always = h.always;
  }
  register-IsBounded (Feature.os s) = record {
    exact = h.exact;
    strings = h.strings;
    bytes = h.bytes;
    os = Below-push_new n p index.os lt h.os;
    always = h.always;
  }
  register-IsBounded f = record {
    exact = λ k. Below-entry n p index f k lt (h.exact k);
    strings = h.strings;
    bytes = h.bytes;
    os = h.os;
    always = h.always;
  }

register_all-IsBounded :
    (n p : ℕ) (index : RuleFeatureIndex) (fs : List Feature)
    → p < n
    → IsBounded n index
    → IsBounded n (register_all index p fs)
unfolding register_all
register_all-IsBounded n p index [] lt h = h
register_all-IsBounded n p index (f ∷ fs) lt h =
    register_all-IsBounded n p (register index p f) fs lt (register-IsBounded n p index lt h f)

add_requirement-IsBounded :
    (n p : ℕ) (index : RuleFeatureIndex) (r : Option Requirement)
    → p < n
    → IsBounded n index
    → IsBounded n (add_requirement index p r)
unfolding add_requirement
add_requirement-IsBounded n p index none lt h = record {
  exact = h.exact;
  strings = h.strings;
  bytes = h.bytes;
  os = h.os;
  always = Below-snoc n p index.always lt h.always;
}
add_requirement-IsBounded n p index (some r) lt h = register_all-IsBounded n p index r.1 lt h

add_rules-IsBounded :
    (n p : ℕ) (index : RuleFeatureIndex) (rules : List Rule)
    → p + length rules ≡ n
    → IsBounded n index
    → IsBounded n (add_rules index p rules)
unfolding add_rules
add_rules-IsBounded n p index [] e h = h
add_rules-IsBounded n p index (r ∷ rules) e h =
    add_rules-IsBounded n (suc p) (add_body index p r.body) rules (omega arith)
      (add_requirement-IsBounded n p index (required_features r.body) (omega arith) h)

new-IsBounded : (rules : List Rule) → IsBounded (length rules) (new rules)
unfolding new
new-IsBounded rules = add_rules-IsBounded (length rules) 0 empty_index rules (omega arith) (record {
  exact = λ k q c. cc;
  strings = λ q c. cc;
  bytes = λ q c. cc;
  os = λ q c. cc;
  always = λ q c. cc;
})

led_by-lt :
    (n : ℕ) (index : RuleFeatureIndex) (q : ℕ) (keys : List Feature)
    → IsBounded n index
    → led_by index q keys ≡ true
    → q < n
led_by-lt n index q [] h c = cc
led_by-lt n index q (k ∷ keys) h c = elim (Bool-cases (contains q (exact_positions index k))) [
  | inl e ↦ h.exact k q e
  | inr e ↦ led_by-lt n index q keys h (rw e at c)
]

hit-lt :
    (n : ℕ) (index : RuleFeatureIndex) (q : ℕ) (keys : List Feature)
    → IsBounded n index
    → hit index q keys ≡ true
    → q < n
hit-lt n index q keys h c =
    ground (arith, led_by-lt n index q keys h, h.strings q, h.bytes q, h.os q, h.always q)

pub led_by-new-lt :
    (rules : List Rule) (q : ℕ) (keys : List Feature)
    → led_by (new rules) q keys ≡ true
    → q < length rules
led_by-new-lt rules q keys = led_by-lt (length rules) (new rules) q keys (new-IsBounded rules)

pub hit-new-lt :
    (rules : List Rule) (q : ℕ) (keys : List Feature)
    → hit (new rules) q keys ≡ true
    → q < length rules
hit-new-lt rules q keys = hit-lt (length rules) (new rules) q keys (new-IsBounded rules)
