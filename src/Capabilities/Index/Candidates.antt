-- ===== src/Capabilities/Index/Candidates.antt =====
-- Which positions `candidates` and `activate` yield, and that no rule that holds is left out.
use capa_x.Prelude.{
  ℕ, ◌≡◌, refl, sym, ap, ◌∙◌, inl, inr, Bool, true, false, ◌&&◌, ◌||◌, Option, none, some, List, [],
  ◌∷◌, ◌++◌, any, any-append, arith, Bool-cases, ltb, get_elem?,
}
use capa_x.Ordered.{nat_ord}
use capa_x.SortedSet.{contains, contains-extend, extend-IsSorted, IsSorted, extend, of_list}
use capa_x.IndexMap
use capa_x.Features.{
  Feature, plain, substring, regex, string, feature_eq, is_string, is_bytes, is_os,
}
use capa_x.Features.Equality.{feature_eq_sym}
use capa_x.Features.Regex.{RegexCrates}
use capa_x.Rules.{Node, Rule}
use capa_x.Engine.FeatureSet.{FeatureSet}
use capa_x.Engine.Boolean.{any_key}
use capa_x.Engine.Meaning.{holds}
use capa_x.Capabilities.Required.{Requirement, required_features}
use capa_x.Capabilities.Required.Present.{present, any_present}
use capa_x.Capabilities.Required.Sound.{Supported, node-Supported}
use capa_x.Capabilities.Index.{
  RuleFeatureIndex, exact_positions, exact_candidates, extend_if, candidates, above, activate, new,
}
use capa_x.Capabilities.Index.Buckets.{Listed, AllListed}
use capa_x.Capabilities.Index.Complete.{Registered, ByRequirement, new-Registered}

-- some key of the list leads to the position
abbrev pub led_by : RuleFeatureIndex → ℕ → List Feature → Bool
led_by index q keys = any (λ k. contains q (exact_positions index k)) keys

-- what makes a position a candidate for the keys
abbrev pub hit : RuleFeatureIndex → ℕ → List Feature → Bool
hit index q keys =
    (((contains q index.always || led_by index q keys)
        || (any is_string keys && contains q index.strings))
      || (any is_bytes keys && contains q index.bytes))
    || (any is_os keys && contains q index.os)

contains-exact_candidates :
    (index : RuleFeatureIndex) (q : ℕ) (c : List ℕ) (keys : List Feature)
    → contains q (exact_candidates index c keys) ≡ (contains q c || led_by index q keys)
unfolding exact_candidates
contains-exact_candidates index q c [] = ground arith
contains-exact_candidates index q c (k ∷ keys) = ground (
  arith,
  contains-exact_candidates index q (extend c (exact_positions index k)) keys,
  contains-extend q c (exact_positions index k),
)

contains-extend_if :
    (q : ℕ) (b : Bool) (xs c : List ℕ)
    → contains q (extend_if b xs c) ≡ (contains q c || (b && contains q xs))
contains-extend_if q true xs c = contains-extend q c xs
contains-extend_if q false xs c = ground arith

contains-of_list : (q : ℕ) (xs : List ℕ) → contains q (of_list xs) ≡ contains q xs
contains-of_list q xs = contains-extend q [] xs

pub contains-candidates :
    (index : RuleFeatureIndex) (q : ℕ) (keys : List Feature)
    → contains q (candidates index keys) ≡ hit index q keys
unfolding candidates
contains-candidates index q keys = rw (contains-extend_if q (any is_os keys)) (
    rw (contains-extend_if q (any is_bytes keys)) (
      rw (contains-extend_if q (any is_string keys))
        (rw (contains-exact_candidates index q) (rw (contains-of_list q index.always) refl))))

extend_if-IsSorted : (b : Bool) (xs c : List ℕ) → IsSorted c → IsSorted (extend_if b xs c)
extend_if-IsSorted true xs c h = extend-IsSorted c xs h
extend_if-IsSorted false xs c h = h

exact_candidates-IsSorted :
    (index : RuleFeatureIndex) (c : List ℕ) (keys : List Feature)
    → IsSorted c
    → IsSorted (exact_candidates index c keys)
unfolding exact_candidates
exact_candidates-IsSorted index c [] h = h
exact_candidates-IsSorted index c (k ∷ keys) h =
    exact_candidates-IsSorted index (extend c (exact_positions index k)) keys
      (extend-IsSorted c (exact_positions index k) h)

pub candidates-IsSorted :
    (index : RuleFeatureIndex) (keys : List Feature) → IsSorted (candidates index keys)
unfolding candidates
candidates-IsSorted index keys =
    let from_always = extend-IsSorted [] index.always tt in
    let c0 = exact_candidates index (of_list index.always) keys in
    let h0 = exact_candidates-IsSorted index (of_list index.always) keys from_always in
    let c1 = extend_if (any is_string keys) index.strings c0 in
    let h1 = extend_if-IsSorted (any is_string keys) index.strings c0 h0 in
    let c2 = extend_if (any is_bytes keys) index.bytes c1 in
    let h2 = extend_if-IsSorted (any is_bytes keys) index.bytes c1 h1 in
    extend_if-IsSorted (any is_os keys) index.os c2 h2

contains-above : (q p : ℕ) (xs : List ℕ) → contains q (above p xs) ≡ (ltb p q && contains q xs)
contains-above q p [] = ground arith
contains-above q p (x ∷ xs) = ground (arith, contains-above q p xs)

pub contains-activate :
    (index : RuleFeatureIndex) (p q : ℕ) (keys : List Feature) (c : List ℕ)
    → contains q (activate index p keys c) ≡ (contains q c || (ltb p q && led_by index q keys))
unfolding activate
contains-activate index p q [] c = ground arith
contains-activate index p q (k ∷ keys) c = ground (
  arith,
  contains-activate index p q keys (extend c (above p (exact_positions index k))),
  contains-extend q c (above p (exact_positions index k)),
  contains-above q p (exact_positions index k),
)

pub activate-IsSorted :
    (index : RuleFeatureIndex) (p : ℕ) (keys : List Feature) (c : List ℕ)
    → IsSorted c
    → IsSorted (activate index p keys c)
unfolding activate
activate-IsSorted index p [] c h = h
activate-IsSorted index p (k ∷ keys) c h =
    activate-IsSorted index p keys (extend c (above p (exact_positions index k)))
      (extend-IsSorted c (above p (exact_positions index k)) h)

-- Keys of no scanning kind add only what they lead to.
pub hit-append :
    (index : RuleFeatureIndex) (q : ℕ) (keys added : List Feature)
    → any is_string added ≡ false
    → any is_bytes added ≡ false
    → any is_os added ≡ false
    → hit index q (keys ++ added) ≡ (hit index q keys || led_by index q added)
hit-append index q keys added s b o = ground (
  arith,
  any-append (λ k. contains q (exact_positions index k)) keys added,
  any-append is_string keys added,
  any-append is_bytes keys added,
  any-append is_os keys added,
)

any_key-any :
    (p : Feature → Bool) (fs : FeatureSet) → any_key p fs ≡ any p (IndexMap.keys feature_eq fs)
any_key-any p [] = refl
any_key-any p ((k, locs) ∷ fs) = ap (λ b. p k || b) (any_key-any p fs)

led_by_contained :
    (index : RuleFeatureIndex) (q : ℕ) (f : Feature) (fs : FeatureSet)
    → ((k : Feature) → feature_eq f k ≡ true → contains q (exact_positions index k) ≡ true)
    → IndexMap.contains_key feature_eq f fs ≡ true
    → led_by index q (IndexMap.keys feature_eq fs) ≡ true
led_by_contained index q f [] h k = k
led_by_contained index q f ((j, locs) ∷ fs) h k =
    ground (arith, h j, feature_eq_sym j f, led_by_contained index q f fs h)

any_kind :
    (p : Feature → Bool) (fs : FeatureSet)
    → any_key p fs ≡ true
    → any p (IndexMap.keys feature_eq fs) ≡ true
any_kind p fs h = sym (any_key-any p fs) ∙ h

-- A present feature leads to the rules that are listed under it.
Listed-hit :
    (index : RuleFeatureIndex) (q : ℕ) (fs : FeatureSet) (f : Feature)
    → Listed index q f
    → present fs f ≡ true
    → hit index q (IndexMap.keys feature_eq fs) ≡ true
unfolding Listed present
Listed-hit index q fs (string (plain s)) h k =
    ground (arith, led_by_contained index q (string (plain s)) fs h k)
Listed-hit index q fs (string (substring s)) h k = ground (arith, any_kind is_string fs k)
Listed-hit index q fs (string (regex re)) h k = ground (arith, any_kind is_string fs k)
Listed-hit index q fs (Feature.bytes b) h k = ground (arith, any_kind is_bytes fs k)
Listed-hit index q fs (Feature.os s) h k = ground (arith, any_kind is_os fs k)
Listed-hit index q fs f h k = ground (arith, led_by_contained index q f fs h k)

AllListed-hit :
    (index : RuleFeatureIndex) (q : ℕ) (fs : FeatureSet) (alternatives : List Feature)
    → AllListed index q alternatives
    → any_present fs alternatives ≡ true
    → hit index q (IndexMap.keys feature_eq fs) ≡ true
AllListed-hit index q fs [] h k = cc
AllListed-hit index q fs (f ∷ alternatives) h k = elim (Bool-cases (present fs f)) [
  | inl e ↦ Listed-hit index q fs f h.0 e
  | inr e ↦ AllListed-hit index q fs alternatives h.1 (rw e at k)
]

required_hit :
    (index : RuleFeatureIndex) (q : ℕ) (fs : FeatureSet) (r : Option Requirement)
    → ByRequirement index q r
    → Supported fs r
    → hit index q (IndexMap.keys feature_eq fs) ≡ true
required_hit index q fs none h k = ground arith
required_hit index q fs (some r) h k = AllListed-hit index q fs r.1 h k

-- A registered rule whose body holds is a candidate.
pub hit_of_holds :
    (index : RuleFeatureIndex) (crates : RegexCrates) (q : ℕ) (fs : FeatureSet) (body : Node)
    → Registered index q body
    → holds crates fs body ≡ true
    → hit index q (IndexMap.keys feature_eq fs) ≡ true
hit_of_holds index crates q fs body h k =
    required_hit index q fs (required_features body) h (node-Supported crates fs body k)

-- A rule of the list whose body holds of a feature set is among the candidates that the index of
-- the list gives for the keys of the set.
pub contains-candidates-new :
    (crates : RegexCrates) (rules : List Rule) (i : ℕ) (rule : Rule) (fs : FeatureSet)
    → get_elem? rules i ≡ some rule
    → holds crates fs rule.body ≡ true
    → contains i (candidates (new rules) (IndexMap.keys feature_eq fs)) ≡ true
contains-candidates-new crates rules i rule fs here h =
    contains-candidates (new rules) i (IndexMap.keys feature_eq fs)
    ∙ hit_of_holds (new rules) crates i fs rule.body (new-Registered rules i rule here) h
