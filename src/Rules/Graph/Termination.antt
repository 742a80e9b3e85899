-- ===== src/Rules/Graph/Termination.antt =====
-- The visits of capa-x/src/rules/graph.rs end: every nested call marks a rule that had no mark.
use capa_x.Prelude.{
  ℕ, zero, suc, ◌+◌, ◌*◌, ◌<◌, ◌≤◌, max, String, Bool, true, false, Option, none, some, List, [],
  ◌∷◌, ◌++◌, ◌≡◌, refl, sym, ◌∙◌, subst, str_eq, str_eq_iff, arith, length, if◌then◌else◌,
}
use capa_x.Prelude.Result.{Result, ok, err}
use capa_x.IndexMap
use capa_x.Rules.Graph.Budget.{
  misses, misses_mono, misses-lt, misses_le, budget_inside, budget_behind, enough_fuel,
}
use capa_x.Rules.{Rule}
use capa_x.Rules.Error.{RuleError, invalid, missing_rule, circular_dependency}
use capa_x.Rules.Graph.{
  name_in, Mark, visiting, done, Walk, set_mark, visit_all, by_name, Namespaces,
  sorted_dependencies, names_of, order_of, topologically_order_rules,
}

abbrev marked : String → List (String × Mark) → Bool
marked n marks = IndexMap.contains_key str_eq n marks

-- how many of the names have no mark
abbrev unmarked : List String → List (String × Mark) → ℕ
unmarked ns marks = misses (λ n. marked n marks) ns

-- every mark of the first list is in the second
abbrev Grows : List (String × Mark) → List (String × Mark) → Type 0
Grows a b = (n : String) → marked n a ≡ true → marked n b ≡ true

Grows-set_mark :
    (n : String) (mark : Mark) (marks : List (String × Mark)) → Grows marks (set_mark n mark marks)
Grows-set_mark n mark marks m h = IndexMap.contains-entry_mono str_eq m n mark (λ old. mark) marks h

marked-set_mark :
    (n : String) (mark : Mark) (marks : List (String × Mark))
    → marked n (set_mark n mark marks) ≡ true
marked-set_mark n mark marks =
    IndexMap.contains-entry_self str_eq n mark (λ old. mark) marks ((str_eq_iff n n).1 refl)

unmarked_of_get :
    (n : String) (marks : List (String × Mark))
    → IndexMap.get str_eq n marks ≡ none
    → marked n marks ≡ false
unmarked_of_get n marks h = IndexMap.contains-get str_eq n marks ∙ rw h refl

-- a result is there, and has only more marks than there were
abbrev Ends : List (String × Mark) → Option (Result RuleError Walk) → Type 0
Ends marks none = ⊥
Ends marks (some (err e)) = Unit
Ends marks (some (ok v)) = Grows marks v.0

Ends-Grows :
    (a b : List (String × Mark)) (found : Option (Result RuleError Walk))
    → Grows a b
    → Ends b found
    → Ends a found
Ends-Grows a b none g h = h
Ends-Grows a b (some (err e)) g h = tt
Ends-Grows a b (some (ok v)) g h = λ n k. h n (g n k)

module _ (find : String → Option Rule) (deps_of : Rule → List String) (known : List String)
    (most : ℕ)
    (find_known : (n : String) (rule : Rule) → find n ≡ some rule → name_in n known ≡ true)
    (few : (n : String) (rule : Rule) → find n ≡ some rule → length (deps_of rule) ≤ most) where
  abbrev visits : ℕ → List String → Walk → Option (Result RuleError Walk)
  visits = visit_all find deps_of

  -- enough fuel for the names that are left and for the names that have no mark
  abbrev Enough : ℕ → List String → Walk → Type 0
  Enough fuel names w = length names + unmarked known w.0 * suc most < fuel

  module _ (fuel : ℕ)
      (inner : (ns : List String) (a : Walk) → Enough fuel ns a → Ends a.0 (visits fuel ns a))
      (n : String) (names : List String) (w : Walk) (enough : Enough (suc fuel) (n ∷ names) w) where
    abbrev opened : Walk
    opened = (set_mark n visiting w.0, w.1)

    abbrev closed : Walk → Walk
    closed u = (set_mark n done u.0, u.1 ++ n ∷ [])

    behind : (u : Walk) → Grows w.0 u.0 → Ends w.0 (visits fuel names u)
    behind u g = Ends-Grows w.0 u.0 (visits fuel names u) g (
        inner names u (
          budget_behind (unmarked known w.0) (unmarked known u.0) (length names) most fuel
            (misses_mono (λ m. marked m w.0) (λ m. marked m u.0) known g) enough))

    opened-Grows : Grows w.0 opened.0
    opened-Grows = Grows-set_mark n visiting w.0

    after_dependencies :
        (found : Option (Result RuleError Walk))
        → Ends opened.0 found
        → Ends w.0 (elim found [
          | none ↦ none
          | some (err e) ↦ some (err e)
          | some (ok u) ↦ visits fuel names (closed u)
        ])
    after_dependencies none h = h
    after_dependencies (some (err e)) h = tt
    after_dependencies (some (ok u)) h =
        behind (closed u) (λ m k. Grows-set_mark n done u.0 m (h m (opened-Grows m k)))

    at_new_name :
        (found : Option Rule)
        → find n ≡ found
        → IndexMap.get str_eq n w.0 ≡ none
        → Ends w.0 (elim found [
          | none ↦ some (err (invalid (missing_rule n)))
          | some rule ↦ elim (visits fuel (deps_of rule) opened) [
            | none ↦ none
            | some (err e) ↦ some (err e)
            | some (ok u) ↦ visits fuel names (closed u)
          ]
        ])
    at_new_name none e new = tt
    at_new_name (some rule) e new =
        let fewer : unmarked known opened.0 < unmarked known w.0 =
          misses-lt (λ m. marked m w.0) (λ m. marked m opened.0) known n opened-Grows
            (find_known n rule e) (unmarked_of_get n w.0 new) (marked-set_mark n visiting w.0) in
        after_dependencies (visits fuel (deps_of rule) opened) (
          inner (deps_of rule) opened (
            budget_inside (unmarked known w.0) (unmarked known opened.0) (length names)
              (length (deps_of rule)) most fuel fewer (few n rule e) enough))

    at_mark :
        (mark : Option Mark)
        → IndexMap.get str_eq n w.0 ≡ mark
        → Ends w.0 (elim mark [
          | some done ↦ visits fuel names w
          | some visiting ↦ some (err (invalid (circular_dependency n)))
          | none ↦ elim (find n) [
            | none ↦ some (err (invalid (missing_rule n)))
            | some rule ↦ elim (visits fuel (deps_of rule) opened) [
              | none ↦ none
              | some (err e) ↦ some (err e)
              | some (ok u) ↦ visits fuel names (closed u)
            ]
          ]
        ])
    at_mark (some done) e = behind w (λ m k. k)
    at_mark (some visiting) e = tt
    at_mark none e = at_new_name _ refl e

  visit_all-Ends :
      (fuel : ℕ) (names : List String) (w : Walk)
      → Enough fuel names w
      → Ends w.0 (visits fuel names w)
  unfolding visit_all
  visit_all-Ends zero names w h = absurd (omega arith)
  visit_all-Ends (suc fuel) [] w h = λ n k. k
  visit_all-Ends (suc fuel) (n ∷ names) w h = at_mark fuel (visit_all-Ends fuel) n names w h _ refl

-- the largest number of dependencies of a rule
abbrev pub most_dependencies : Namespaces → List Rule → ℕ
most_dependencies namespaces [] = 0
most_dependencies namespaces (rule ∷ rules) =
    max (length (sorted_dependencies namespaces rule)) (most_dependencies namespaces rules)

abbrev either : Option Rule → Bool → Rule → Option Rule
either found b r = elim found [ some f ↦ some f | none ↦ if b then some r else none ]

known_step :
    (r : Rule) (rules : List Rule) (n : String) (rule : Rule) (found : Option Rule) (b : Bool)
    → (found ≡ some rule → name_in n (names_of rules) ≡ true)
    → str_eq r.name n ≡ b
    → either found b r ≡ some rule
    → name_in n (names_of (r ∷ rules)) ≡ true
known_step r rules n rule (some f) b ih e h = let rest = ih h in ground arith
known_step r rules n rule none true ih e h =
    let here : str_eq n r.name ≡ true = (str_eq_iff n r.name).1 (sym ((str_eq_iff r.name n).0 e)) in
    ground arith
known_step r rules n rule none false ih e h = cc

pub by_name_known :
    (rules : List Rule) (n : String) (rule : Rule)
    → by_name rules n ≡ some rule
    → name_in n (names_of rules) ≡ true
unfolding by_name
by_name_known [] n rule h = cc
by_name_known (r ∷ rules) n rule h =
    known_step r rules n rule (by_name rules n) (str_eq r.name n) (by_name_known rules n rule) refl
      h

few_step :
    (namespaces : Namespaces) (r : Rule) (rules : List Rule) (rule : Rule) (found : Option Rule)
    (b : Bool)
    → (found ≡ some rule
        → length (sorted_dependencies namespaces rule) ≤ most_dependencies namespaces rules)
    → either found b r ≡ some rule
    → length (sorted_dependencies namespaces rule) ≤ most_dependencies namespaces (r ∷ rules)
few_step namespaces r rules rule (some f) b ih h = omega (arith, ih h)
few_step namespaces r rules rule none true ih h =
    let same : r ≡ rule = cc in
    subst
      (λ q. length (sorted_dependencies namespaces q) ≤ most_dependencies namespaces (r ∷ rules))
      same (omega arith)
few_step namespaces r rules rule none false ih h = cc

pub by_name_few :
    (namespaces : Namespaces) (rules : List Rule) (n : String) (rule : Rule)
    → by_name rules n ≡ some rule
    → length (sorted_dependencies namespaces rule) ≤ most_dependencies namespaces rules
unfolding by_name
by_name_few namespaces [] n rule h = cc
by_name_few namespaces (r ∷ rules) n rule h =
    few_step namespaces r rules rule (by_name rules n) (str_eq r.name n)
      (by_name_few namespaces rules n rule) h

-- An outcome is there: an order or an error, and not the end of the fuel.
abbrev pub HasOutcome {ℓ} : {A : Type ℓ} → Option A → Type 0
HasOutcome none = ⊥
HasOutcome (some a) = Unit

order_of-Ends :
    (marks : List (String × Mark)) (found : Option (Result RuleError Walk))
    → Ends marks found
    → HasOutcome (order_of found)
order_of-Ends marks none h = h
order_of-Ends marks (some (ok w)) h = tt
order_of-Ends marks (some (err e)) h = tt

pub length-names_of : (rules : List Rule) → length (names_of rules) ≡ length rules
length-names_of [] = refl
length-names_of (r ∷ rules) = omega (arith, length-names_of rules)

-- The visits end, with an order or an error, whatever the rules depend on: it is enough to have more
-- fuel than the number of rules times two more than the largest number of dependencies of a rule.
pub topologically_order_rules-HasOutcome :
    (fuel : ℕ) (rules : List Rule) (namespaces : Namespaces)
    → length rules * (2 + most_dependencies namespaces rules) < fuel
    → HasOutcome (topologically_order_rules fuel rules namespaces)
unfolding topologically_order_rules
topologically_order_rules-HasOutcome fuel rules namespaces h = order_of-Ends [] _ (
    visit_all-Ends (by_name rules) (sorted_dependencies namespaces) (names_of rules)
      (most_dependencies namespaces rules) (by_name_known rules) (by_name_few namespaces rules) fuel
      (names_of rules) ([], [])
      (enough_fuel (length rules) (length (names_of rules)) (unmarked (names_of rules) [])
        (most_dependencies namespaces rules) fuel (length-names_of rules)
        (misses_le (λ n. marked n []) (names_of rules)) h))
