-- ===== src/Capabilities/Build/Walks.antt =====
-- The walks over dependencies end.
use capa_x.Rules.{Rule}
use capa_x.Rules.Graph.Termination.{
  HasOutcome, most_dependencies, by_name_known, length-names_of, by_name_few,
}
use capa_x.Prelude.Sort.{insert_sorted, sort, str_leb}
use capa_x.Prelude.{
  ℕ, zero, suc, ◌+◌, ◌*◌, ◌<◌, ◌≤◌, String, Bool, true, false, Option, none, some, List, [], ◌∷◌,
  ◌≡◌, refl, str_eq, str_eq_iff, arith, length, inl, inr, any-append, ◌⊎◌, ◌++◌, Bool-cases, ◌∙◌,
}
use capa_x.Rules.Graph.{name_in, add_name, Namespaces, by_name, names_of}
use capa_x.Rules.Graph.Budget.{
  misses, misses_mono, misses-lt, times_mono, budget_inside, budget_behind, misses_le,
}
use capa_x.Capabilities.Build.{
  closure_all, sort, Rule, sort_all, str_leb, Namespaces, dependencies_in, topo_sort_subset,
  by_name, dependencies_or_none, enough_visits, most_dependencies,
}

-- every name of the first list is in the second
abbrev Grows : List String → List String → Type 0
Grows a b = (n : String) → name_in n a ≡ true → name_in n b ≡ true

Grows-add_name : (names : List String) (name : String) → Grows names (add_name names name)
unfolding add_name
Grows-add_name names name n h = ground (arith, any-append (str_eq n) names (name ∷ []))

in-add_name : (names : List String) (name : String) → name_in name (add_name names name) ≡ true
unfolding add_name
in-add_name names name =
    ground (arith, any-append (str_eq name) names (name ∷ []), (str_eq_iff name name).1 refl)

abbrev Ends : List String → Option (List String) → Type 0
Ends out none = ⊥
Ends out (some reached) = Grows out reached

Ends-Grows :
    (a b : List String) (found : Option (List String)) → Grows a b → Ends b found → Ends a found
Ends-Grows a b none g h = h
Ends-Grows a b (some reached) g h = λ n k. h n (g n k)

module _ (deps_of : String → List String) (known : List String) (most : ℕ)
    (few : (n : String)
      → (deps_of n ≡ []) ⊎ ((name_in n known ≡ true) × (length (deps_of n) ≤ most))) where
  abbrev walks : ℕ → List String → List String → Option (List String)
  walks = closure_all deps_of

  abbrev unseen : List String → ℕ
  unseen out = misses (λ n. name_in n out) known

  abbrev Enough : ℕ → List String → List String → Type 0
  Enough fuel names out = length names + unseen out * suc most < fuel

  module _ (fuel : ℕ)
      (inner : (ns out : List String) → Enough fuel ns out → Ends out (walks fuel ns out))
      (n : String) (names out : List String) (enough : Enough (suc fuel) (n ∷ names) out) where
    behind : (reached : List String) → Grows out reached → Ends out (walks fuel names reached)
    behind reached g = Ends-Grows out reached (walks fuel names reached) g (
        inner names reached (
          budget_behind (unseen out) (unseen reached) (length names) most fuel
            (misses_mono (λ m. name_in m out) (λ m. name_in m reached) known g) enough))

    after_inner :
        (found : Option (List String))
        → Ends (add_name out n) found
        → Ends out (elim found [ none ↦ none | some reached ↦ walks fuel names reached ])
    after_inner none h = h
    after_inner (some reached) h = behind reached (λ m k. h m (Grows-add_name out n m k))

    -- a new name has no dependencies, or is one of the known ones
    inside-Enough :
        (deps_of n ≡ []) ⊎ ((name_in n known ≡ true) × (length (deps_of n) ≤ most))
        → name_in n out ≡ false
        → Enough fuel (deps_of n) (add_name out n)
    inside-Enough (inl e) new =
        let fewer =
          misses_mono (λ m. name_in m out) (λ m. name_in m (add_name out n)) known
            (Grows-add_name out n) in
        rw e (omega (arith, times_mono (unseen (add_name out n)) (unseen out) (suc most) fewer))
    inside-Enough (inr (i, le)) new =
        budget_inside (unseen out) (unseen (add_name out n)) (length names) (length (deps_of n))
          most fuel
          (misses-lt (λ m. name_in m out) (λ m. name_in m (add_name out n)) known n
            (Grows-add_name out n) i new (in-add_name out n))
          le enough

    at_name :
        (b : Bool)
        → name_in n out ≡ b
        → Ends out (elim b [
          | true ↦ walks fuel names out
          | false ↦ elim (walks fuel (deps_of n) (add_name out n)) [
            | none ↦ none
            | some reached ↦ walks fuel names reached
          ]
        ])
    at_name true e = behind out (λ m k. k)
    at_name false e = after_inner _ (inner (deps_of n) (add_name out n) (inside-Enough (few n) e))

  pub closure_all-Ends :
      (fuel : ℕ) (names out : List String) → Enough fuel names out → Ends out (walks fuel names out)
  unfolding closure_all
  closure_all-Ends zero names out h = absurd (omega arith)
  closure_all-Ends (suc fuel) [] out h = λ n k. k
  closure_all-Ends (suc fuel) (n ∷ names) out h =
      at_name fuel (closure_all-Ends fuel) n names out h _ refl

module _ (deps_of : String → List String) where
  abbrev first : Option (List String × List String) → Option (List String)
  first none = none
  first (some w) = some w.0

  -- the sort sees the names that the closure reaches
  first-inner :
      (fuel : ℕ) (names : List String) (found : Option (List String × List String)) (n : String)
      → ((w : List String × List String)
          → first (sort_all deps_of fuel names w) ≡ closure_all deps_of fuel names w.0)
      → first
          (elim found [ none ↦ none | some v ↦ sort_all deps_of fuel names (v.0, v.1 ++ n ∷ []) ])
        ≡ elim (first found) [ none ↦ none | some reached ↦ closure_all deps_of fuel names reached ]
  first-inner fuel names none n ih = refl
  first-inner fuel names (some v) n ih = ih (v.0, v.1 ++ n ∷ [])

  first-name :
      (fuel : ℕ) (names : List String) (w : List String × List String) (n : String)
      → ((ns : List String) (v : List String × List String)
          → first (sort_all deps_of fuel ns v) ≡ closure_all deps_of fuel ns v.0)
      → (b : Bool)
      → first (elim b [
        | true ↦ sort_all deps_of fuel names w
        | false ↦ elim (sort_all deps_of fuel (deps_of n) (add_name w.0 n, w.1)) [
          | none ↦ none
          | some v ↦ sort_all deps_of fuel names (v.0, v.1 ++ n ∷ [])
        ]
      ])
        ≡ elim b [
          | true ↦ closure_all deps_of fuel names w.0
          | false ↦ elim (closure_all deps_of fuel (deps_of n) (add_name w.0 n)) [
            | none ↦ none
            | some reached ↦ closure_all deps_of fuel names reached
          ]
        ]
  first-name fuel names w n ih true = ih names w
  first-name fuel names w n ih false =
      first-inner fuel names (sort_all deps_of fuel (deps_of n) (add_name w.0 n, w.1)) n (ih names)
      ∙ rw (ih (deps_of n) (add_name w.0 n, w.1)) refl

  first-sort_all :
      (fuel : ℕ) (names : List String) (w : List String × List String)
      → first (sort_all deps_of fuel names w) ≡ closure_all deps_of fuel names w.0
  unfolding sort_all closure_all
  first-sort_all zero names w = refl
  first-sort_all (suc fuel) [] w = refl
  first-sort_all (suc fuel) (n ∷ names) w =
      first-name fuel names w n (first-sort_all fuel) (name_in n w.0)

HasOutcome-Ends : (out : List String) (o : Option (List String)) → Ends out o → HasOutcome o
HasOutcome-Ends out none h = h
HasOutcome-Ends out (some r) h = tt

HasOutcome-first :
    (deps_of : String → List String) (w : Option (List String × List String))
    (o : Option (List String))
    → first deps_of w ≡ o
    → HasOutcome o
    → HasOutcome (elim w [ none ↦ none | some v ↦ some v.1 ])
HasOutcome-first deps_of none none e h = h
HasOutcome-first deps_of none (some r) e h = cc
HasOutcome-first deps_of (some v) o e h = tt

length-insert_sorted :
    (s : String) (xs : List String) → length (insert_sorted str_leb s xs) ≡ suc (length xs)
unfolding insert_sorted
length-insert_sorted s [] = refl
length-insert_sorted s (x ∷ xs) = elim (Bool-cases (str_leb s x)) [
  | inl e ↦ rw e refl
  | inr e ↦ rw e (omega (arith, length-insert_sorted s xs))
]

length-sort : (xs : List String) → length (sort str_leb xs) ≡ length xs
unfolding sort
length-sort [] = refl
length-sort (x ∷ xs) = omega (arith, length-insert_sorted x (sort str_leb xs), length-sort xs)

module _ (rules : List Rule) (namespaces : Namespaces) where
  few_dependencies :
      (n : String) (o : Option Rule)
      → by_name rules n ≡ o
      → (dependencies_or_none namespaces o ≡ [])
        ⊎ ((name_in n (names_of rules) ≡ true)
            × (length (dependencies_or_none namespaces o) ≤ most_dependencies namespaces rules))
  few_dependencies n none e = inl refl
  few_dependencies n (some rule) e =
      inr (by_name_known rules n rule e, by_name_few namespaces rules n rule e)

  closure_ends :
      (names visited : List String)
      → length visited ≡ length names
      → HasOutcome (
          closure_all
            (dependencies_in rules namespaces)
            (enough_visits rules namespaces names)
            visited
            [])
  closure_ends names visited e = HasOutcome-Ends [] _ (
      closure_all-Ends (dependencies_in rules namespaces) (names_of rules)
        (most_dependencies namespaces rules) (λ n. few_dependencies n (by_name rules n) refl)
        (enough_visits rules namespaces names) visited []
        (omega (
          arith,
          length-names_of rules,
          misses_le (λ n. name_in n []) (names_of rules),
          times_mono (misses (λ n. name_in n []) (names_of rules)) (length rules)
              (suc (most_dependencies namespaces rules))
              (omega
                (arith, misses_le (λ n. name_in n []) (names_of rules), length-names_of rules)),
        )))

  pub closure_all-HasOutcome :
      (names : List String)
      → HasOutcome (
          closure_all
            (dependencies_in rules namespaces)
            (enough_visits rules namespaces names)
            names
            [])
  closure_all-HasOutcome names = closure_ends names names refl

  pub topo_sort_subset-HasOutcome :
      (names : List String)
      → HasOutcome (
          topo_sort_subset
            (dependencies_in rules namespaces)
            (enough_visits rules namespaces names)
            names)
  unfolding topo_sort_subset
  topo_sort_subset-HasOutcome names =
      HasOutcome-first (dependencies_in rules namespaces) _ _
        (first-sort_all (dependencies_in rules namespaces) (enough_visits rules namespaces names)
          (sort str_leb names) ([], []))
        (closure_ends names (sort str_leb names) (length-sort names))
