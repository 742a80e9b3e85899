-- ===== src/Rules/Graph/Order.antt =====
-- In the order that the visits of capa-x/src/rules/graph.rs produce, dependencies come first.
use capa_x.Prelude.{
  ℕ, zero, suc, String, true, false, Option, none, some, List, [], ◌∷◌, ◌++◌, ◌≡◌, refl, sym, ◌∙◌,
  subst, str_eq, str_eq_iff, any-append, arith, All, append_assoc, append-nil, Bool-cases,
  if◌then◌else◌, inl, inr,
}
use capa_x.Prelude.Result.{Result, ok, err}
use capa_x.IndexMap
use capa_x.Rules.{Rule}
use capa_x.Rules.Error.{RuleError}
use capa_x.Rules.Error.{invalid, missing_rule, circular_dependency}
use capa_x.Rules.Graph.{
  by_name, Namespaces, sorted_dependencies, names_of, order_of, topologically_order_rules, name_in,
  Mark, visiting, done, Walk, set_mark, visit_all,
}

pub str_eq_sym : (a b : String) → str_eq a b ≡ true → str_eq b a ≡ true
str_eq_sym a b h = (str_eq_iff b a).1 (sym ((str_eq_iff a b).0 h))

pub str_eq_trans : (a b c : String) → str_eq a b ≡ true → str_eq b c ≡ true → str_eq a c ≡ true
str_eq_trans a b c h k = (str_eq_iff a c).1 ((str_eq_iff a b).0 h ∙ (str_eq_iff b c).0 k)

abbrev pub AllIn : List String → List String → Type 0
AllIn names order = All (λ n. name_in n order ≡ true) names

name_in-snoc_mono :
    (n : String) (order : List String) (m : String)
    → name_in n order ≡ true
    → name_in n (order ++ m ∷ []) ≡ true
name_in-snoc_mono n order m h = ground (arith, any-append (str_eq n) order (m ∷ []))

name_in-snoc_self :
    (n : String) (order : List String) (m : String)
    → str_eq n m ≡ true
    → name_in n (order ++ m ∷ []) ≡ true
name_in-snoc_self n order m h = ground (arith, any-append (str_eq n) order (m ∷ []))

after_mark :
    (mark : Mark) (o : Option Mark) → IndexMap.after_entry str_eq mark (λ old. mark) o ≡ mark
after_mark mark none = refl
after_mark mark (some old) = refl

get-set_mark :
    (m n : String) (mark : Mark) (marks : List (String × Mark))
    → IndexMap.get str_eq m (set_mark n mark marks)
      ≡ (if str_eq n m then some mark else IndexMap.get str_eq m marks)
get-set_mark m n mark marks =
    IndexMap.get-entry str_eq str_eq_sym str_eq_trans m n mark (λ old. mark) marks
    ∙ rw (after_mark mark (IndexMap.get str_eq m marks)) refl

other_mark :
    (m n : String) (mark : Mark) (marks : List (String × Mark)) (a : Option Mark)
    → str_eq n m ≡ false
    → IndexMap.get str_eq m (set_mark n mark marks) ≡ a
    → IndexMap.get str_eq m marks ≡ a
other_mark m n mark marks a e h =
    let step : (if str_eq n m then some mark else IndexMap.get str_eq m marks) ≡ a =
      sym (get-set_mark m n mark marks) ∙ h in
    subst (λ b. (if b then some mark else IndexMap.get str_eq m marks) ≡ a) e step

own_mark :
    (m n : String) (mark : Mark) (marks : List (String × Mark))
    → str_eq n m ≡ true
    → IndexMap.get str_eq m (set_mark n mark marks) ≡ some mark
own_mark m n mark marks e = get-set_mark m n mark marks ∙ rw e refl

visiting_is_done : (o : Option Mark) → o ≡ some visiting → o ≡ some done → ⊥
visiting_is_done o h k = cc

module _ (by_name : String → Option Rule) (deps_of : Rule → List String) where
  abbrev pub deps_at : String → List String
  deps_at name = elim (by_name name) [ none ↦ [] | some rule ↦ deps_of rule ]

  -- what each name depends on stands before it, or in the first list
  abbrev pub DependenciesFirst : List String → List String → Type 0
  DependenciesFirst before [] = Unit
  DependenciesFirst before (n ∷ order) =
      AllIn (deps_at n) before × DependenciesFirst (before ++ n ∷ []) order

  DependenciesFirst-snoc :
      (before order : List String) (n : String)
      → DependenciesFirst before order
      → AllIn (deps_at n) (before ++ order)
      → DependenciesFirst before (order ++ n ∷ [])
  DependenciesFirst-snoc before [] n h k =
      (subst (λ seen. AllIn (deps_at n) seen) (append-nil before) k, tt)
  DependenciesFirst-snoc before (m ∷ order) n h k = (
    h.0,
    DependenciesFirst-snoc (before ++ m ∷ []) order n h.1
        (subst (λ seen. AllIn (deps_at n) seen) (sym (append_assoc before (m ∷ []) order)) k),
  )

  -- dependencies come first so far, and every name that is marked done is in the order
  record Sound (w : Walk) : Type 0 where
    ordered : DependenciesFirst [] w.1
    listed : (n : String) → IndexMap.get str_eq n w.0 ≡ some done → name_in n w.1 ≡ true

  -- what a run of visits reaches from `w`
  record Reaches (names : List String) (w v : Walk) : Type 0 where
    sound : Sound v
    kept : (n : String) → name_in n w.1 ≡ true → name_in n v.1 ≡ true
    reached : AllIn names v.1

  Sound-visiting : (n : String) (w : Walk) → Sound w → Sound (set_mark n visiting w.0, w.1)
  Sound-visiting n w s = record {
    ordered = s.ordered;
    listed = λ m h. elim (Bool-cases (str_eq n m)) [
      | inl e ↦ absurd (visiting_is_done _ (own_mark m n visiting w.0 e) h)
      | inr e ↦ s.listed m (other_mark m n visiting w.0 (some done) e h)
    ];
  }

  Sound-done :
      (n : String) (u : Walk)
      → Sound u
      → AllIn (deps_at n) u.1
      → Sound (set_mark n done u.0, u.1 ++ n ∷ [])
  Sound-done n u s k = record {
    ordered = DependenciesFirst-snoc [] u.1 n s.ordered k;
    listed = λ m h. elim (Bool-cases (str_eq n m)) [
      | inl e ↦ name_in-snoc_self m u.1 n (str_eq_sym n m e)
      | inr e ↦ name_in-snoc_mono m u.1 n (s.listed m (other_mark m n done u.0 (some done) e h))
    ];
  }

  Reaches-done :
      (n : String) (names : List String) (w v : Walk)
      → Sound w
      → IndexMap.get str_eq n w.0 ≡ some done
      → Reaches names w v
      → Reaches (n ∷ names) w v
  Reaches-done n names w v s e r = record {
    sound = r.sound;
    kept = r.kept;
    reached = (r.kept n (s.listed n e), r.reached);
  }

  -- a visit of a new name, and then the names behind it
  Reaches-visit :
      (n : String) (deps names : List String) (w u v : Walk)
      → Reaches deps (set_mark n visiting w.0, w.1) u
      → Reaches names (set_mark n done u.0, u.1 ++ n ∷ []) v
      → Reaches (n ∷ names) w v
  Reaches-visit n deps names w u v r q = record {
    sound = q.sound;
    kept = λ m h. q.kept m (name_in-snoc_mono m u.1 n (r.kept m h));
    reached = (q.kept n (name_in-snoc_self n u.1 n ((str_eq_iff n n).1 refl)), q.reached);
  }

  Reaches-nil : (w v : Walk) → Sound w → w ≡ v → Reaches [] w v
  Reaches-nil w v s e =
      subst (λ x. Reaches [] w x) e (record { sound = s; kept = λ m h. h; reached = tt })

  abbrev visits : ℕ → List String → Walk → Option (Result RuleError Walk)
  visits = visit_all by_name deps_of

  -- One name of the list, where the calls inside it are sound.
  module _ (fuel : ℕ)
      (inner : (ns : List String) (a b : Walk)
        → Sound a
        → visits fuel ns a ≡ some (ok b)
        → Reaches ns a b)
      (n : String) (names : List String) (w v : Walk) (s : Sound w) where
    after_dependencies :
        (rule : Rule) (found : Option (Result RuleError Walk))
        → by_name n ≡ some rule
        → visits fuel (deps_of rule) (set_mark n visiting w.0, w.1) ≡ found
        → elim found [
          | none ↦ none
          | some (err e) ↦ some (err e)
          | some (ok u) ↦ visits fuel names (set_mark n done u.0, u.1 ++ n ∷ [])
        ]
          ≡ some (ok v)
        → Reaches (n ∷ names) w v
    after_dependencies rule none here e h = cc
    after_dependencies rule (some (err x)) here e h = cc
    after_dependencies rule (some (ok u)) here e h =
        let r : Reaches (deps_of rule) (set_mark n visiting w.0, w.1) u =
          inner (deps_of rule) (set_mark n visiting w.0, w.1) u (Sound-visiting n w s) e in
        let known : AllIn (deps_at n) u.1 = rw (here, deps_at) r.reached in
        Reaches-visit n (deps_of rule) names w u v r
          (inner names (set_mark n done u.0, u.1 ++ n ∷ []) v (Sound-done n u r.sound known) h)

    at_new_name :
        (found : Option Rule)
        → by_name n ≡ found
        → elim found [
          | none ↦ some (err (invalid (missing_rule n)))
          | some rule ↦ elim (visits fuel (deps_of rule) (set_mark n visiting w.0, w.1)) [
            | none ↦ none
            | some (err e) ↦ some (err e)
            | some (ok u) ↦ visits fuel names (set_mark n done u.0, u.1 ++ n ∷ [])
          ]
        ]
          ≡ some (ok v)
        → Reaches (n ∷ names) w v
    at_new_name none e h = cc
    at_new_name (some rule) e h = after_dependencies rule _ e refl h

    at_mark :
        (mark : Option Mark)
        → IndexMap.get str_eq n w.0 ≡ mark
        → elim mark [
          | some done ↦ visits fuel names w
          | some visiting ↦ some (err (invalid (circular_dependency n)))
          | none ↦ elim (by_name n) [
            | none ↦ some (err (invalid (missing_rule n)))
            | some rule ↦ elim (visits fuel (deps_of rule) (set_mark n visiting w.0, w.1)) [
              | none ↦ none
              | some (err e) ↦ some (err e)
              | some (ok u) ↦ visits fuel names (set_mark n done u.0, u.1 ++ n ∷ [])
            ]
          ]
        ]
          ≡ some (ok v)
        → Reaches (n ∷ names) w v
    at_mark (some done) e h = Reaches-done n names w v s e (inner names w v s h)
    at_mark (some visiting) e h = cc
    at_mark none e h = at_new_name _ refl h

  visit_all-Reaches :
      (fuel : ℕ) (names : List String) (w v : Walk)
      → Sound w
      → visit_all by_name deps_of fuel names w ≡ some (ok v)
      → Reaches names w v
  unfolding visit_all
  visit_all-Reaches zero names w v s h = cc
  visit_all-Reaches (suc fuel) [] w v s h = Reaches-nil w v s cc
  visit_all-Reaches (suc fuel) (n ∷ names) w v s h =
      at_mark fuel (visit_all-Reaches fuel) n names w v s _ refl h

ordered_of_found :
    (rules : List Rule) (namespaces : Namespaces) (found : Option (Result RuleError Walk))
    (order : List String)
    → ((v : Walk)
        → found ≡ some (ok v)
        → Reaches (by_name rules) (sorted_dependencies namespaces) (names_of rules) ([], []) v)
    → order_of found ≡ some (ok order)
    → DependenciesFirst (by_name rules) (sorted_dependencies namespaces) [] order
      × AllIn (names_of rules) order
ordered_of_found rules namespaces none order r h = cc
ordered_of_found rules namespaces (some (err e)) order r h = cc
ordered_of_found rules namespaces (some (ok v)) order r h =
    let e : v.1 ≡ order = cc in
    let reaches = r v refl in
    subst
      (λ o.
        DependenciesFirst (by_name rules) (sorted_dependencies namespaces) [] o
        × AllIn (names_of rules) o)
      e (reaches.sound.ordered, reaches.reached)

-- An order that is returned has every rule, and whatever a name of it depends on stands before it.
pub topologically_order_rules-DependenciesFirst :
    (fuel : ℕ) (rules : List Rule) (namespaces : Namespaces) (order : List String)
    → topologically_order_rules fuel rules namespaces ≡ some (ok order)
    → DependenciesFirst (by_name rules) (sorted_dependencies namespaces) [] order
      × AllIn (names_of rules) order
unfolding topologically_order_rules
topologically_order_rules-DependenciesFirst fuel rules namespaces order h =
    ordered_of_found rules namespaces _ order
      (λ v e.
        visit_all-Reaches (by_name rules) (sorted_dependencies namespaces) fuel (names_of rules)
          ([], []) v (record { ordered = tt; listed = λ n k. cc }) e)
      h
