-- ===== src/Capabilities/Build/Sorted.antt =====
-- `transitive_closure` and `topo_sort_subset` of capa-x/src/capabilities/ruleset.rs lose no name, and
-- the second puts dependencies first where they are ranked.
use capa_x.Prelude.{
  ℕ, zero, suc, ◌≡◌, refl, sym, ◌∙◌, subst, String, Bool, true, false, Option, none, some, List, [],
  ◌∷◌, ◌++◌, ◌⊎◌, inl, inr, arith, any-append, str_eq, str_eq_iff, Bool-cases, ◌||◌,
}
use capa_x.Prelude.Sort.{sort, insert_sorted, str_leb}
use capa_x.Rules.Graph.{name_in, add_name}
use capa_x.Capabilities.Build.{closure_all, sort_all, topo_sort_subset}

pub name_in-add_name :
    (n : String) (names : List String) (m : String)
    → name_in n (add_name names m) ≡ (name_in n names || str_eq n m)
unfolding add_name
name_in-add_name n names m = elim (Bool-cases (name_in m names)) [
  | inl e ↦ elim (Bool-cases (str_eq n m)) [
    | inl k ↦ rw (e, (str_eq_iff n m).0 k, e) refl
    | inr k ↦ rw (e, k) (ground arith)
  ]
  | inr e ↦ rw e (ground (arith, any-append (str_eq n) names (m ∷ [])))
]

name_in-insert_sorted :
    (n m : String) (names : List String)
    → name_in n (insert_sorted str_leb m names) ≡ (str_eq n m || name_in n names)
unfolding insert_sorted
name_in-insert_sorted n m [] = refl
name_in-insert_sorted n m (x ∷ names) = elim (Bool-cases (str_leb m x)) [
  | inl e ↦ rw e refl
  | inr e ↦ rw e (ground (arith, name_in-insert_sorted n m names))
]

pub name_in-sort :
    (n : String) (names : List String) → name_in n (sort str_leb names) ≡ name_in n names
unfolding sort
name_in-sort n [] = refl
name_in-sort n (m ∷ names) =
    ground (arith, name_in-insert_sorted n m (sort str_leb names), name_in-sort n names)

-- every name of the first list is in the second
abbrev pub IsWithin : List String → List String → Type 0
IsWithin a b = (n : String) → name_in n a ≡ true → name_in n b ≡ true

-- the names that were seen, and the order so far
abbrev pub Walked : Type 0
Walked = List String × List String

pub name_in-snoc :
    (n : String) (order : List String) (m : String)
    → name_in n (order ++ m ∷ []) ≡ (name_in n order || str_eq n m)
name_in-snoc n order m = ground (arith, any-append (str_eq n) order (m ∷ []))

module _ (deps_of : String → List String) where
  -- the closure has what it started with and what it went through
  pub record Covers (names out reached : List String) : Type 0 where
    pub kept : IsWithin out reached
    pub covered : IsWithin names reached

  closure_step :
      (fuel : ℕ) (n : String) (names out reached : List String)
      → ((ns o r : List String) → closure_all deps_of fuel ns o ≡ some r → Covers ns o r)
      → (b : Bool) → name_in n out ≡ b
      → elim b [
        | true ↦ closure_all deps_of fuel names out
        | false ↦ elim (closure_all deps_of fuel (deps_of n) (add_name out n)) [
          | none ↦ none
          | some r ↦ closure_all deps_of fuel names r
        ]
      ]
        ≡ some reached
      → Covers (n ∷ names) out reached
  closure_step fuel n names out reached ih true e h =
      let c = ih names out reached h in
      record {
        kept = c.kept;
        covered = λ m k. elim (Bool-cases (str_eq m n)) [
          | inl s ↦ c.kept m (subst (λ x. name_in x out ≡ true) (sym ((str_eq_iff m n).0 s)) e)
          | inr s ↦ c.covered m (ground arith)
        ];
      }
  closure_step fuel n names out reached ih false e h = after _ refl h
    where
      after :
          (found : Option (List String))
          → closure_all deps_of fuel (deps_of n) (add_name out n) ≡ found
          → elim found [ none ↦ none | some r ↦ closure_all deps_of fuel names r ] ≡ some reached
          → Covers (n ∷ names) out reached
      after none k g = cc
      after (some r) k g =
          let inside = ih (deps_of n) (add_name out n) r k in
          let behind = ih names r reached g in
          record {
            kept = λ m q. behind.kept m (inside.kept m (ground (arith, name_in-add_name m out n)));
            covered = λ m q. elim (Bool-cases (str_eq m n)) [
              | inl s ↦ behind.kept m (inside.kept m (ground (arith, name_in-add_name m out n)))
              | inr s ↦ behind.covered m (ground arith)
            ];
          }

  pub closure_all-Covers :
      (fuel : ℕ) (names out reached : List String)
      → closure_all deps_of fuel names out ≡ some reached
      → Covers names out reached
  unfolding closure_all
  closure_all-Covers zero names out reached h = cc
  closure_all-Covers (suc fuel) [] out reached h =
      let same : out ≡ reached = cc in
      subst (Covers [] out) same (record { kept = λ n k. k; covered = λ n k. cc })
  closure_all-Covers (suc fuel) (n ∷ names) out reached h =
      closure_step fuel n names out reached (closure_all-Covers fuel) _ refl h

  -- What a walk has seen and put in order: it loses nothing, and all that it adds is in the order.
  pub record Visits (names : List String) (w v : Walked) : Type 0 where
    pub seen : IsWithin w.0 v.0
    pub visited : IsWithin names v.0
    pub kept : IsWithin w.1 v.1
    pub grey : (n : String) → name_in n v.0 ≡ true → (name_in n v.1 ≡ true) ⊎ (name_in n w.0 ≡ true)

  Visits-seen :
      (n : String) (names : List String) (w v : Walked)
      → name_in n w.0 ≡ true
      → Visits names w v
      → Visits (n ∷ names) w v
  Visits-seen n names w v e r = record {
    seen = r.seen;
    visited = λ m k. elim (Bool-cases (str_eq m n)) [
      | inl s ↦ r.seen m (subst (λ x. name_in x w.0 ≡ true) (sym ((str_eq_iff m n).0 s)) e)
      | inr s ↦ r.visited m (ground arith)
    ];
    kept = r.kept;
    grey = r.grey;
  }

  Visits-new :
      (n : String) (deps names : List String) (w u v : Walked)
      → Visits deps (add_name w.0 n, w.1) u
      → Visits names (u.0, u.1 ++ n ∷ []) v
      → Visits (n ∷ names) w v
  Visits-new n deps names w u v r q = record {
    seen = λ m k. q.seen m (r.seen m (ground (arith, name_in-add_name m w.0 n)));
    visited = λ m k. elim (Bool-cases (str_eq m n)) [
      | inl s ↦ q.seen m (r.seen m (ground (arith, name_in-add_name m w.0 n)))
      | inr s ↦ q.visited m (ground arith)
    ];
    kept = λ m k. q.kept m (ground (arith, r.kept m k, name_in-snoc m u.1 n));
    grey = λ m k. elim (q.grey m k) [
      | inl i ↦ inl i
      | inr i ↦ elim (r.grey m i) [
        | inl j ↦ inl (q.kept m (ground (arith, name_in-snoc m u.1 n)))
        | inr j ↦ elim (Bool-cases (str_eq m n)) [
          | inl s ↦ inl (q.kept m (ground (arith, name_in-snoc m u.1 n)))
          | inr s ↦ inr (ground (arith, name_in-add_name m w.0 n))
        ]
      ]
    ];
  }

  -- One name of a list: what holds of a walk over the names behind it and of one over what it needs.
  module _ (fuel : ℕ) (n : String) (names : List String) (w v : Walked) (P : Type 0)
      (when_seen : name_in n w.0 ≡ true → sort_all deps_of fuel names w ≡ some v → P)
      (when_new : (u : Walked)
        → name_in n w.0 ≡ false
        → sort_all deps_of fuel (deps_of n) (add_name w.0 n, w.1) ≡ some u
        → sort_all deps_of fuel names (u.0, u.1 ++ n ∷ []) ≡ some v
        → P) where
    pub sort_step :
        (b : Bool)
        → name_in n w.0 ≡ b
        → elim b [
          | true ↦ sort_all deps_of fuel names w
          | false ↦ elim (sort_all deps_of fuel (deps_of n) (add_name w.0 n, w.1)) [
            | none ↦ none
            | some u ↦ sort_all deps_of fuel names (u.0, u.1 ++ n ∷ [])
          ]
        ]
          ≡ some v
        → P
    sort_step true e h = when_seen e h
    sort_step false e h = after _ refl h
      where
        after :
            (found : Option Walked)
            → sort_all deps_of fuel (deps_of n) (add_name w.0 n, w.1) ≡ found
            → elim found [ none ↦ none | some u ↦ sort_all deps_of fuel names (u.0, u.1 ++ n ∷ []) ]
              ≡ some v
            → P
        after none k g = cc
        after (some u) k g = when_new u e k g

  pub sort_all-Visits :
      (fuel : ℕ) (names : List String) (w v : Walked)
      → sort_all deps_of fuel names w ≡ some v
      → Visits names w v
  unfolding sort_all
  sort_all-Visits zero names w v h = cc
  sort_all-Visits (suc fuel) [] w v h =
      let same : w ≡ v = cc in
      subst (Visits [] w) same
        (record { seen = λ n k. k; visited = λ n k. cc; kept = λ n k. k; grey = λ n k. inr k })
  sort_all-Visits (suc fuel) (n ∷ names) w v h =
      sort_step fuel n names w v (Visits (n ∷ names) w v)
        (λ e g. Visits-seen n names w v e (sort_all-Visits fuel names w v g))
        (λ u e k g.
          Visits-new n (deps_of n) names w u v (sort_all-Visits fuel (deps_of n) _ u k)
            (sort_all-Visits fuel names _ v g))
        _ refl h

  -- a sort loses none of the names that it starts from
  pub topo_sort_subset-IsWithin :
      (fuel : ℕ) (names order : List String)
      → topo_sort_subset deps_of fuel names ≡ some order
      → IsWithin names order
  unfolding topo_sort_subset
  topo_sort_subset-IsWithin fuel names order h = after _ refl h
    where
      after :
          (found : Option Walked)
          → sort_all deps_of fuel (sort str_leb names) ([], []) ≡ found
          → elim found [ none ↦ none | some w ↦ some w.1 ] ≡ some order
          → IsWithin names order
      after none e k n i = cc
      after (some w) e k n i =
          let r = sort_all-Visits fuel (sort str_leb names) ([], []) w e in
          let same : w.1 ≡ order = cc in
          elim (r.grey n (r.visited n (name_in-sort n names ∙ i))) [
            | inl j ↦ subst (λ o. name_in n o ≡ true) same j
            | inr j ↦ cc
          ]
