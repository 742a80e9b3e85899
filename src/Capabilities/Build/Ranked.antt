-- ===== src/Capabilities/Build/Ranked.antt =====
-- `topo_sort_subset` of capa-x/src/capabilities/ruleset.rs has no test for cycles; where there are none,
-- as a rank of the names tells, it puts what a name depends on before the name.
use capa_x.Prelude.{
  ℕ, zero, suc, ◌<◌, ◌≡◌, refl, sym, subst, String, true, Option, none, some, List, [], ◌∷◌, ◌++◌,
  ◌⊎◌, inl, inr, arith, str_eq, str_eq_iff, Bool-cases, append-nil, append_assoc,
}
use capa_x.Prelude.Sort.{sort, str_leb}
use capa_x.Rules.Graph.{name_in, add_name}
use capa_x.Rules.Graph.Order.{AllIn}
use capa_x.Capabilities.Build.{sort_all, topo_sort_subset}
use capa_x.Capabilities.Build.Sorted.{
  IsWithin, Walked, Visits, sort_step, sort_all-Visits, name_in-add_name, name_in-snoc,
}

AllIn-IsWithin : (names order : List String) → IsWithin names order → AllIn names order
AllIn-IsWithin [] order h = tt
AllIn-IsWithin (n ∷ names) order h = (
  h n (ground (arith, (str_eq_iff n n).1 refl)),
  AllIn-IsWithin names order (λ m k. h m (ground arith)),
)

module _ (deps_of : String → List String) where
  -- what each name depends on stands before it, or in the first list
  abbrev pub ComeFirst : List String → List String → Type 0
  ComeFirst before [] = Unit
  ComeFirst before (n ∷ order) = AllIn (deps_of n) before × ComeFirst (before ++ n ∷ []) order

  ComeFirst-snoc :
      (before order : List String) (n : String)
      → ComeFirst before order
      → AllIn (deps_of n) (before ++ order)
      → ComeFirst before (order ++ n ∷ [])
  ComeFirst-snoc before [] n h k = (subst (AllIn (deps_of n)) (append-nil before) k, tt)
  ComeFirst-snoc before (m ∷ order) n h k = (
    h.0,
    ComeFirst-snoc (before ++ m ∷ []) order n h.1
        (subst (AllIn (deps_of n)) (sym (append_assoc before (m ∷ []) order)) k),
  )

  module _ (rank : String → ℕ)
      (ranked : (n d : String) → name_in d (deps_of n) ≡ true → rank d < rank n) where
    -- the names that are visited rank below those that are seen and not yet in the order
    abbrev Below : List String → Walked → Type 0
    Below names w =
        (n m : String)
        → name_in n names ≡ true
        → name_in m w.0 ≡ true
        → (name_in m w.1 ≡ true) ⊎ (rank n < rank m)

    -- all that is visited is then put in the order
    put :
        (names : List String) (w v : Walked)
        → Visits deps_of names w v
        → Below names w
        → IsWithin names v.1
    put names w v r b n i = elim (r.grey n (r.visited n i)) [
      | inl j ↦ j
      | inr j ↦ elim (b n n i j) [ inl k ↦ r.kept n k | inr k ↦ absurd (omega (arith, k)) ]
    ]

    Below-inside :
        (n : String) (names : List String) (w : Walked)
        → Below (n ∷ names) w
        → Below (deps_of n) (add_name w.0 n, w.1)
    Below-inside n names w b d m i j = elim (Bool-cases (str_eq m n)) [
      | inl s ↦ inr (subst (λ x. rank d < rank x) (sym ((str_eq_iff m n).0 s)) (ranked n d i))
      | inr s ↦
          elim (b n m (ground (arith, (str_eq_iff n n).1 refl))
            (ground (arith, name_in-add_name m w.0 n))) [
              | inl k ↦ inl k
              | inr k ↦ inr (omega (arith, k, ranked n d i))
            ]
    ]

    Below-behind :
        (n : String) (names : List String) (w u : Walked)
        → Visits deps_of (deps_of n) (add_name w.0 n, w.1) u
        → Below (n ∷ names) w
        → Below names (u.0, u.1 ++ n ∷ [])
    Below-behind n names w u r b k m i j = elim (r.grey m j) [
      | inl g ↦ inl (ground (arith, name_in-snoc m u.1 n))
      | inr g ↦ elim (Bool-cases (str_eq m n)) [
        | inl s ↦ inl (ground (arith, name_in-snoc m u.1 n))
        | inr s ↦ elim (b k m (ground arith) (ground (arith, name_in-add_name m w.0 n))) [
          | inl q ↦ inl (ground (arith, r.kept m q, name_in-snoc m u.1 n))
          | inr q ↦ inr q
        ]
      ]
    ]

    sort_all-ComeFirst :
        (fuel : ℕ) (names : List String) (w v : Walked)
        → Below names w
        → ComeFirst [] w.1
        → sort_all deps_of fuel names w ≡ some v
        → ComeFirst [] v.1
    unfolding sort_all
    sort_all-ComeFirst zero names w v b f h = cc
    sort_all-ComeFirst (suc fuel) [] w v b f h =
        let same : w ≡ v = cc in subst (λ (x : Walked). ComeFirst [] x.1) same f
    sort_all-ComeFirst (suc fuel) (n ∷ names) w v b f h =
        sort_step deps_of fuel n names w v (ComeFirst [] v.1)
          (λ e g. sort_all-ComeFirst fuel names w v (λ k m i j. b k m (ground arith) j) f g)
          (λ u e k g.
            let r = sort_all-Visits deps_of fuel (deps_of n) _ u k in
            let inside = Below-inside n names w b in
            let ready : AllIn (deps_of n) u.1 =
              AllIn-IsWithin (deps_of n) u.1 (put (deps_of n) _ u r inside) in
            sort_all-ComeFirst fuel names (u.0, u.1 ++ n ∷ []) v (Below-behind n names w u r b)
              (ComeFirst-snoc [] u.1 n
                (sort_all-ComeFirst fuel (deps_of n) (add_name w.0 n, w.1) u inside f k) ready)
              g)
          _ refl h

    pub topo_sort_subset-ComeFirst :
        (fuel : ℕ) (names order : List String)
        → topo_sort_subset deps_of fuel names ≡ some order
        → ComeFirst [] order
    unfolding topo_sort_subset
    topo_sort_subset-ComeFirst fuel names order h = after _ refl h
      where
        after :
            (found : Option Walked)
            → sort_all deps_of fuel (sort str_leb names) ([], []) ≡ found
            → elim found [ none ↦ none | some w ↦ some w.1 ] ≡ some order
            → ComeFirst [] order
        after none e k = cc
        after (some w) e k =
            let same : w.1 ≡ order = cc in
            subst (ComeFirst []) same
              (sort_all-ComeFirst fuel (sort str_leb names) ([], []) w (λ n m i j. cc) tt e)
