-- ===== src/Capabilities/Matching/Ready.antt =====
-- The invariant of the loop over candidates: the waiting positions are in order, they are ahead of
-- the rules that are done, and every rule ahead that the features lead to is waiting.
use capa_x.Prelude.{
  ℕ, suc, ◌<◌, ◌≤◌, ◌≡◌, sym, ap, ◌∙◌, inl, inr, true, false, ◌&&◌, ◌||◌, List, [], ◌∷◌, arith,
  Bool-cases, length, ltb,
}
use capa_x.Ordered.{nat_ord}
use capa_x.SortedSet.{contains, IsSorted, Above}
use capa_x.IndexMap
use capa_x.Features.{feature_eq}
use capa_x.Rules.{Rule}
use capa_x.Engine.FeatureSet.{FeatureSet}
use capa_x.Capabilities.Index.{new, candidates, activate}
use capa_x.Capabilities.Index.Candidates.{
  hit, led_by, contains-candidates, candidates-IsSorted, contains-activate, activate-IsSorted,
  hit-append,
}
use capa_x.Capabilities.Index.Bounds.{hit-new-lt, led_by-new-lt}
use capa_x.Capabilities.Matching.{new_keys}
use capa_x.Capabilities.Matching.Published.{Adds, new_keys-added}

contains_same : (p q : ℕ) (xs : List ℕ) → p ≡ q → contains q xs ≡ contains p xs
contains_same p q xs e = ap (λ n. contains n xs) (sym e)

above_of_absent :
    (p q : ℕ) (waiting : List ℕ)
    → contains p waiting ≡ false
    → contains q waiting ≡ true
    → p ≤ q
    → suc p ≤ q
above_of_absent p q waiting absent c l = ground (arith, contains_same p q waiting)

pub lt_of_Above : (p q : ℕ) (xs : List ℕ) → Above p xs → contains q xs ≡ true → p < q
lt_of_Above p q [] h c = cc
lt_of_Above p q (x ∷ xs) h c = ground (arith, lt_of_Above p q xs h.1)

-- below the head of a sorted list there is nothing
pub absent_below : (p x : ℕ) (xs : List ℕ) → IsSorted (x ∷ xs) → p < x → contains p (x ∷ xs) ≡ false
absent_below p x xs h l = elim (Bool-cases (contains p (x ∷ xs))) [
  | inl e ↦ absurd (ground (arith, lt_of_Above x p xs h.0))
  | inr e ↦ e
]

module _ (rules : List Rule) where
  pub record Ready (p : ℕ) (waiting : List ℕ) (fs : FeatureSet) : Type 0 where
    pub sorted : IsSorted waiting
    pub low : (q : ℕ) → contains q waiting ≡ true → p ≤ q
    pub high : (q : ℕ) → contains q waiting ≡ true → q < length rules
    pub complete :
        (q : ℕ)
        → p ≤ q
        → hit (new rules) q (IndexMap.keys feature_eq fs) ≡ true
        → contains q waiting ≡ true

  pub Ready-candidates :
      (fs : FeatureSet) → Ready 0 (candidates (new rules) (IndexMap.keys feature_eq fs)) fs
  Ready-candidates fs = record {
    sorted = candidates-IsSorted (new rules) _;
    low = λ q c. omega arith;
    high = λ q c. hit-new-lt rules q _ (sym (contains-candidates (new rules) q _) ∙ c);
    complete = λ q l h. contains-candidates (new rules) q _ ∙ h;
  }

  -- a position that is not waiting is passed over
  pub Ready-skip :
      (p : ℕ) (waiting : List ℕ) (fs : FeatureSet)
      → Ready p waiting fs
      → contains p waiting ≡ false
      → Ready (suc p) waiting fs
  Ready-skip p waiting fs r absent = record {
    sorted = r.sorted;
    low = λ q c. above_of_absent p q waiting absent c (r.low q c);
    high = r.high;
    complete = λ q l h. r.complete q (omega arith) h;
  }

  -- the first position is taken, and nothing has matched
  pub Ready-tail :
      (p : ℕ) (waiting : List ℕ) (fs : FeatureSet)
      → Ready p (p ∷ waiting) fs
      → Ready (suc p) waiting fs
  Ready-tail p waiting fs r = record {
    sorted = r.sorted.1;
    low = λ q c. lt_of_Above p q waiting r.sorted.0 c;
    high = λ q c. r.high q (ground arith);
    complete = λ q l h. ground (arith, r.complete q (omega arith) h);
  }

  -- the first position has matched, and its match is published
  pub Ready-activate :
      (p : ℕ) (waiting : List ℕ) (fs after : FeatureSet)
      → Adds fs after
      → Ready p (p ∷ waiting) fs
      → Ready (suc p) (activate (new rules) p (new_keys fs after) waiting) after
  Ready-activate p waiting fs after h r = rw (new_keys-added fs after h) (record {
    sorted = activate-IsSorted (new rules) p h.added waiting t.sorted;
    low = λ q c. ground (arith, t.low q, contains-activate (new rules) p q h.added waiting);
    high = λ q c. ground (
      arith,
      t.high q,
      contains-activate (new rules) p q h.added waiting,
      led_by-new-lt rules q h.added,
    );
    complete = λ q l g.
        contains-activate (new rules) p q h.added waiting
        ∙ reached q l (
            sym (
              hit-append (new rules) q (IndexMap.keys feature_eq fs) h.added h.no_string h.no_bytes
                h.no_os)
            ∙ ap (hit (new rules) q) (sym h.keys_eq)
            ∙ g);
  })
    where
      t : Ready (suc p) waiting fs
      t = Ready-tail p waiting fs r

      reached :
          (q : ℕ)
          → suc p ≤ q
          → (hit (new rules) q (IndexMap.keys feature_eq fs) || led_by (new rules) q h.added) ≡ true
          → (contains q waiting || (ltb p q && led_by (new rules) q h.added)) ≡ true
      reached q l g = elim (Bool-cases (hit (new rules) q (IndexMap.keys feature_eq fs))) [
        | inl e ↦ ground (arith, t.complete q l e)
        | inr e ↦ ground (arith, rw e at g)
      ]
