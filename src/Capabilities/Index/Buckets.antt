-- ===== src/Capabilities/Index/Buckets.antt =====
-- The buckets of the index only grow, and a registered feature leads to its position.
use capa_x.Prelude.{
  ℕ, ◌≡◌, refl, ◌∙◌, Bool, true, false, ◌||◌, Option, none, some, List, [], ◌∷◌, ◌++◌, arith, ◌==◌,
  if◌then◌else◌, All, Bool-cases, inl, inr,
}
use capa_x.Ordered.{nat_ord}
use capa_x.SortedSet.{contains}
use capa_x.IndexMap
use capa_x.Features.{Feature, feature_eq}
use capa_x.Features.Equality.{feature_eq_sym, feature_eq_trans}
use capa_x.Capabilities.Index.{
  RuleFeatureIndex, last_is, push_new, positions_or_empty, exact_positions, register_all, string,
  register, substring, plain, regex,
}

pub contains-append :
    (q : ℕ) (xs ys : List ℕ) → contains q (xs ++ ys) ≡ (contains q xs || contains q ys)
contains-append q [] ys = refl
contains-append q (x ∷ xs) ys = ground (arith, contains-append q xs ys)

contains_of_last_is : (p : ℕ) (xs : List ℕ) → last_is p xs ≡ true → contains p xs ≡ true
contains_of_last_is p [] h = cc
contains_of_last_is p (x ∷ []) h = ground arith
contains_of_last_is p (x ∷ y ∷ xs) h = ground (arith, contains_of_last_is p (y ∷ xs))

contains_at : (q p : ℕ) (xs : List ℕ) → q ≡ p → contains p xs ≡ true → contains q xs ≡ true
contains_at q p xs e h = rw e h

pub contains-push_new :
    (q p : ℕ) (xs : List ℕ) → contains q (push_new p xs) ≡ (q == p || contains q xs)
unfolding push_new
contains-push_new q p xs =
    ground (arith, contains_of_last_is p xs, contains_at q p xs, contains-append q xs (p ∷ []))

-- Every position of one index is in the same bucket of the other.
pub record Extends (a b : RuleFeatureIndex) : Type 0 where
  pub exact :
      (k : Feature) (q : ℕ)
      → contains q (exact_positions a k) ≡ true
      → contains q (exact_positions b k) ≡ true
  pub strings : (q : ℕ) → contains q a.strings ≡ true → contains q b.strings ≡ true
  pub bytes : (q : ℕ) → contains q a.bytes ≡ true → contains q b.bytes ≡ true
  pub os : (q : ℕ) → contains q a.os ≡ true → contains q b.os ≡ true
  pub always : (q : ℕ) → contains q a.always ≡ true → contains q b.always ≡ true

pub Extends-refl : (a : RuleFeatureIndex) → Extends a a
Extends-refl a = record {
  exact = λ k q h. h;
  strings = λ q h. h;
  bytes = λ q h. h;
  os = λ q h. h;
  always = λ q h. h;
}

pub Extends-trans : (a b c : RuleFeatureIndex) → Extends a b → Extends b c → Extends a c
Extends-trans a b c h g = record {
  exact = λ k q x. g.exact k q (h.exact k q x);
  strings = λ q x. g.strings q (h.strings q x);
  bytes = λ q x. g.bytes q (h.bytes q x);
  os = λ q x. g.os q (h.os q x);
  always = λ q x. g.always q (h.always q x);
}

push_keeps :
    (p : ℕ) (xs : List ℕ) (q : ℕ) → contains q xs ≡ true → contains q (push_new p xs) ≡ true
push_keeps p xs q h = contains-push_new q p xs ∙ ground arith

push_adds : (p : ℕ) (xs : List ℕ) → contains p (push_new p xs) ≡ true
push_adds p xs = contains-push_new p p xs ∙ ground arith

-- the bucket of `k` after an insertion under `f`
pub exact_entry :
    (index : RuleFeatureIndex) (p : ℕ) (f k : Feature)
    → positions_or_empty (
        IndexMap.get feature_eq k
          (IndexMap.entry feature_eq f (push_new p []) (push_new p) index.exact))
      ≡ (if feature_eq f k then push_new p (exact_positions index k) else exact_positions index k)
exact_entry index p f k =
    rw
      (IndexMap.get-entry feature_eq feature_eq_sym feature_eq_trans k f (push_new p [])
        (push_new p) index.exact)
      (go (feature_eq f k) (IndexMap.get feature_eq k index.exact))
  where
    go :
        (b : Bool) (o : Option (List ℕ))
        → positions_or_empty
            (if b then some (IndexMap.after_entry feature_eq (push_new p []) (push_new p) o) else o)
          ≡ (if b then push_new p (positions_or_empty o) else positions_or_empty o)
    go true none = refl
    go true (some x) = refl
    go false o = refl

-- `f`, or any feature equal to it, leads to the position.
unfoldable pub Listed : RuleFeatureIndex → ℕ → Feature → Type 0
Listed index p (string (substring s)) = contains p index.strings ≡ true
Listed index p (string (regex re)) = contains p index.strings ≡ true
Listed index p (Feature.bytes b) = contains p index.bytes ≡ true
Listed index p (Feature.os s) = contains p index.os ≡ true
Listed index p f =
    (k : Feature) → feature_eq f k ≡ true → contains p (exact_positions index k) ≡ true

Listed-Extends :
    (a b : RuleFeatureIndex) (p : ℕ) (f : Feature) → Extends a b → Listed a p f → Listed b p f
unfolding Listed
Listed-Extends a b p (string (plain s)) e h = λ k q. e.exact k p (h k q)
Listed-Extends a b p (string (substring s)) e h = e.strings p h
Listed-Extends a b p (string (regex re)) e h = e.strings p h
Listed-Extends a b p (Feature.bytes c) e h = e.bytes p h
Listed-Extends a b p (Feature.os s) e h = e.os p h
Listed-Extends a b p f e h = λ k q. e.exact k p (h k q)

-- what one entry of the exact map gains
exact_keeps :
    (index : RuleFeatureIndex) (p : ℕ) (f k : Feature) (q : ℕ)
    → contains q (exact_positions index k) ≡ true
    → contains q (
        positions_or_empty (
          IndexMap.get feature_eq k
            (IndexMap.entry feature_eq f (push_new p []) (push_new p) index.exact)))
      ≡ true
exact_keeps index p f k q h = rw (exact_entry index p f k) (elim (Bool-cases (feature_eq f k)) [
  | inl e ↦ rw e (push_keeps p (exact_positions index k) q h)
  | inr e ↦ rw e h
])

exact_adds :
    (index : RuleFeatureIndex) (p : ℕ) (f k : Feature)
    → feature_eq f k ≡ true
    → contains p (
        positions_or_empty (
          IndexMap.get feature_eq k
            (IndexMap.entry feature_eq f (push_new p []) (push_new p) index.exact)))
      ≡ true
exact_adds index p f k e =
    rw (exact_entry index p f k) (rw e (push_adds p (exact_positions index k)))

changed_exact :
    (a : RuleFeatureIndex) (s : List (Feature × List ℕ))
    → ((k : Feature) (q : ℕ)
        → contains q (exact_positions a k) ≡ true
        → contains q (positions_or_empty (IndexMap.get feature_eq k s)) ≡ true)
    → Extends a (record a { exact = s })
changed_exact a s h = record {
  exact = h;
  strings = λ q x. x;
  bytes = λ q x. x;
  os = λ q x. x;
  always = λ q x. x;
}

changed_strings :
    (a : RuleFeatureIndex) (s : List ℕ)
    → ((q : ℕ) → contains q a.strings ≡ true → contains q s ≡ true)
    → Extends a (record a { strings = s })
changed_strings a s h = record {
  exact = λ k q x. x;
  strings = h;
  bytes = λ q x. x;
  os = λ q x. x;
  always = λ q x. x;
}

changed_bytes :
    (a : RuleFeatureIndex) (s : List ℕ)
    → ((q : ℕ) → contains q a.bytes ≡ true → contains q s ≡ true)
    → Extends a (record a { bytes = s })
changed_bytes a s h = record {
  exact = λ k q x. x;
  strings = λ q x. x;
  bytes = h;
  os = λ q x. x;
  always = λ q x. x;
}

changed_os :
    (a : RuleFeatureIndex) (s : List ℕ)
    → ((q : ℕ) → contains q a.os ≡ true → contains q s ≡ true)
    → Extends a (record a { os = s })
changed_os a s h = record {
  exact = λ k q x. x;
  strings = λ q x. x;
  bytes = λ q x. x;
  os = h;
  always = λ q x. x;
}

pub changed_always :
    (a : RuleFeatureIndex) (s : List ℕ)
    → ((q : ℕ) → contains q a.always ≡ true → contains q s ≡ true)
    → Extends a (record a { always = s })
changed_always a s h = record {
  exact = λ k q x. x;
  strings = λ q x. x;
  bytes = λ q x. x;
  os = λ q x. x;
  always = h;
}

register-Extends :
    (index : RuleFeatureIndex) (p : ℕ) (f : Feature) → Extends index (register index p f)
unfolding register
register-Extends index p (string (plain s)) =
    changed_exact index _ (exact_keeps index p (string (plain s)))
register-Extends index p (string (substring s)) =
    changed_strings index _ (push_keeps p index.strings)
register-Extends index p (string (regex re)) = changed_strings index _ (push_keeps p index.strings)
register-Extends index p (Feature.bytes b) = changed_bytes index _ (push_keeps p index.bytes)
register-Extends index p (Feature.os s) = changed_os index _ (push_keeps p index.os)
register-Extends index p f = changed_exact index _ (exact_keeps index p f)

register-Listed : (index : RuleFeatureIndex) (p : ℕ) (f : Feature) → Listed (register index p f) p f
unfolding register Listed
register-Listed index p (string (plain s)) = exact_adds index p (string (plain s))
register-Listed index p (string (substring s)) = push_adds p index.strings
register-Listed index p (string (regex re)) = push_adds p index.strings
register-Listed index p (Feature.bytes b) = push_adds p index.bytes
register-Listed index p (Feature.os s) = push_adds p index.os
register-Listed index p f = exact_adds index p f

pub register_all-Extends :
    (index : RuleFeatureIndex) (p : ℕ) (fs : List Feature) → Extends index (register_all index p fs)
unfolding register_all
register_all-Extends index p [] = Extends-refl index
register_all-Extends index p (f ∷ fs) =
    Extends-trans _ _ _ (register-Extends index p f)
      (register_all-Extends (register index p f) p fs)

abbrev pub AllListed : RuleFeatureIndex → ℕ → List Feature → Type 0
AllListed index p fs = All (Listed index p) fs

pub AllListed-Extends :
    (a b : RuleFeatureIndex) (p : ℕ) (fs : List Feature)
    → Extends a b
    → AllListed a p fs
    → AllListed b p fs
AllListed-Extends a b p [] e h = tt
AllListed-Extends a b p (f ∷ fs) e h =
    (Listed-Extends a b p f e h.0, AllListed-Extends a b p fs e h.1)

pub register_all-Listed :
    (index : RuleFeatureIndex) (p : ℕ) (fs : List Feature)
    → AllListed (register_all index p fs) p fs
unfolding register_all
register_all-Listed index p [] = tt
register_all-Listed index p (f ∷ fs) = (
  Listed-Extends _ _ p f (register_all-Extends (register index p f) p fs)
      (register-Listed index p f),
  register_all-Listed (register index p f) p fs,
)
