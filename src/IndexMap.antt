-- ===== src/IndexMap.antt =====
-- `IndexMap`, and `HashMap` where only lookups matter: an association list in the order of first
-- insertion, under a Boolean equality of keys.
use capa_x.Prelude.{
  ◌≡◌, refl, Bool, true, false, ◌||◌, Option, none, some, List, [], ◌∷◌, arith, if◌then◌else◌, ◌++◌,
  Bool-cases, inl, sym, append-nil, inr, ap,
}

module _ {ℓ κ} {K : Type ℓ} {V : Type κ} (eq : K → K → Bool) where
  abbrev pub get : K → List (K × V) → Option V
  get k [] = none
  get k ((j, v) ∷ m) = if eq j k then some v else get k m

  abbrev pub contains_key : K → List (K × V) → Bool
  contains_key k [] = false
  contains_key k ((j, v) ∷ m) = eq j k || contains_key k m

  -- `map.entry(k)`: a vacant entry goes to the end with `new`, an occupied one is changed by `f`
  unfoldable pub entry : K → V → (V → V) → List (K × V) → List (K × V)
  entry k new f [] = (k, new) ∷ []
  entry k new f ((j, v) ∷ m) = if eq j k then (j, f v) ∷ m else (j, v) ∷ entry k new f m

  -- A key equal to `k` is in the map.
  abbrev pub HasKey : K → List (K × V) → Type 0
  HasKey k m = contains_key k m ≡ true

  pub contains-get :
      (k : K) (m : List (K × V))
      → contains_key k m ≡ elim (get k m) [ none ↦ false | some _ ↦ true ]
  contains-get k [] = refl
  contains-get k ((j, v) ∷ m) = ground (arith, contains-get k m)

  pub contains-entry_self :
      (k : K) (new : V) (f : V → V) (m : List (K × V))
      → eq k k ≡ true
      → contains_key k (entry k new f m) ≡ true
  unfolding entry
  contains-entry_self k new f [] h = ground arith
  contains-entry_self k new f ((j, v) ∷ m) h = ground (arith, contains-entry_self k new f m h)

  -- An insertion removes no key.
  pub contains-entry_mono :
      (l k : K) (new : V) (f : V → V) (m : List (K × V))
      → contains_key l m ≡ true
      → contains_key l (entry k new f m) ≡ true
  unfolding entry
  contains-entry_mono l k new f [] h = cc
  contains-entry_mono l k new f ((j, v) ∷ m) h = ground (arith, contains-entry_mono l k new f m)

  abbrev pub keys : List (K × V) → List K
  keys [] = []
  keys ((k, v) ∷ m) = k ∷ keys m

  abbrev pub after_entry : V → (V → V) → Option V → V
  after_entry new f none = new
  after_entry new f (some v) = f v

  -- The laws of a map whose key equality is symmetric and transitive.
  module _ (eq_sym : (a b : K) → eq a b ≡ true → eq b a ≡ true)
      (eq_trans : (a b c : K) → eq a b ≡ true → eq b c ≡ true → eq a c ≡ true) where
    pub get-entry :
        (l k : K) (new : V) (f : V → V) (m : List (K × V))
        → get l (entry k new f m) ≡ (if eq k l then some (after_entry new f (get l m)) else get l m)
    unfolding entry
    get-entry l k new f [] = ground arith
    get-entry l k new f ((j, v) ∷ m) = ground (
      arith,
      get-entry l k new f m,
      eq_trans j k l,
      eq_trans k j l,
      eq_trans j l k,
      eq_sym j k,
      eq_sym k l,
    )

  -- An entry leaves the keys that are there where they are.
  pub keys-entry :
      (k : K) (new : V) (f : V → V) (m : List (K × V))
      → keys (entry k new f m) ≡ keys m ++ (if contains_key k m then [] else k ∷ [])
  unfolding entry
  keys-entry k new f [] = refl
  keys-entry k new f ((j, v) ∷ m) = elim (Bool-cases (eq j k)) [
    | inl e ↦ rw e (sym (append-nil _))
    | inr e ↦ rw e (ap (◌∷◌ j) (keys-entry k new f m))
  ]
