-- ===== src/Engine/Namespaces.antt =====
-- `rule_namespaces` and `index_rule_matches` of capa-x/src/engine.rs: a match is published under the
-- rule's name and under every prefix of its namespace.
use Prim.Native.Char.{Char, code}
use capa_x.Prelude.{
  true, false, subst, ℕ, zero, suc, String, none, some, List, [], ◌∷◌, ◌++◌, map, ◌==◌,
  if◌then◌else◌, ◌≡◌, ◌<◌, arith, refl, Option-cases, Option, Bool, inl, ◌∙◌, inr, true, ap,
}
use capa_x.Prelude.Text.{before_last}
use capa_x.Address.{Address}
use capa_x.Features.{matched_rule}
use capa_x.Rules.{Rule}
use capa_x.Engine.FeatureSet.{FeatureSet, insert_many}

unfoldable pub length_text : String → ℕ
length_text String.[] = 0
length_text (String.◌∷◌ c rest) = suc (length_text rest)

-- `successors(Some(ns), |ns| ns.rfind('/').map(|i| &ns[..i]))`, for as many steps as there is fuel
unfoldable pub successors : ℕ → String → List String
successors zero ns = []
successors (suc fuel) ns =
    ns ∷ elim (before_last b'/' ns) [ none ↦ [] | some parent ↦ successors fuel parent ]

-- a step is shorter by a character at least, so that one step per character is enough
unfoldable pub rule_namespaces : String → List String
unfolding successors length_text
rule_namespaces namespace = successors (suc (length_text namespace)) namespace

-- the texts before each `/`, from the last to the first
unfoldable pub ancestors : String → List String
ancestors String.[] = []
ancestors (String.◌∷◌ c rest) =
    map (String.◌∷◌ c) (ancestors rest) ++ (if code c == b'/' then "" ∷ [] else [])

unfoldable pub insert_all : FeatureSet → List String → List Address → FeatureSet
insert_all fs [] locations = fs
insert_all fs (name ∷ names) locations =
    insert_all (insert_many fs (matched_rule name) locations) names locations

abbrev pub published : Rule → List String
published rule =
    rule.name ∷ elim rule.namespace [ none ↦ [] | some namespace ↦ rule_namespaces namespace ]

unfoldable pub index_rule_matches : FeatureSet → Rule → List Address → FeatureSet
index_rule_matches fs rule locations = insert_all fs (published rule) locations

abbrev chain : Option String → List String
chain none = []
chain (some p) = p ∷ ancestors p

ancestors_step :
    (c : Char) (rest : String) (o : Option String) (b : Bool)
    → ancestors rest ≡ chain o
    → map (String.◌∷◌ c) (ancestors rest) ++ (if b then "" ∷ [] else [])
      ≡ map (String.◌∷◌ c) (chain o) ++ (if b then "" ∷ [] else [])
ancestors_step c rest o b h = rw h refl

before_last-ancestors : (s : String) → ancestors s ≡ chain (before_last b'/' s)
unfolding ancestors before_last
before_last-ancestors String.[] = refl
before_last-ancestors (String.◌∷◌ c rest) =
    ancestors_step c rest (before_last b'/' rest) (code c == b'/') (before_last-ancestors rest)
    ∙ go (before_last b'/' rest) (code c == b'/') refl
  where
    go :
        (o : Option String) (b : Bool)
        → code c == b'/' ≡ b
        → map (String.◌∷◌ c) (chain o) ++ (if b then "" ∷ [] else [])
          ≡ chain (elim o [
            | none ↦ if b then some "" else none
            | some found ↦ some (String.◌∷◌ c found)
          ])
    go none true e = refl
    go none false e = refl
    go (some p) b e = rw e refl

shorter_step :
    (c : Char) (n : ℕ) (o : Option String) (b : Bool) (p : String)
    → ((q : String) → o ≡ some q → length_text q < n)
    → elim o [ none ↦ if b then some "" else none | some found ↦ some (String.◌∷◌ c found) ]
      ≡ some p
    → length_text p < suc n
unfolding length_text
shorter_step c n none true p ih h =
    let e : "" ≡ p = cc in subst (λ q. length_text q < suc n) e (omega arith)
shorter_step c n none false p ih h = cc
shorter_step c n (some q) b p ih h =
    let e : String.◌∷◌ c q ≡ p = cc in
    subst (λ t. length_text t < suc n) e (omega (arith, ih q refl))

before_last-shorter : (s p : String) → before_last b'/' s ≡ some p → length_text p < length_text s
unfolding before_last length_text
before_last-shorter String.[] p h = cc
before_last-shorter (String.◌∷◌ c rest) p h =
    shorter_step c (length_text rest) (before_last b'/' rest) (code c == b'/') p
      (λ q. before_last-shorter rest q) h

successors_step :
    (fuel : ℕ) (s : String) (o : Option String)
    → before_last b'/' s ≡ o
    → successors (suc fuel) s ≡ s ∷ elim o [ none ↦ [] | some parent ↦ successors fuel parent ]
unfolding successors
successors_step fuel s o e = rw e refl

successors-ancestors :
    (fuel : ℕ) (s : String) → length_text s < fuel → successors fuel s ≡ s ∷ ancestors s
successors-ancestors zero s h = absurd (omega arith)
successors-ancestors (suc fuel) s h = elim (Option-cases (before_last b'/' s)) [
  | inl e ↦ successors_step fuel s none e ∙ rw (before_last-ancestors s, e) refl
  | inr v ↦
      successors_step fuel s (some v.0) v.1
      ∙ rw (before_last-ancestors s, v.1)
          (ap (◌∷◌ s)
            (successors-ancestors fuel v.0 (omega (arith, before_last-shorter s v.0 v.1))))
]

-- The namespaces of a rule are its namespace and every prefix of it that ends before a `/`, from
-- the longest to the shortest.
pub rule_namespaces-ancestors : (ns : String) → rule_namespaces ns ≡ ns ∷ ancestors ns
rule_namespaces-ancestors ns =
    unfold rule_namespaces in successors-ancestors (suc (length_text ns)) ns (omega arith)
