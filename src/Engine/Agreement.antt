-- ===== src/Engine/Agreement.antt =====
-- The Boolean pass computes the outcome of the short-circuiting pass, errors included.
use capa_x.Prelude.{ℕ, ◌≡◌, refl, sym, ap, String, Bool, true, not, ◌||◌, Option, [], ◌∷◌, arith}
use capa_x.Prelude.Result.{Result, ok, err, ◌>>=◌, map_ok}
use capa_x.Features.{Feature, substring, regex, string, bytes, os, com_object, feature_eq}
use capa_x.Features.Regex.{RegexCrates}
use capa_x.IndexMap
use capa_x.Rules.{Node, Statement, NodeList, node}
use capa_x.Engine.FeatureSet.{FeatureSet}
use capa_x.Engine.MatchResult.{MatchResult, MatchedNode, ResultList, EngineError, success, push}
use capa_x.Engine.Leaves.{
  eval_leaf, eval_range, eval_exact, exact_result, eval_bytes, eval_os, eval_string_scan,
  string_scan, first_hit, StringMatch, by_substring, by_regex, string_matches, Scan, empty_scan,
  bytes_test, os_test,
}
use capa_x.Engine.Evaluate.{
  evaluate, eval_statement, eval_and, eval_or, eval_some, bump, structural, structural,
}
use capa_x.Engine.Boolean.{
  any_key, on_string, leaf_boolean, range_boolean, evaluate_boolean, statement_boolean, and_boolean,
  or_boolean, some_boolean,
}

module _ {ℓ κ μ} {E : Type ℓ} {A : Type κ} {B : Type μ} where
  pub map-bind :
      (h : A → B) (k : A → Result E A) (g : B → Result E B)
      → ((a : A) → map_ok h (k a) ≡ g (h a))
      → (m : Result E A) → map_ok h (m >>= k) ≡ (map_ok h m >>= g)
  map-bind h k g e (ok a) = e a
  map-bind h k g e (err x) = refl

scan_any :
    (crates : RegexCrates) (matcher : StringMatch) (needle : String) (fs : FeatureSet) (s : Scan)
    → (string_scan crates matcher needle true fs s).any
      ≡ (s.any || any_key (on_string (string_matches crates matcher needle)) fs)
unfolding string_scan
scan_any crates matcher needle [] s = ground arith
scan_any crates matcher needle ((feature, locs) ∷ fs) s =
    ground (arith, scan_any crates matcher needle fs s)

pub first_hit-any_key :
    (query : Feature) (d : Option String) (test : Feature → Bool) (fs : FeatureSet)
    → success (exact_result query d (first_hit test fs)) ≡ any_key test fs
unfolding first_hit
first_hit-any_key query d test [] = refl
first_hit-any_key query d test ((feature, locs) ∷ fs) =
    ground (arith, first_hit-any_key query d test fs)

pub exact-contains :
    (feature : Feature) (d : Option String) (fs : FeatureSet)
    → success (eval_exact feature fs d) ≡ IndexMap.contains_key feature_eq feature fs
unfolding eval_exact
exact-contains feature d [] = refl
exact-contains feature d ((f, locs) ∷ fs) = ground (arith, exact-contains feature d fs)

pub range-agrees :
    (feature : Feature) (min : ℕ) (max : Option ℕ) (fs : FeatureSet) (d : Option String)
    → success (eval_range feature min max fs d) ≡ range_boolean feature min max fs
unfolding eval_range range_boolean
range-agrees feature min max fs d = ground arith

leaf-agrees :
    (crates : RegexCrates) (feature : Feature) (fs : FeatureSet) (d : Option String)
    → leaf_boolean crates feature fs ≡ map_ok success (eval_leaf crates feature fs true d)
unfolding leaf_boolean eval_leaf
leaf-agrees crates (string (substring needle)) fs d =
    unfold eval_string_scan string_matches in
    ap ok (sym (scan_any crates by_substring needle fs empty_scan))
leaf-agrees crates (string (regex re)) fs d =
    unfold eval_string_scan string_matches in
    ap ok (sym (scan_any crates (by_regex re) re.raw fs empty_scan))
leaf-agrees crates (bytes needle) fs d =
    unfold eval_bytes in ap ok (sym (first_hit-any_key (bytes needle) d (bytes_test needle) fs))
leaf-agrees crates (os query) fs d =
    unfold eval_os in ap ok (sym (first_hit-any_key (os query) d (os_test query) fs))
leaf-agrees crates (com_object kind name) fs d = refl
leaf-agrees crates feature fs d = ap ok (sym (exact-contains feature d fs))

not_agrees :
    (d : Option String) (m : Result EngineError MatchResult)
    → map_ok not (map_ok success m)
      ≡ map_ok success (
          m >>= λ r.
          ok (structural MatchedNode.not d (ResultList.cons r ResultList.nil) (not (success r))))
not_agrees d (ok r) = refl
not_agrees d (err e) = refl

module _ (crates : RegexCrates) (fs : FeatureSet) where
  mutual
    unfolding evaluate evaluate_boolean

    pub node-agrees :
        (n : Node) → evaluate_boolean crates n fs ≡ map_ok success (evaluate crates n fs true)
    node-agrees (node stmt d) = statement-agrees stmt d

    statement-agrees :
        (stmt : Statement) (d : Option String)
        → statement_boolean crates stmt fs ≡ map_ok success (eval_statement crates stmt fs true d)
    statement-agrees (Statement.and cs) d = and-agrees cs d ResultList.nil
    statement-agrees (Statement.or cs) d = or-agrees cs d ResultList.nil
    statement-agrees (Statement.not child) d =
        rw (node-agrees child) (not_agrees d (evaluate crates child fs true))
    statement-agrees (Statement.some_of count cs) d = some-agrees count cs d ResultList.nil 0
    statement-agrees (Statement.range feature min max) d =
        ap ok (sym (range-agrees feature min max fs d))
    statement-agrees (Statement.subscope scope body) d = refl
    statement-agrees (Statement.leaf feature) d = leaf-agrees crates feature fs d

    and-agrees :
        (cs : NodeList) (d : Option String) (results : ResultList)
        → and_boolean crates cs fs ≡ map_ok success (eval_and crates cs fs d results)
    and-agrees NodeList.nil d results = refl
    and-agrees (NodeList.cons c cs) d results = rw (node-agrees c) (
        sym (
          map-bind success _ _ (λ r. ground (arith, and-agrees cs d (push results r)))
            (evaluate crates c fs true)))

    or-agrees :
        (cs : NodeList) (d : Option String) (results : ResultList)
        → or_boolean crates cs fs ≡ map_ok success (eval_or crates cs fs d results)
    or-agrees NodeList.nil d results = refl
    or-agrees (NodeList.cons c cs) d results = rw (node-agrees c) (
        sym (
          map-bind success _ _ (λ r. ground (arith, or-agrees cs d (push results r)))
            (evaluate crates c fs true)))

    some-agrees :
        (count : ℕ) (cs : NodeList) (d : Option String) (results : ResultList) (satisfied : ℕ)
        → some_boolean crates count cs fs satisfied
          ≡ map_ok success (eval_some crates count cs fs d results satisfied)
    some-agrees count NodeList.nil d results satisfied = refl
    some-agrees count (NodeList.cons c cs) d results satisfied = rw (node-agrees c) (
        sym (
          map-bind success _ _
            (λ r.
              ground (arith, some-agrees count cs d (push results r) (bump (success r) satisfied)))
            (evaluate crates c fs true)))

-- The Boolean pass returns the outcome of the short-circuiting pass, or the same error.
pub evaluate_boolean-evaluate :
    (crates : RegexCrates) (n : Node) (fs : FeatureSet)
    → evaluate_boolean crates n fs ≡ map_ok success (evaluate crates n fs true)
evaluate_boolean-evaluate crates n fs = node-agrees crates fs n
