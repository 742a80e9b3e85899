-- ===== src/Engine/Meaning/Full.antt =====
-- The full pass, which collects the evidence, succeeds exactly when the body holds.
use capa_x.Prelude.{
  ◌∙◌, ℕ, ◌+◌, ◌≤◌, ◌≡◌, refl, ap, inl, inr, String, Bool, false, not, ◌&&◌, ◌||◌, Option, [], ◌∷◌,
  leb, arith, Option-cases,
}
use capa_x.Prelude.Result.{Result, ok, err, ◌>>=◌}
use capa_x.Features.{Feature, substring, regex, string, bytes, os, com_object}
use capa_x.Features.Regex.{RegexCrates}
use capa_x.Rules.{Node, Statement, NodeList, node, length_nodes}
use capa_x.Engine.FeatureSet.{FeatureSet}
use capa_x.Engine.MatchResult.{
  EngineError, MatchResult, ResultList, success, all_success, any_success, count_success,
}
use capa_x.Engine.Leaves.{
  StringMatch, by_substring, by_regex, string_matches, string_scan, Scan, empty_scan, eval_leaf,
  eval_string_scan, eval_bytes, eval_os, bytes_test, os_test, string_value, hit,
}
use capa_x.Engine.Evaluate.{evaluate, eval_statement, eval_all}
use capa_x.Engine.Boolean.{any_key, on_string, evaluate_boolean}
use capa_x.Engine.Agreement.{first_hit-any_key, exact-contains, range-agrees}
use capa_x.Engine.Meaning.Ranges.{range-meaning}
use capa_x.Engine.Meaning.{
  leaf_holds, holds, statement_holds, all_hold, any_holds, count_holding, count_bool, IsSized,
  AllSized, StatementIsSized, IsInhabited, Agrees,
}
use capa_x.Engine.Meaning.Boolean.{node-meaning, count_bool-le}

scan_any_full :
    (crates : RegexCrates) (matcher : StringMatch) (needle : String) (fs : FeatureSet) (s : Scan)
    → (string_scan crates matcher needle false fs s).any
      ≡ (s.any || any_key (on_string (string_matches crates matcher needle)) fs)
unfolding string_scan
scan_any_full crates matcher needle [] s = ground arith
scan_any_full crates matcher needle ((feature, locs) ∷ fs) s =
    elim (Option-cases (string_value feature)) [
      | inl e ↦ ground (arith, e, scan_any_full crates matcher needle fs s)
      | inr v ↦ ground (
        arith,
        v.1,
        scan_any_full crates matcher needle fs s,
        scan_any_full crates matcher needle fs (hit v.0 locs s),
      )
    ]

abbrev Succeeds : Result EngineError MatchResult → Bool → Type 0
Succeeds (ok r) x = success r ≡ x
Succeeds (err e) x = Unit

leaf-full :
    (crates : RegexCrates) (fs : FeatureSet) (d : Option String) (feature : Feature)
    → Succeeds (eval_leaf crates feature fs false d) (leaf_holds crates fs feature)
unfolding eval_leaf leaf_holds
leaf-full crates fs d (string (substring needle)) =
    unfold eval_string_scan string_matches in scan_any_full crates by_substring needle fs empty_scan
leaf-full crates fs d (string (regex re)) =
    unfold eval_string_scan string_matches in
    scan_any_full crates (by_regex re) re.raw fs empty_scan
leaf-full crates fs d (bytes needle) =
    unfold eval_bytes in first_hit-any_key (bytes needle) d (bytes_test needle) fs
leaf-full crates fs d (os query) =
    unfold eval_os in first_hit-any_key (os query) d (os_test query) fs
leaf-full crates fs d (com_object kind name) = tt
leaf-full crates fs d feature = exact-contains feature d fs

-- what the results of all children say together
record Counts (rs : ResultList) (every some_one : Bool) (count : ℕ) : Type 0 where
  every_one : all_success rs ≡ every
  some_one_of : any_success rs ≡ some_one
  how_many : count_success rs ≡ count

abbrev AllCount : Result EngineError ResultList → Bool → Bool → ℕ → Type 0
AllCount (ok rs) every some_one count = Counts rs every some_one count
AllCount (err e) every some_one count = Unit

Succeeds-bind :
    (m : Result EngineError MatchResult) (k : MatchResult → Result EngineError MatchResult)
    (x y : Bool)
    → Succeeds m x
    → ((r : MatchResult) → success r ≡ x → Succeeds (k r) y)
    → Succeeds (m >>= k) y
Succeeds-bind (ok r) k x y h g = g r h
Succeeds-bind (err e) k x y h g = tt

AllCount-bind :
    (m : Result EngineError ResultList) (k : ResultList → Result EngineError MatchResult)
    (every some_one : Bool) (count : ℕ) (y : Bool)
    → AllCount m every some_one count
    → ((rs : ResultList) → Counts rs every some_one count → Succeeds (k rs) y)
    → Succeeds (m >>= k) y
AllCount-bind (ok rs) k every some_one count y h g = g rs h
AllCount-bind (err e) k every some_one count y h g = tt

count_cons :
    (m : Result EngineError MatchResult) (ms : Result EngineError ResultList) (x : Bool)
    (every some_one : Bool) (count : ℕ)
    → Succeeds m x
    → AllCount ms every some_one count
    → AllCount
        (m >>= λ r. ms >>= λ rs. ok (ResultList.cons r rs))
        (x && every)
        (x || some_one)
        (count_bool x + count)
count_cons (err e) ms x every some_one count h g = tt
count_cons (ok r) (err e) x every some_one count h g = tt
count_cons (ok r) (ok rs) x every some_one count h g = record {
  every_one = cc (h, g.every_one);
  some_one_of = cc (h, g.some_one_of);
  how_many = ground (arith, h, g.how_many);
}

count_holding-le :
    (crates : RegexCrates) (fs : FeatureSet) (cs : NodeList)
    → count_holding crates fs cs ≤ length_nodes cs
unfolding holds length_nodes
count_holding-le crates fs NodeList.nil = omega arith
count_holding-le crates fs (NodeList.cons c cs) =
    omega (arith, count_bool-le (holds crates fs c), count_holding-le crates fs cs)

module _ (crates : RegexCrates) (fs : FeatureSet) where
  mutual
    unfolding evaluate holds IsSized

    pub node-full :
        (n : Node) → IsSized n → Succeeds (evaluate crates n fs false) (holds crates fs n)
    node-full (node stmt d) s = statement-full stmt d s

    statement-full :
        (stmt : Statement) (d : Option String)
        → StatementIsSized stmt
        → Succeeds (eval_statement crates stmt fs false d) (statement_holds crates fs stmt)
    statement-full (Statement.and cs) d s =
        AllCount-bind (eval_all crates cs fs false) _ _ _ _ _ (list-full cs s) (λ rs h. h.every_one)
    statement-full (Statement.or cs) d s =
        AllCount-bind (eval_all crates cs fs false) _ _ _ _ _ (list-full cs s)
          (λ rs h. h.some_one_of)
    statement-full (Statement.not child) d s =
        Succeeds-bind (evaluate crates child fs false) _ _ _ (node-full child s) (λ r h. ap not h)
    statement-full (Statement.some_of count cs) d s =
        AllCount-bind (eval_all crates cs fs false) _ _ _ _ _ (list-full cs s.1)
          (λ rs h. ap (leb count) (omega (arith, h.how_many, s.0, count_holding-le crates fs cs)))
    statement-full (Statement.range feature min max) d s =
        range-agrees feature min max fs d ∙ range-meaning feature min max fs
    statement-full (Statement.subscope scope body) d s = tt
    statement-full (Statement.leaf feature) d s = leaf-full crates fs d feature

    list-full :
        (cs : NodeList)
        → AllSized cs
        → AllCount
            (eval_all crates cs fs false)
            (all_hold crates fs cs)
            (any_holds crates fs cs)
            (count_holding crates fs cs)
    list-full NodeList.nil s = record { every_one = refl; some_one_of = refl; how_many = refl }
    list-full (NodeList.cons c cs) s =
        count_cons (evaluate crates c fs false) (eval_all crates cs fs false) (holds crates fs c) _
          _ _ (node-full c s.0) (list-full cs s.1)

success_of_Agrees :
    (m : Result EngineError Bool) (f : Result EngineError MatchResult) (x b : Bool)
    (r : MatchResult)
    → Agrees m x
    → Succeeds f x
    → m ≡ ok b
    → f ≡ ok r
    → success r ≡ b
success_of_Agrees (ok c) (ok q) x b r h g p e = cc
success_of_Agrees (err c) f x b r h g p e = cc
success_of_Agrees (ok c) (err q) x b r h g p e = cc

-- Where every `N or more` has fewer than 2^32 children and a positive count or a child, a Boolean
-- pass and a full pass that both return have one outcome.
pub success-evaluate_boolean :
    (crates : RegexCrates) (n : Node) (fs : FeatureSet) (b : Bool) (r : MatchResult)
    → IsSized n
    → IsInhabited n
    → evaluate_boolean crates n fs ≡ ok b
    → evaluate crates n fs false ≡ ok r
    → success r ≡ b
success-evaluate_boolean crates n fs b r s i h k =
    success_of_Agrees _ _ _ b r (node-meaning crates fs n s i) (node-full crates fs n s) h k
