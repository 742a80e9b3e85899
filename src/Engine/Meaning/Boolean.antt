-- ===== src/Engine/Meaning/Boolean.antt =====
-- The Boolean pass decides what the body says.
use capa_x.Prelude.{
  ℕ, ◌+◌, ◌<◌, ◌≡◌, refl, ap, ◌⊎◌, inl, inr, Bool, true, false, not, leb, arith, Bool-cases,
  u32_mod, ◌≤◌,
}
use capa_x.Prelude.Result.{Result, ok, err, ◌>>=◌, map_ok}
use capa_x.Features.{Feature, substring, regex, string, bytes, os, com_object}
use capa_x.Features.Regex.{RegexCrates}
use capa_x.Rules.{Node, Statement, NodeList, node, length_nodes}
use capa_x.Engine.FeatureSet.{FeatureSet}
use capa_x.Engine.Evaluate.{bump}
use capa_x.Engine.Boolean.{
  leaf_boolean, evaluate_boolean, statement_boolean, and_boolean, or_boolean, some_boolean,
}
use capa_x.Engine.Meaning.Ranges.{range-meaning}
use capa_x.Engine.Meaning.{
  leaf_holds, holds, statement_holds, all_hold, any_holds, count_holding, count_bool, IsSized,
  AllSized, StatementIsSized, IsInhabited, AllInhabited, StatementIsInhabited, Agrees, IsExtracted,
  LeafIsExtracted, StatementIsExtracted, AllExtracted,
}

pub Agrees-bind {ℓ} :
    {E : Type ℓ} (m : Result E Bool) (k : Bool → Result E Bool) (x y : Bool)
    → Agrees m x
    → Agrees (k x) y
    → Agrees (m >>= k) y
Agrees-bind (ok b) k x y h g = rw h g
Agrees-bind (err e) k x y h g = tt

Agrees-not {ℓ} :
    {E : Type ℓ} (m : Result E Bool) (x : Bool) → Agrees m x → Agrees (map_ok not m) (not x)
Agrees-not (ok b) x h = ap not h
Agrees-not (err e) x h = tt

leaf-meaning :
    (crates : RegexCrates) (fs : FeatureSet) (feature : Feature)
    → Agrees (leaf_boolean crates feature fs) (leaf_holds crates fs feature)
unfolding leaf_boolean leaf_holds
leaf-meaning crates fs (string (substring needle)) = refl
leaf-meaning crates fs (string (regex re)) = refl
leaf-meaning crates fs (bytes needle) = refl
leaf-meaning crates fs (os query) = refl
leaf-meaning crates fs (com_object kind name) = tt
leaf-meaning crates fs feature = refl

-- one round of the loop of `Some`, where the counter does not wrap
bump-eq :
    (b : Bool) (satisfied : ℕ)
    → satisfied + 1 < u32_mod
    → bump b satisfied ≡ satisfied + count_bool b
bump-eq true satisfied h = omega arith
bump-eq false satisfied h = omega arith

pub count_bool-le : (b : Bool) → count_bool b ≤ 1
count_bool-le true = omega arith
count_bool-le false = omega arith

enough :
    (count satisfied total : ℕ)
    → leb count satisfied ≡ true
    → satisfied ≤ total
    → true ≡ leb count total
enough count satisfied total h k = ground arith

not_leb : (count satisfied : ℕ) → leb count satisfied ≡ false → satisfied < count
not_leb count satisfied h = ground arith

module _ (crates : RegexCrates) (fs : FeatureSet) where
  mutual
    unfolding evaluate_boolean holds IsSized IsInhabited length_nodes

    pub node-meaning :
        (n : Node)
        → IsSized n
        → IsInhabited n
        → Agrees (evaluate_boolean crates n fs) (holds crates fs n)
    node-meaning (node stmt d) s i = statement-meaning stmt s i

    statement-meaning :
        (stmt : Statement)
        → StatementIsSized stmt
        → StatementIsInhabited stmt
        → Agrees (statement_boolean crates stmt fs) (statement_holds crates fs stmt)
    statement-meaning (Statement.and cs) s i = and-meaning cs s i
    statement-meaning (Statement.or cs) s i = or-meaning cs s i
    statement-meaning (Statement.not child) s i = Agrees-not _ _ (node-meaning child s i)
    statement-meaning (Statement.some_of count cs) s i =
        some-meaning count cs 0 _ s.1 i.1 (omega (arith, s.0)) i.0 (omega arith)
    statement-meaning (Statement.range feature min max) s i = range-meaning feature min max fs
    statement-meaning (Statement.subscope scope body) s i = tt
    statement-meaning (Statement.leaf feature) s i = leaf-meaning crates fs feature

    and-meaning :
        (cs : NodeList)
        → AllSized cs
        → AllInhabited cs
        → Agrees (and_boolean crates cs fs) (all_hold crates fs cs)
    and-meaning NodeList.nil s i = refl
    and-meaning (NodeList.cons c cs) s i =
        Agrees-bind (evaluate_boolean crates c fs) _ (holds crates fs c) _ (node-meaning c s.0 i.0)
          (elim (Bool-cases (holds crates fs c)) [
            | inl e ↦ rw e (and-meaning cs s.1 i.1)
            | inr e ↦ rw e refl
          ])

    or-meaning :
        (cs : NodeList)
        → AllSized cs
        → AllInhabited cs
        → Agrees (or_boolean crates cs fs) (any_holds crates fs cs)
    or-meaning NodeList.nil s i = refl
    or-meaning (NodeList.cons c cs) s i =
        Agrees-bind (evaluate_boolean crates c fs) _ (holds crates fs c) _ (node-meaning c s.0 i.0)
          (elim (Bool-cases (holds crates fs c)) [
            | inl e ↦ rw e refl
            | inr e ↦ rw e (or-meaning cs s.1 i.1)
          ])

    some-meaning :
        (count : ℕ) (cs : NodeList) (satisfied total : ℕ)
        → AllSized cs
        → AllInhabited cs
        → satisfied + length_nodes cs < u32_mod
        → (satisfied < count) ⊎ (0 < length_nodes cs)
        → total ≡ satisfied + count_holding crates fs cs
        → Agrees (some_boolean crates count cs fs satisfied) (leb count total)
    some-meaning count NodeList.nil satisfied total s i small more e = ground arith
    some-meaning count (NodeList.cons c cs) satisfied total s i small more e =
        let b = holds crates fs c in
        let q = bump-eq b satisfied (omega arith) in
        Agrees-bind (evaluate_boolean crates c fs) _ b _ (node-meaning c s.0 i.0)
          (elim (Bool-cases (leb count (bump b satisfied))) [
            | inl done ↦ rw done (enough count (bump b satisfied) total done (omega (arith, q)))
            | inr missing ↦ rw missing (
                some-meaning count cs (bump b satisfied) total s.1 i.1
                  (omega (arith, q, count_bool-le b))
                  (inl (not_leb count (bump b satisfied) missing)) (omega (arith, q)))
          ])

abbrev pub IsOk {ℓ κ} : {E : Type ℓ} {A : Type κ} → Result E A → Type 0
IsOk (ok a) = Unit
IsOk (err e) = ⊥

pub IsOk-bind {ℓ κ μ} :
    {E : Type ℓ} {A : Type κ} {B : Type μ} (m : Result E A) (k : A → Result E B)
    → IsOk m
    → ((a : A) → IsOk (k a))
    → IsOk (m >>= k)
IsOk-bind (ok a) k h g = g a
IsOk-bind (err e) k h g = absurd h

IsOk-not {ℓ} : {E : Type ℓ} (m : Result E Bool) → IsOk m → IsOk (map_ok not m)
IsOk-not (ok b) h = tt
IsOk-not (err e) h = h

leaf-IsOk :
    (crates : RegexCrates) (fs : FeatureSet) (feature : Feature)
    → LeafIsExtracted feature
    → IsOk (leaf_boolean crates feature fs)
unfolding leaf_boolean
leaf-IsOk crates fs (string (substring needle)) h = tt
leaf-IsOk crates fs (string (regex re)) h = tt
leaf-IsOk crates fs (com_object kind name) h = h
leaf-IsOk crates fs feature h = tt

module _ (crates : RegexCrates) (fs : FeatureSet) where
  mutual
    unfolding evaluate_boolean IsExtracted

    pub node-IsOk : (n : Node) → IsExtracted n → IsOk (evaluate_boolean crates n fs)
    node-IsOk (node stmt d) h = statement-IsOk stmt h

    statement-IsOk :
        (stmt : Statement) → StatementIsExtracted stmt → IsOk (statement_boolean crates stmt fs)
    statement-IsOk (Statement.and cs) h = and-IsOk cs h
    statement-IsOk (Statement.or cs) h = or-IsOk cs h
    statement-IsOk (Statement.not child) h = IsOk-not _ (node-IsOk child h)
    statement-IsOk (Statement.some_of count cs) h = some-IsOk count cs 0 h
    statement-IsOk (Statement.range feature min max) h = tt
    statement-IsOk (Statement.subscope scope body) h = h
    statement-IsOk (Statement.leaf feature) h = leaf-IsOk crates fs feature h

    and-IsOk : (cs : NodeList) → AllExtracted cs → IsOk (and_boolean crates cs fs)
    and-IsOk NodeList.nil h = tt
    and-IsOk (NodeList.cons c cs) h =
        IsOk-bind (evaluate_boolean crates c fs) _ (node-IsOk c h.0)
          (elim [ true ↦ and-IsOk cs h.1 | false ↦ tt ])

    or-IsOk : (cs : NodeList) → AllExtracted cs → IsOk (or_boolean crates cs fs)
    or-IsOk NodeList.nil h = tt
    or-IsOk (NodeList.cons c cs) h =
        IsOk-bind (evaluate_boolean crates c fs) _ (node-IsOk c h.0)
          (elim [ true ↦ tt | false ↦ or-IsOk cs h.1 ])

    some-IsOk :
        (count : ℕ) (cs : NodeList) (satisfied : ℕ)
        → AllExtracted cs
        → IsOk (some_boolean crates count cs fs satisfied)
    some-IsOk count NodeList.nil satisfied h = tt
    some-IsOk count (NodeList.cons c cs) satisfied h =
        IsOk-bind (evaluate_boolean crates c fs) _ (node-IsOk c h.0) λ b.
          elim (Bool-cases (leb count (bump b satisfied))) [
            | inl done ↦ rw done tt
            | inr missing ↦ rw missing (some-IsOk count cs (bump b satisfied) h.1)
          ]

ok_of_Agrees {ℓ} : {E : Type ℓ} (m : Result E Bool) (x : Bool) → Agrees m x → IsOk m → m ≡ ok x
ok_of_Agrees (ok b) x h k = ap ok h
ok_of_Agrees (err e) x h k = absurd k

-- On a body whose subscopes and COM leaves have been expanded, where every `N or more` has fewer
-- than 2^32 children and a positive count or a child, the Boolean pass returns what the body says.
pub evaluate_boolean-holds :
    (crates : RegexCrates) (n : Node) (fs : FeatureSet)
    → IsExtracted n
    → IsSized n
    → IsInhabited n
    → evaluate_boolean crates n fs ≡ ok (holds crates fs n)
evaluate_boolean-holds crates n fs e s i =
    ok_of_Agrees _ _ (node-meaning crates fs n s i) (node-IsOk crates fs n e)
