-- ===== src/Capabilities/Build/Lookup.antt =====
-- The matcher finds in a set that was built what the index of a scope was made from.
use capa_x.Prelude.{
  All, ℕ, zero, suc, ◌≡◌, refl, sym, ap, ◌∙◌, String, Bool, true, false, Option, none, some, List,
  [], ◌∷◌, str_eq, Bool-cases, inl, inr, get_elem?, if◌then◌else◌,
}
use capa_x.IndexMap
use capa_x.Scope.{Scope}
use capa_x.Rules.{Rule}
use capa_x.Rules.Graph.{by_name}
use capa_x.Rules.Graph.Order.{str_eq_sym, str_eq_trans}
use capa_x.Capabilities.Build.{names_in_scope, rules_named, rules_by_name, found_in_scope}

abbrev or_else : Option Rule → Option Rule → Option Rule
or_else none o = o
or_else (some r) o = some r

after : (rule : Rule) (o : Option Rule) → IndexMap.after_entry str_eq rule (λ old. rule) o ≡ rule
after rule none = refl
after rule (some old) = refl

get-rules_by_name :
    (name : String) (rules : List Rule) (m : List (String × Rule))
    → IndexMap.get str_eq name (rules_by_name rules m)
      ≡ or_else (by_name rules name) (IndexMap.get str_eq name m)
unfolding rules_by_name by_name
get-rules_by_name name [] m = refl
get-rules_by_name name (rule ∷ rules) m =
    get-rules_by_name name rules (IndexMap.entry str_eq rule.name rule (λ old. rule) m)
    ∙ ap (or_else (by_name rules name)) (
        IndexMap.get-entry str_eq str_eq_sym str_eq_trans name rule.name rule (λ old. rule) m
        ∙ rw (after rule (IndexMap.get str_eq name m)) refl)
    ∙ go (by_name rules name) (str_eq rule.name name)
  where
    go :
        (o : Option Rule) (b : Bool)
        → or_else o (if b then some rule else IndexMap.get str_eq name m)
          ≡ or_else
              (elim o [ some found ↦ some found | none ↦ if b then some rule else none ])
              (IndexMap.get str_eq name m)
    go none true = refl
    go none false = refl
    go (some r) b = refl

abbrev pub is_found : Option Rule → Bool
is_found none = false
is_found (some rule) = true

abbrev pub AllFound : List Rule → List String → Type 0
AllFound rules names = All (λ n. is_found (by_name rules n) ≡ true) names

found : (scope : Scope) (o : Option Rule) → found_in_scope scope o ≡ true → is_found o ≡ true
found scope none h = cc
found scope (some rule) h = refl

-- every name of a scope's order is of a rule
pub names_in_scope-AllFound :
    (rules : List Rule) (scope : Scope) (names : List String)
    → AllFound rules (names_in_scope rules scope names)
unfolding names_in_scope
names_in_scope-AllFound rules scope [] = tt
names_in_scope-AllFound rules scope (name ∷ names) =
    elim (Bool-cases (found_in_scope scope (by_name rules name))) [
      | inl e ↦ rw e (found scope (by_name rules name) e, names_in_scope-AllFound rules scope names)
      | inr e ↦ rw e (names_in_scope-AllFound rules scope names)
    ]

abbrev pub found_at : List Rule → Option String → Option Rule
found_at rules none = none
found_at rules (some name) = by_name rules name

not_found : (o : Option Rule) → o ≡ none → is_found o ≡ true → ⊥
not_found o h k = cc

pub rules_named-found :
    (rules : List Rule) (name : String) (names : List String) (r : Rule)
    → by_name rules name ≡ some r
    → rules_named rules (name ∷ names) ≡ r ∷ rules_named rules names
unfolding rules_named
rules_named-found rules name names r e = rw (e, rules_named) refl

pub get-rules_named :
    (rules : List Rule) (names : List String) (i : ℕ)
    → AllFound rules names
    → found_at rules (get_elem? names i) ≡ get_elem? (rules_named rules names) i
unfolding rules_named
get-rules_named rules [] i h = refl
get-rules_named rules (name ∷ names) i h =
    at (λ j. get-rules_named rules names j h.1) (by_name rules name) i refl
  where
    at :
        ((j : ℕ) → found_at rules (get_elem? names j) ≡ get_elem? (rules_named rules names) j)
        → (o : Option Rule) (i : ℕ) → by_name rules name ≡ o
        → found_at rules (get_elem? (name ∷ names) i)
          ≡ get_elem? (rules_named rules (name ∷ names)) i
    at later none i e = absurd (not_found (by_name rules name) e h.0)
    at later (some r) zero e =
        e ∙ ap (λ l. get_elem? l 0) (sym (rules_named-found rules name names r e))
    at later (some r) (suc i) e =
        later i ∙ ap (λ l. get_elem? l (suc i)) (sym (rules_named-found rules name names r e))

pub get-rules_by_name-nil :
    (name : String) (rules : List Rule)
    → IndexMap.get str_eq name (rules_by_name rules []) ≡ by_name rules name
get-rules_by_name-nil name rules = get-rules_by_name name rules [] ∙ none_else (by_name rules name)
  where
    none_else : (o : Option Rule) → or_else o none ≡ o
    none_else none = refl
    none_else (some r) = refl
