-- ===== src/Scope/Supported/Nesting.antt =====
-- A scope that encloses another one has all of its features.
use capa_x.Rules.Error.{RuleError}
use capa_x.Prelude.{
  if◌then◌else◌, String, Bool, true, false, Option, none, some, List, [], ◌∷◌, ◌&&◌, ◌||◌, not, ◌≡◌,
  refl, arith, all, any-append, str_eq, str_eq_iff, subst,
}
use capa_x.Prelude.Result.{Result, ok, err}
use capa_x.Features.{Feature, com_object, characteristic}
use capa_x.Scope.{Scope, Scopes, scope_eq, file}
use capa_x.Scope.Names.{is_subscope_compatible, all_scopes, of_all_scopes}
use capa_x.Scope.Supported.{
  FeatureKind, ScopeFeatures, kind_eq, kind_in, text_in, flavor_features, supported_features,
  merge_into, extend_both, allows, kind_allowed, feature_kind, scopes_features,
  ensure_feature_valid_for_scopes,
}

-- The first flavor encloses the second, and is not the file scope, whose features are its own.
abbrev pub encloses : Option Scope → Option Scope → Bool
encloses outer none = true
encloses none (some inner) = false
encloses (some outer) (some inner) =
    is_subscope_compatible (some outer) inner && not (scope_eq outer file)

abbrev includes : ScopeFeatures → ScopeFeatures → Bool
includes a b =
    all (λ k. kind_in k a.kinds) b.kinds && all (λ v. text_in v a.characteristics) b.characteristics

kind_in_trans :
    (k l : FeatureKind) (ks : List FeatureKind)
    → kind_in l ks ≡ true
    → kind_eq l k ≡ true
    → kind_in k ks ≡ true
kind_in_trans k l [] h e = cc
kind_in_trans k l (m ∷ ks) h e = ground (arith, kind_in_trans k l ks)

kind_in-subset :
    (k : FeatureKind) (ks ls : List FeatureKind)
    → all (λ l. kind_in l ks) ls ≡ true
    → kind_in k ls ≡ true
    → kind_in k ks ≡ true
kind_in-subset k ks [] h e = cc
kind_in-subset k ks (l ∷ ls) h e = ground (arith, kind_in-subset k ks ls, kind_in_trans k l ks)

text_in_trans :
    (s t : String) (ts : List String)
    → text_in t ts ≡ true
    → str_eq t s ≡ true
    → text_in s ts ≡ true
text_in_trans s t ts h e = subst (λ q. text_in q ts ≡ true) ((str_eq_iff t s).0 e) h

text_in-subset :
    (s : String) (ss ts : List String)
    → all (λ t. text_in t ss) ts ≡ true
    → text_in s ts ≡ true
    → text_in s ss ≡ true
text_in-subset s ss [] h e = cc
text_in-subset s ss (t ∷ ts) h e = ground (arith, text_in-subset s ss ts, text_in_trans s t ss)

abbrev nested : Scope → Scope → Bool
nested outer inner =
    not (encloses (some outer) (some inner))
    || includes (flavor_features (some outer)) (flavor_features (some inner))

all-nested : all (λ outer. all (nested outer) all_scopes) all_scopes ≡ true
unfolding flavor_features supported_features merge_into is_subscope_compatible
all-nested = refl

of_implied : (a b : Bool) → (not a || b) ≡ true → a ≡ true → b ≡ true
of_implied a b h k = ground arith

flavor_nested :
    (outer inner : Option Scope)
    → encloses outer inner ≡ true
    → includes (flavor_features outer) (flavor_features inner) ≡ true
unfolding flavor_features
flavor_nested outer none h = refl
flavor_nested none (some inner) h = cc
flavor_nested (some outer) (some inner) h =
    of_implied (encloses (some outer) (some inner)) _
      (of_all_scopes (nested outer)
        (of_all_scopes (λ o. all (nested o) all_scopes) all-nested outer) inner)
      h

kinds_nested :
    (k : FeatureKind) (a b c d : ScopeFeatures)
    → includes c a ≡ true
    → includes d b ≡ true
    → kind_in k (extend_both a b).kinds ≡ true
    → kind_in k (extend_both c d).kinds ≡ true
kinds_nested k a b c d f g h = ground (
  arith,
  any-append (λ m. kind_eq m k) a.kinds b.kinds,
  any-append (λ m. kind_eq m k) c.kinds d.kinds,
  kind_in-subset k c.kinds a.kinds,
  kind_in-subset k d.kinds b.kinds,
)

texts_nested :
    (s : String) (a b c d : ScopeFeatures)
    → includes c a ≡ true
    → includes d b ≡ true
    → text_in s (extend_both a b).characteristics ≡ true
    → text_in s (extend_both c d).characteristics ≡ true
texts_nested s a b c d f g h = ground (
  arith,
  any-append (λ t. str_eq t s) a.characteristics b.characteristics,
  any-append (λ t. str_eq t s) c.characteristics d.characteristics,
  text_in-subset s c.characteristics a.characteristics,
  text_in-subset s d.characteristics b.characteristics,
)

-- The scopes whose flavors enclose those of others.
abbrev pub all_enclose : Scopes → Scopes → Bool
all_enclose outer inner =
    encloses outer.static_ inner.static_ && encloses outer.dynamic inner.dynamic

-- The features of enclosed scopes, each flavor with what encloses it.
module _ (outer inner : Scopes) (h : all_enclose outer inner ≡ true) where
  static_nested : includes (flavor_features outer.static_) (flavor_features inner.static_) ≡ true
  static_nested = flavor_nested outer.static_ inner.static_ (ground arith)

  dynamic_nested : includes (flavor_features outer.dynamic) (flavor_features inner.dynamic) ≡ true
  dynamic_nested = flavor_nested outer.dynamic inner.dynamic (ground arith)

  kind_allowed_nested :
      (kind : Option FeatureKind)
      → kind_allowed kind (scopes_features inner) ≡ true
      → kind_allowed kind (scopes_features outer) ≡ true
  kind_allowed_nested none k = refl
  kind_allowed_nested (some kind) k =
      kinds_nested kind (flavor_features inner.static_) (flavor_features inner.dynamic)
        (flavor_features outer.static_) (flavor_features outer.dynamic) static_nested dynamic_nested
        k

  allows_nested :
      (feature : Feature)
      → allows (scopes_features inner) feature ≡ true
      → allows (scopes_features outer) feature ≡ true
  allows_nested (com_object kind name) k = refl
  allows_nested (characteristic value) k =
      texts_nested value (flavor_features inner.static_) (flavor_features inner.dynamic)
        (flavor_features outer.static_) (flavor_features outer.dynamic) static_nested dynamic_nested
        k
  allows_nested f k = kind_allowed_nested (feature_kind f) k

verdict : Bool → RuleError → Result RuleError (Unit {0})
verdict a e = if a then ok tt else err e

ok_of_allows : (a : Bool) (e : RuleError) → verdict a e ≡ ok tt → a ≡ true
unfolding verdict
ok_of_allows true e h = refl
ok_of_allows false e h = cc

-- A feature that is valid for some scopes is valid for all that enclose them flavor by flavor, if no
-- enclosing one is the file scope.
pub ensure_feature_valid_for_scopes-nested :
    (outer inner : Scopes) (feature : Feature)
    → all_enclose outer inner ≡ true
    → ensure_feature_valid_for_scopes inner feature ≡ ok tt
    → ensure_feature_valid_for_scopes outer feature ≡ ok tt
unfolding ensure_feature_valid_for_scopes verdict
ensure_feature_valid_for_scopes-nested outer inner feature h k =
    rw (allows_nested outer inner h feature (ok_of_allows _ _ k)) refl
