-- ===== src/Capabilities/Matching/Published.antt =====
-- What the publication of a match adds to the keys of a feature set: match features alone.
use capa_x.Prelude.{
  ◌≡◌, refl, sym, ap, ◌∙◌, Bool, true, false, String, List, [], ◌∷◌, ◌++◌, any, any-append, arith,
  length, drop, drop-append, append-nil, append_assoc, if◌then◌else◌,
}
use capa_x.IndexMap
use capa_x.Address.{Address}
use capa_x.Features.{Feature, matched_rule, feature_eq, is_string, is_bytes, is_os}
use capa_x.Rules.{Rule}
use capa_x.Engine.FeatureSet.{FeatureSet, insert_many}
use capa_x.Engine.Namespaces.{index_rule_matches, insert_all, published}
use capa_x.Capabilities.Matching.{new_keys}

abbrev keys : FeatureSet → List Feature
keys fs = IndexMap.keys feature_eq fs

pub record Adds (before after : FeatureSet) : Type 0 where
  pub added : List Feature
  pub keys_eq : IndexMap.keys feature_eq after ≡ IndexMap.keys feature_eq before ++ added
  pub no_string : any is_string added ≡ false
  pub no_bytes : any is_bytes added ≡ false
  pub no_os : any is_os added ≡ false

Adds-refl : (fs : FeatureSet) → Adds fs fs
Adds-refl fs = record {
  added = [];
  keys_eq = sym (append-nil _);
  no_string = refl;
  no_bytes = refl;
  no_os = refl;
}

Adds-trans : (a b c : FeatureSet) → Adds a b → Adds b c → Adds a c
Adds-trans a b c h g = record {
  added = h.added ++ g.added;
  keys_eq =
      g.keys_eq
      ∙ ap (λ (l : List Feature). l ++ g.added) h.keys_eq
      ∙ append_assoc (keys a) h.added g.added;
  no_string = any-append is_string h.added g.added ∙ ground (arith, h.no_string, g.no_string);
  no_bytes = any-append is_bytes h.added g.added ∙ ground (arith, h.no_bytes, g.no_bytes);
  no_os = any-append is_os h.added g.added ∙ ground (arith, h.no_os, g.no_os);
}

no_kind :
    (p : Feature → Bool) (name : String) (b : Bool)
    → p (matched_rule name) ≡ false
    → any p (if b then [] else matched_rule name ∷ []) ≡ false
no_kind p name true h = refl
no_kind p name false h = ground arith

Adds-insert_many :
    (fs : FeatureSet) (name : String) (locations : List Address)
    → Adds fs (insert_many fs (matched_rule name) locations)
unfolding insert_many
Adds-insert_many fs name locations = record {
  added =
      if IndexMap.contains_key feature_eq (matched_rule name) fs
      then []
      else matched_rule name ∷ [];
  keys_eq = IndexMap.keys-entry feature_eq (matched_rule name) _ _ fs;
  no_string = no_kind is_string name _ refl;
  no_bytes = no_kind is_bytes name _ refl;
  no_os = no_kind is_os name _ refl;
}

Adds-insert_all :
    (fs : FeatureSet) (names : List String) (locations : List Address)
    → Adds fs (insert_all fs names locations)
unfolding insert_all
Adds-insert_all fs [] locations = Adds-refl fs
Adds-insert_all fs (name ∷ names) locations =
    Adds-trans _ _ _ (Adds-insert_many fs name locations)
      (Adds-insert_all (insert_many fs (matched_rule name) locations) names locations)

pub Adds-index_rule_matches :
    (fs : FeatureSet) (rule : Rule) (locations : List Address)
    → Adds fs (index_rule_matches fs rule locations)
unfolding index_rule_matches
Adds-index_rule_matches fs rule locations = Adds-insert_all fs (published rule) locations

length-keys : (fs : FeatureSet) → length (keys fs) ≡ length fs
length-keys [] = refl
length-keys ((k, v) ∷ fs) = ap Prim.Native.Nat.suc (length-keys fs)

-- The keys behind the first `features.len()` are the added ones.
pub new_keys-added :
    (before after : FeatureSet) (h : Adds before after) → new_keys before after ≡ h.added
new_keys-added before after h =
    ap (drop (length before)) h.keys_eq
    ∙ ap (λ n. drop n (keys before ++ h.added)) (sym (length-keys before))
    ∙ drop-append (keys before) h.added
