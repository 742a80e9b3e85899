-- ===== src/Capabilities/SpanOfCalls/Window.antt =====
-- The live set of `SpanOfCallsMatcher` of capa-x/src/capabilities/dynamic_analysis.rs against its
-- window, which is the last calls.
use capa_x.Prelude.{
  ℕ, suc, ◌-◌, ◌≡◌, refl, sym, ap, ◌∙◌, subst, true, false, List, [], ◌∷◌, ◌++◌, arith, length,
  drop, any, any-append, map, length-drop, length-append, drop_within, drop-drop, ◌==◌, Bool-cases,
  inl, inr, leb, if◌then◌else◌, append_assoc, zero, append-nil,
}
use capa_x.Prelude.Result.{Result, ok, err, ◌>>=◌}
use capa_x.SortedSet.{is_eq}
use capa_x.Address.{Address, no_address, cmp}
use capa_x.Address.Order.{address_ord}
use capa_x.Features.{Feature}
use capa_x.Engine.FeatureSet.{FeatureSet, merge}
use capa_x.Engine.FeatureSet.Has.{has, has-merge}
use capa_x.Engine.MatchResult.{EngineError}
use capa_x.Capabilities.Matching.{MatchResults}
use capa_x.Capabilities.Matcher.{Matcher}
use capa_x.Capabilities.SpanOfCalls.Located.{
  IsLocated, AreLocated, IsLocated-merge, IsLocated-slide,
}
use capa_x.Capabilities.SpanOfCalls.Forgotten.{has-forget_all}
use capa_x.Capabilities.SpanOfCalls.{span_size, SpanOfCallsMatcher, new, slide, next, with_matches}

-- No location of a feature is in two of the sets; that of the global features does not count.
abbrev pub IsApart : List FeatureSet → Type 0
IsApart [] = Unit
IsApart (s ∷ sets) =
    ((f : Feature) (loc : Address)
      → is_eq (cmp loc no_address) ≡ false
      → has f loc s ≡ true
      → any (has f loc) sets ≡ false)
    × IsApart sets

IsApart-drop : (n : ℕ) (sets : List FeatureSet) → IsApart sets → IsApart (drop n sets)
IsApart-drop zero sets h = h
IsApart-drop (suc n) [] h = h
IsApart-drop (suc n) (s ∷ sets) h = IsApart-drop n sets h.1

IsApart-append : (sets more : List FeatureSet) → IsApart (sets ++ more) → IsApart sets
IsApart-append [] more h = tt
IsApart-append (s ∷ sets) more h = (
  λ f loc away k. ground (arith, h.0 f loc away k, any-append (has f loc) sets more),
  IsApart-append sets more h.1,
)

-- the last sets, as many as a span has
abbrev pub last_sets : List FeatureSet → List FeatureSet
last_sets sets = drop (length sets - span_size) sets

-- the live set has what the sets of the window have
abbrev IsLive : List FeatureSet → FeatureSet → Type 0
IsLive sets fs =
    (f : Feature) (loc : Address)
    → is_eq (cmp loc no_address) ≡ false
    → has f loc fs ≡ any (has f loc) sets

slide-IsLive :
    (sets : List FeatureSet) (fs : FeatureSet)
    → IsApart sets
    → IsLive sets fs
    → IsLive (slide sets fs).0 (slide sets fs).1
unfolding slide
slide-IsLive [] fs apart live = live
slide-IsLive (s ∷ sets) fs apart live = elim (Bool-cases (length (s ∷ sets) == span_size)) [
  | inl e ↦ rw e (λ f loc away.
      ground (arith, has-forget_all f loc fs s away, live f loc away, apart.0 f loc away))
  | inr e ↦ rw e live
]

slide-drop :
    (sets : List FeatureSet) (fs : FeatureSet)
    → (slide sets fs).0 ≡ (if length sets == span_size then drop 1 sets else sets)
unfolding slide
slide-drop [] fs = refl
slide-drop (s ∷ sets) fs = elim (Bool-cases (length (s ∷ sets) == span_size)) [
  | inl e ↦ rw e refl
  | inr e ↦ rw e refl
]

-- the window after the slide and a push
slide-last_sets :
    (sets : List FeatureSet) (fs : FeatureSet) (call : FeatureSet)
    → (slide (last_sets sets) fs).0 ++ call ∷ [] ≡ last_sets (sets ++ call ∷ [])
slide-last_sets sets fs call = elim (Bool-cases (leb span_size (length sets))) [
  | inl e ↦
      let full : (length (last_sets sets) == span_size) ≡ true =
        ground (arith, length-drop (length sets - span_size) sets) in
      let count : length (sets ++ call ∷ []) - span_size ≡ suc (length sets - span_size) =
        ground (arith, length-append sets (call ∷ [])) in
      rw (slide-drop (last_sets sets) fs, full, drop-drop (length sets - span_size) sets, count)
        (sym (drop_within (suc (length sets - span_size)) sets (call ∷ []) (ground arith)))
  | inr e ↦
      let part : (length (last_sets sets) == span_size) ≡ false =
        ground (arith, length-drop (length sets - span_size) sets) in
      let none_left : length sets - span_size ≡ 0 = ground arith in
      let count : length (sets ++ call ∷ []) - span_size ≡ 0 =
        ground (arith, length-append sets (call ∷ [])) in
      rw (slide-drop (last_sets sets) fs, part, none_left, count) refl
]

-- what `next` leaves of the window and of the live set, whatever matches
next_window :
    (rule_set : Matcher) (m m' : SpanOfCallsMatcher) (addr : Address) (call : FeatureSet)
    → next rule_set m addr call ≡ ok m'
    → (m'.current_feature_sets ≡ (slide m.current_feature_sets m.current_features).0 ++ call ∷ [])
      × (m'.current_features ≡ merge (slide m.current_feature_sets m.current_features).1 call)
unfolding next
next_window rule_set m m' addr call h = after _ h
  where
    slid : List FeatureSet × FeatureSet
    slid = slide m.current_feature_sets m.current_features

    after :
        (matches : Result EngineError MatchResults)
        → (matches >>= λ found.
            ok (with_matches rule_set m (slid.0 ++ call ∷ []) (merge slid.1 call) found))
          ≡ ok m'
        → (m'.current_feature_sets ≡ slid.0 ++ call ∷ [])
          × (m'.current_features ≡ merge slid.1 call)
    after (ok found) e =
        let same : with_matches rule_set m (slid.0 ++ call ∷ []) (merge slid.1 call) found ≡ m' =
          cc in
        (ap (λ s. s.current_feature_sets) (sym same), ap (λ s. s.current_features) (sym same))
    after (err x) e = cc

-- The calls of a thread in their order.
abbrev pub spans :
    Matcher
    → SpanOfCallsMatcher
    → List (Address × FeatureSet)
    → Result EngineError SpanOfCallsMatcher
spans rule_set m [] = ok m
spans rule_set m ((addr, call) ∷ calls) =
    next rule_set m addr call >>= λ m'. spans rule_set m' calls

abbrev pub sets_of : List (Address × FeatureSet) → List FeatureSet
sets_of calls = map (λ c. c.1) calls

-- the window is the last sets, and the live set has what they have
record IsWindow (before : List FeatureSet) (m : SpanOfCallsMatcher) : Type 0 where
  window : m.current_feature_sets ≡ last_sets before
  live : IsLive m.current_feature_sets m.current_features
  located : IsLocated m.current_features

module _ (rule_set : Matcher) where
  next-IsWindow :
      (before : List FeatureSet) (m m' : SpanOfCallsMatcher) (addr : Address) (call : FeatureSet)
      → IsApart before
      → IsLocated call
      → IsWindow before m
      → next rule_set m addr call ≡ ok m'
      → IsWindow (before ++ call ∷ []) m'
  next-IsWindow before m m' addr call apart full w h =
      let left = next_window rule_set m m' addr call h in
      let in_window : IsApart m.current_feature_sets =
        subst IsApart (sym w.window) (IsApart-drop (length before - span_size) before apart) in
      let slid = slide-IsLive m.current_feature_sets m.current_features in_window w.live in
      record {
        window =
            left.0
            ∙ ap (λ sets. (slide sets m.current_features).0 ++ call ∷ []) w.window
            ∙ slide-last_sets before m.current_features call;
        live = λ f loc away.
            rw (left.0, left.1)
              (has-merge f loc (slide m.current_feature_sets m.current_features).1 call
                ∙ ground (
                  arith,
                  slid f loc away,
                  any-append (has f loc) (slide m.current_feature_sets m.current_features).0
                      (call ∷ []),
                ));
        located = subst IsLocated (sym left.1) (
            IsLocated-merge (slide m.current_feature_sets m.current_features).1 call
              (IsLocated-slide m.current_feature_sets m.current_features w.located) full);
      }

  spans-IsWindow :
      (calls : List (Address × FeatureSet)) (before : List FeatureSet) (m m' : SpanOfCallsMatcher)
      → IsApart (before ++ sets_of calls)
      → AreLocated (sets_of calls)
      → IsWindow before m
      → spans rule_set m calls ≡ ok m'
      → IsWindow (before ++ sets_of calls) m'
  spans-IsWindow [] before m m' apart full w h =
      let same : m ≡ m' = cc in
      subst (λ sets. IsWindow sets m') (sym (append-nil before)) (subst (IsWindow before) same w)
  spans-IsWindow ((addr, call) ∷ calls) before m m' apart full w h =
      let shift = append_assoc before (call ∷ []) (sets_of calls) in
      let shifted : IsApart ((before ++ call ∷ []) ++ sets_of calls) =
        subst IsApart (sym shift) apart in
      subst (λ sets. IsWindow sets m') shift
        (step (spans-IsWindow calls (before ++ call ∷ [])) shifted (next rule_set m addr call) refl
          h)
    where
      step :
          ((m1 m2 : SpanOfCallsMatcher)
            → IsApart ((before ++ call ∷ []) ++ sets_of calls)
            → AreLocated (sets_of calls)
            → IsWindow (before ++ call ∷ []) m1
            → spans rule_set m1 calls ≡ ok m2
            → IsWindow ((before ++ call ∷ []) ++ sets_of calls) m2)
          → IsApart ((before ++ call ∷ []) ++ sets_of calls)
          → (r : Result EngineError SpanOfCallsMatcher) → next rule_set m addr call ≡ r
          → (r >>= λ m1. spans rule_set m1 calls) ≡ ok m'
          → IsWindow ((before ++ call ∷ []) ++ sets_of calls) m'
      step ih shifted (ok m1) e k =
          ih m1 m' shifted full.1
            (next-IsWindow before m m1 addr call
              (IsApart-append before (call ∷ sets_of calls) apart) full.0 w e)
            k
      step ih shifted (err x) e k = cc

-- When every feature of a call has a location there, and no location of a feature is in two calls,
-- locations that are no address left aside, the window after any number of calls is the last twenty, what
-- a span is matched against has exactly the features and locations of these, no address left aside, and
-- no feature stays in it without a location.
pub spans-last_sets :
    (rule_set : Matcher) (calls : List (Address × FeatureSet)) (m : SpanOfCallsMatcher)
    (f : Feature) (loc : Address)
    → is_eq (cmp loc no_address) ≡ false
    → IsApart (sets_of calls)
    → AreLocated (sets_of calls)
    → spans rule_set new calls ≡ ok m
    → (m.current_feature_sets ≡ last_sets (sets_of calls))
      × ((has f loc m.current_features ≡ any (has f loc) (last_sets (sets_of calls)))
          × IsLocated m.current_features)
spans-last_sets rule_set calls m f loc away apart full h =
    let first : IsWindow [] new = record { window = refl; live = λ g l a. refl; located = tt } in
    let w = spans-IsWindow rule_set calls [] new m apart full first h in
    (w.window, (w.live f loc away ∙ ap (any (has f loc)) w.window, w.located))
