-- ===== src/Capabilities/DynamicAnalysis/Calls.antt =====
-- The loop over the calls of a thread in capa-x/src/capabilities/dynamic_analysis.rs: what it hands
-- to the thread and to the matcher of spans of calls.
use capa_x.Prelude.{◌≡◌, refl, subst, ◌||◌, List, [], ◌∷◌, arith, any}
use capa_x.Prelude.Result.{ok, bind-ok}
use capa_x.Address.{Address}
use capa_x.Features.{Feature}
use capa_x.Engine.FeatureSet.{FeatureSet, merge}
use capa_x.Engine.FeatureSet.Has.{has, has-merge}
use capa_x.Freeze.{CallFeatures}
use capa_x.Capabilities.Matching.{MatchResults}
use capa_x.Capabilities.Matcher.{Matcher}
use capa_x.Capabilities.Driver.{extend_matches}
use capa_x.Capabilities.SpanOfCalls
use capa_x.Capabilities.SpanOfCalls.{SpanOfCallsMatcher}
use capa_x.Capabilities.SpanOfCalls.Window.{spans, sets_of}
use capa_x.Capabilities.DynamicAnalysis.{CallsState, find_call_capabilities, calls_loop}

module _ (rule_set : Matcher) (global_features : List Feature) where
  -- each call with the feature set that the matching of it leaves
  abbrev pub AreMatched : List (Address × CallFeatures) → List (Address × FeatureSet) → Type 0
  AreMatched [] [] = Unit
  AreMatched ((addr, call) ∷ calls) ((a, fs) ∷ sets) =
      ((addr ≡ a)
        × ((matches : MatchResults) × (find_call_capabilities rule_set global_features addr
                call.features
              ≡ ok (fs, matches))))
      × AreMatched calls sets
  AreMatched _ _ = ⊥

  -- the sets of the calls, what the matcher of spans makes of them, and what the thread gets
  pub record AreGathered (calls : List (Address × CallFeatures)) (s s' : CallsState) : Type 0 where
    pub sets : List (Address × FeatureSet)
    pub matched : AreMatched calls sets
    pub spanned : spans rule_set s.span_matcher sets ≡ ok s'.span_matcher
    pub gathered :
        (f : Feature) (loc : Address)
        → has f loc s'.features ≡ (has f loc s.features || any (has f loc) (sets_of sets))

  abbrev after_call : CallsState → FeatureSet × MatchResults → SpanOfCallsMatcher → CallsState
  after_call s r m = record {
    features = merge s.features r.0;
    call_matches = extend_matches s.call_matches r.1;
    span_matcher = m;
  }

  one_more :
      (addr : Address) (call : CallFeatures) (calls : List (Address × CallFeatures))
      (s s' : CallsState) (r : FeatureSet × MatchResults) (m : SpanOfCallsMatcher)
      → find_call_capabilities rule_set global_features addr call.features ≡ ok r
      → SpanOfCalls.next rule_set s.span_matcher addr r.0 ≡ ok m
      → AreGathered calls (after_call s r m) s'
      → AreGathered ((addr, call) ∷ calls) s s'
  one_more addr call calls s s' r m e k rest = record {
    sets = (addr, r.0) ∷ rest.sets;
    matched = ((refl, (r.1, e)), rest.matched);
    spanned = rw k rest.spanned;
    gathered = λ f loc. ground (arith, rest.gathered f loc, has-merge f loc s.features r.0);
  }

  -- When the loop ends, the matcher of spans has taken the feature set of every call, as the matching
  -- of the call leaves it, in the order of the calls, and the thread has gained exactly the features and
  -- locations of these sets.
  pub calls_loop-AreGathered :
      (calls : List (Address × CallFeatures)) (s s' : CallsState)
      → calls_loop rule_set global_features calls s ≡ ok s'
      → AreGathered calls s s'
  unfolding calls_loop
  calls_loop-AreGathered [] s s' h =
      let same : s ≡ s' = cc in
      subst (AreGathered [] s) same
        (record { sets = []; matched = tt; spanned = refl; gathered = λ f loc. ground arith })
  calls_loop-AreGathered ((addr, call) ∷ calls) s s' h =
      let v = bind-ok (find_call_capabilities rule_set global_features addr call.features) _ s' h in
      let w = bind-ok (SpanOfCalls.next rule_set s.span_matcher addr v.0.0) _ s' v.1.1 in
      one_more addr call calls s s' v.0 w.0 v.1.0 w.1.0
        (calls_loop-AreGathered calls (after_call s v.0 w.0) s' w.1.1)
