-- ===== src/Examples/Drivers.antt =====
-- The theorems on the drivers at small trees of features.
use capa_x.Prelude.{
  ℕ, zero, suc, ◌<◌, ◌≡◌, refl, true, false, none, some, List, [], ◌∷◌, arith, str_eq,
  if◌then◌else◌, any,
}
use capa_x.Prelude.Result.{Result, ok, err}
use capa_x.IndexMap
use capa_x.SortedSet.{is_eq}
use capa_x.Address.{Address, call, no_address, cmp}
use capa_x.Address.Order.{address_ord, eq_of_cmp}
use capa_x.Ordered.{lex}
use capa_x.Features.{api, feature_eq}
use capa_x.Scope.{Scope}
use capa_x.Engine.FeatureSet.{FeatureSet}
use capa_x.Engine.FeatureSet.Has.{has}
use capa_x.Engine.MatchResult.{MatchResult, match_result, MatchedNode, nil, EngineError}
use capa_x.Rules.Graph.Termination.{HasOutcome}
use capa_x.Capabilities.Matching.{match_scope}
use capa_x.Capabilities.Matching.Total.{match_scope-HasOutcome}
use capa_x.Capabilities.Matcher.{Matcher}
use capa_x.Capabilities.SpanOfCalls
use capa_x.Capabilities.SpanOfCalls.{SpanOfCallsMatcher, span_size}
use capa_x.Features.{Feature}
use capa_x.Capabilities.SpanOfCalls.Located.{IsLocated, AreLocated}
use capa_x.Capabilities.SpanOfCalls.Window.{spans, sets_of, last_sets, IsApart, spans-last_sets}
use capa_x.Examples.{literal_crates, two_rules, two_rule_set, writer, some_features, call_site}

-- a rule that every scope with a call of WriteFile matches
abbrev pub hit_of : Address → Address × MatchResult
hit_of addr = (addr, match_result true (MatchedNode.leaf (api "WriteFile")) none (addr ∷ []) nil [])

abbrev pub watcher : Matcher
watcher = record {
  get = λ name. if str_eq name "write file" then some writer else none;
  by_namespace_prefix = [];
  match_scope_results = λ scope fs addr. ok (
      if IndexMap.contains_key feature_eq (api "WriteFile") fs
      then ("write file", hit_of addr ∷ []) ∷ []
      else []);
}

abbrev pub first_call : Address
first_call = call 0 1 1 0

abbrev pub second_call : Address
second_call = call 0 1 1 1

-- the features of a call of CreateFile
abbrev file_call : ℕ → FeatureSet
file_call i = (api "CreateFile", call 0 1 1 i ∷ []) ∷ []

-- calls with the numbers from one on
unfoldable calls_from : ℕ → ℕ → List (Address × FeatureSet)
calls_from i zero = []
calls_from i (suc n) = (call 0 1 1 i, file_call i) ∷ calls_from (suc i) n

absent_later :
    (f : Feature) (loc : Address) (k i n : ℕ)
    → k < i
    → has f loc (file_call k) ≡ true
    → any (has f loc) (sets_of (calls_from i n)) ≡ false
unfolding calls_from
absent_later f loc k i zero less h = refl
absent_later f loc k i (suc n) less h = ground (
  arith,
  absent_later f loc k (suc i) n (omega arith) h,
  eq_of_cmp loc (call 0 1 1 k),
  eq_of_cmp loc (call 0 1 1 i),
)

calls_from-IsApart : (i n : ℕ) → IsApart (sets_of (calls_from i n))
unfolding calls_from
calls_from-IsApart i zero = tt
calls_from-IsApart i (suc n) =
    (λ f loc away h. absent_later f loc i (suc i) n (omega arith) h, calls_from-IsApart (suc i) n)

calls_from-AreLocated : (i n : ℕ) → AreLocated (sets_of (calls_from i n))
unfolding calls_from
calls_from-AreLocated i zero = tt
calls_from-AreLocated i (suc n) = ((tt, tt), calls_from-AreLocated (suc i) n)

abbrev many_calls : List (Address × FeatureSet)
many_calls = calls_from 0 23

abbrev matcher_of : Result EngineError SpanOfCallsMatcher → SpanOfCallsMatcher
matcher_of (ok m) = m
matcher_of (err e) = SpanOfCalls.new

many_calls_run :
    spans watcher SpanOfCalls.new many_calls
    ≡ ok (matcher_of (spans watcher SpanOfCalls.new many_calls))
unfolding SpanOfCalls.next SpanOfCalls.slide calls_from
many_calls_run = refl

first_call_is_an_address : is_eq (cmp first_call no_address) ≡ false
unfolding cmp lex
first_call_is_an_address = refl

-- the first three of these calls have left the window
spans-last_sets_example :
    ((matcher_of (spans watcher SpanOfCalls.new many_calls)).current_feature_sets
      ≡ last_sets (sets_of many_calls))
    × ((has
            (api "CreateFile")
            first_call
            (matcher_of (spans watcher SpanOfCalls.new many_calls)).current_features
          ≡ any (has (api "CreateFile") first_call) (last_sets (sets_of many_calls)))
        × IsLocated (matcher_of (spans watcher SpanOfCalls.new many_calls)).current_features)
spans-last_sets_example =
    spans-last_sets watcher many_calls (matcher_of (spans watcher SpanOfCalls.new many_calls))
      (api "CreateFile") first_call first_call_is_an_address (calls_from-IsApart 0 23)
      (calls_from-AreLocated 0 23) many_calls_run

match_scope-HasOutcome_example :
    HasOutcome (match_scope literal_crates 3 two_rule_set Scope.function some_features call_site)
match_scope-HasOutcome_example =
    match_scope-HasOutcome literal_crates two_rule_set Scope.function two_rules some_features
      call_site 3 refl (omega arith)
