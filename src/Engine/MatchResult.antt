-- ===== src/Engine/MatchResult.antt =====
-- The evidence trees of capa-x/src/engine.rs.
use capa_x.Prelude.{ℕ, String, Bool, true, false, Option, List, ◌&&◌, ◌||◌, suc, if◌then◌else◌}
use capa_x.Address.{Address}
use capa_x.Features.{Feature, ComKind}
use capa_x.Scope.{Scope}

pub data EngineError : Type 0 where
  unextracted_subscope : Scope → EngineError
  unexpanded_com : ComKind → EngineError

pub data MatchedNode : Type 0 where
  and or not : MatchedNode
  some_of : ℕ → MatchedNode
  range : Feature → ℕ → Option ℕ → MatchedNode
  leaf : Feature → MatchedNode

-- `BTreeMap<String, BTreeSet<Address>>`
abbrev pub Captures : Type 0
Captures = List (String × List Address)

-- success, node, description, locations, children, captures; `Vec<MatchResult>` is `ResultList`
mutual
  pub data MatchResult : Type 0 where
    match_result :
        Bool → MatchedNode → Option String → List Address → ResultList → Captures → MatchResult

  pub data ResultList : Type 0 where
    nil : ResultList
    cons : MatchResult → ResultList → ResultList

abbrev pub success : MatchResult → Bool
success (match_result s node description locations children captures) = s

abbrev pub children : MatchResult → ResultList
children (match_result s node description locations cs captures) = cs

abbrev pub locations : MatchResult → List Address
locations (match_result s node description ls cs captures) = ls

-- `Vec::push`
pub push : ResultList → MatchResult → ResultList
push nil r = cons r nil
push (cons x xs) r = cons x (push xs r)

-- `iter().all(|r| r.success)`, `iter().any(|r| r.success)`, `iter().filter(|r| r.success).count()`
abbrev pub all_success : ResultList → Bool
all_success nil = true
all_success (cons r rs) = success r && all_success rs

abbrev pub any_success : ResultList → Bool
any_success nil = false
any_success (cons r rs) = success r || any_success rs

abbrev pub count_success : ResultList → ℕ
count_success nil = 0
count_success (cons r rs) = let rest = count_success rs in if success r then suc rest else rest
