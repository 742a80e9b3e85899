-- ===== src/Examples.antt =====
-- Data for the examples: two rules of one scope, the second of which matches the first by its
-- namespace, and the features of one function.
pub mod Matching
pub mod Data
pub mod RuleScopes
pub mod Graph
pub mod Building
pub mod RuleSets
pub mod Strings
pub mod Drivers
pub mod Trees
pub mod Processes
pub mod Parallel
pub mod Preparation
use capa_x.Prelude.{String, ℕ, true, false, Option, none, some, List, [], ◌∷◌}
use capa_x.Prelude.Result.{ok}
use capa_x.Prelude.Text.{contains_text}
use capa_x.Address.{Address, absolute}
use capa_x.Features.{Feature, api, characteristic, string, substring, plain, matched_rule}
use capa_x.Features.Regex.{RegexCrates}
use capa_x.Scope.{Scope, Scopes, function}
use capa_x.Rules.{Node, node, and, or, not, some_of, range, leaf, nil, cons, Rule, RuleMeta}
use capa_x.Engine.FeatureSet.{FeatureSet}
use capa_x.Capabilities.Index.{new}
use capa_x.Capabilities.Matching.{MatchingRuleSet}

-- expressions without metacharacters
abbrev pub literal_crates : RegexCrates
literal_crates = record {
  standard_new = λ pattern. true;
  standard_is_match = contains_text;
  fancy_new = λ pattern. ok tt;
  fancy_is_match = λ pattern text. some (contains_text pattern text);
}

abbrev pub one : Feature → Node
one feature = node (leaf feature) none

abbrev pub body_of_writer : Node
body_of_writer =
    node
      (and (
        cons (one (api "WriteFile")) (
          cons
            (node
              (or (cons (one (string (substring "tmp"))) (cons (one (characteristic "loop")) nil)))
              none)
            (cons (node (some_of 1 (cons (node (not (one (api "ReadFile"))) none) nil)) none)
              nil))))
      none

abbrev pub body_of_dropper : Node
body_of_dropper =
    node
      (and (
        cons (one (matched_rule "host/file"))
          (cons (node (range (api "WriteFile") 1 (some 4)) none) nil)))
      none

abbrev meta_of : String → Option String → RuleMeta
meta_of name namespace = record {
  name = name;
  namespace = namespace;
  authors = [];
  description = "";
  lib = false;
  attack = [];
  mbc = [];
  references = [];
  examples = [];
  raw = [];
}

abbrev pub rule_of : String → Option String → Node → Rule
rule_of name namespace body = record {
  name = name;
  namespace = namespace;
  meta = meta_of name namespace;
  scopes = record { static_ = some function; dynamic = none };
  body = body;
  is_lib = false;
  source = "";
}

abbrev pub writer : Rule
writer = rule_of "write file" (some "host/file/write") body_of_writer

abbrev pub dropper : Rule
dropper = rule_of "drop file" none body_of_dropper

abbrev pub two_rules : List Rule
two_rules = writer ∷ dropper ∷ []

abbrev pub two_names : List String
two_names = "write file" ∷ "drop file" ∷ []

abbrev pub two_rule_set : MatchingRuleSet
two_rule_set = record {
  rules = ("write file", writer) ∷ ("drop file", dropper) ∷ [];
  rules_by_scope = (function, two_names) ∷ [];
  indexes = (function, new two_rules) ∷ [];
  by_namespace_prefix = [];
}

abbrev pub call_site : Address
call_site = absolute 4096

abbrev pub some_features : FeatureSet
some_features =
    (api "WriteFile", absolute 4100 ∷ absolute 4200 ∷ [])
    ∷ (string (plain "/tmp/x"), absolute 4096 ∷ [])
    ∷ []

abbrev pub body_of_blind_writer : Node
body_of_blind_writer =
    node (and (cons (one (api "WriteFile")) (cons (node (not (one (api "ReadFile"))) none) nil)))
      none
