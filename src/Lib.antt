-- ===== src/Lib.antt =====
-- capa-x: the matching engine of a tool that finds capabilities in programs.
--
-- A rule is a logic tree over features, and a feature set maps each feature of a scope to the
-- addresses where it was found. The matcher evaluates the rules of a scope in an order in which
-- dependencies come first, and publishes every match as a feature for the rules behind it.
--
-- Files, with the code that each one models (paths from the repository's root):
--   Prelude, Ordered, SortedSet, IndexMap: shared names, `Ord`, `BTreeSet`, `IndexMap`/`HashMap`.
--   Address: capa-x/src/address.rs, `Address` with `sort_key`, `cmp` and `is_truthy`.
--   Features: capa-x/src/features.rs, `Feature` and its equality; Float and Number hold
--     `NumberValue`, with an `f64` as its 64-bit pattern; Regex holds `CompiledRegex`.
--   Rules: capa-x/src/rules/mod.rs, `Node`, `Statement`, `Rule`; Error: capa-x/src/rules/error.rs.
--     Graph: capa-x/src/rules/graph.rs, with `visit` as `visit_all` on a list of names.
--   Scope: capa-x/src/rules/scope.rs; Names (`as_str`, `parse`, `is_subscope_compatible`),
--     FromDict (`Scopes::from_dict`), Supported (`supported_features`,
--     `ensure_feature_valid_for_scopes`).
--   Engine: capa-x/src/engine.rs; FeatureSet (`insert`, `insert_many`, `merge`, `merge_owned`),
--     MatchResult (evidence trees), Leaves (`eval_leaf` and what it calls), Evaluate (`evaluate`),
--     Boolean (`evaluate_boolean`), Namespaces (`rule_namespaces`, `index_rule_matches`), Meaning
--     (the reference: what a body says of a feature set).
--   Capabilities: capa-x/src/capabilities/ruleset.rs; Required (`required_features`,
--     `index_score`), Index (`RuleFeatureIndex`), Matching (`MatchingRuleSet::match_scope`, and the
--     reference `match_all`, which evaluates every rule in order),
--     Optimize (`optimize_node`), Extract (`expand_com`, `extract_children`, `subscope_rule`), Com
--     (capa-x/src/com.rs; its databases of names are a parameter).
--     Build (`MatchingRuleSet::new`, `rules_for_scope`, `transitive_closure`, `topo_sort_subset`,
--     `expand_and_extract`).
--     Matcher (what the drivers use of a set of rules), Driver (what both drivers share),
--     StaticAnalysis: capa-x/src/capabilities/static_analysis.rs; DynamicAnalysis and SpanOfCalls
--     (`SpanOfCallsMatcher`): capa-x/src/capabilities/dynamic_analysis.rs.
--   Extract: Strings is capa-x/src/extract/features/strings.rs, the strings of a buffer.
--   Freeze: capa-x/src/freeze.rs, the trees of features that the drivers walk over.
--   Parallel: capa-x/src/parallel.rs, `Jobs` and `try_map`; a schedule names the worker of every
--     atomic step and says whether a relaxed load of the stop flag sees the store of it.
--   Examples: data, and the theorems at concrete values.
--
-- Bounds and fuel. The loop of the matcher runs on fuel, one unit for each candidate; a run with
-- more fuel than there are rules ends, since a candidate is never taken twice. The visits of the
-- rule graph, and the walks of `MatchingRuleSet::new`, take one unit for each name and each
-- nesting; a nested call marks a rule that was not marked, so the number of rules times the largest
-- number of dependencies bounds them. The stack of `expand_and_extract` takes one unit for each
-- rule and each subscope. `MatchingRuleSet::new` is given this fuel by its model. `rule_namespaces`
-- takes one step per character at most. `usize` counts wrap to `u32` where the source casts them.
--
-- The drivers give the matcher one round more than a scope has rules; `Matcher` holds the proof that
-- this is enough, so that a driver's model has no fuel of its own. The loops of Extract.Strings take a
-- byte at least in a turn and have a turn for every byte and one more.
--
-- The crates `regex` and `fancy_regex` are the parameter `RegexCrates`. Sets of which only the
-- membership is used are lists. A walk over a `HashMap` goes in the order of the first insertions,
-- one of the orders it may have. A panic of a worker is not modelled. Not modelled either: the YAML
-- reader, the loaders of file formats, the recovery of code, the renderers, the command line and the
-- Python binding, which are I/O, calls of third-party crates, or heuristics over their data.
pub mod Prelude
pub mod Ordered
pub mod SortedSet
pub mod Address
pub mod Features
pub mod IndexMap
pub mod Scope
pub mod Rules
pub mod Engine
pub mod Capabilities
pub mod Parallel
pub mod Freeze
pub mod Extract
pub mod Examples
