-- ===== src/Examples/Preparation.antt =====
-- The theorems on optimised and extracted bodies at concrete values.
use capa_x.Prelude.{◌≡◌, refl, [], ◌∷◌, none, some, String}
use capa_x.Prelude.Result.{ok}
use capa_x.Features.{ComKind, com_object, api, string, plain, bytes}
use capa_x.Scope.{Scope}
use capa_x.Rules.{Node, Statement, NodeList, node}
use capa_x.Engine.Meaning.{holds, StatementIsExtracted}
use capa_x.Capabilities.Com.{
  translate_com_feature, guid_leaves, ComDatabase, guid_to_bytes, hex_decode, hex_digit,
  without_dashes,
}
use capa_x.Capabilities.Extract.{expand_com, extract_children}
use capa_x.Capabilities.Extract.Removed.{extract_children-IsExtracted}
use capa_x.Capabilities.Extract.Lifting.{with_bodies, lifted_bodies}
use capa_x.Capabilities.Optimize.{optimize_node, node_cost}
use capa_x.Capabilities.Optimize.Meaning.{holds-optimize_node}
use capa_x.Examples.{literal_crates, some_features, body_of_writer, one}

holds-optimize_node_example :
    (holds literal_crates some_features (optimize_node body_of_writer)
      ≡ holds literal_crates some_features body_of_writer)
    × (node_cost (optimize_node body_of_writer) ≡ node_cost body_of_writer)
holds-optimize_node_example = holds-optimize_node literal_crates some_features body_of_writer

abbrev pub one_class : ComKind → ComDatabase
one_class kind = ("Shell", "00021401-0000-0000-C000-000000000046" ∷ []) ∷ []

abbrev pub looping_call : Node
looping_call = node (Statement.subscope Scope.basic_block (one (api "CoCreateInstance"))) none

-- a class, and a loop that is a subscope
abbrev with_com : Statement
with_com = Statement.and (
    NodeList.cons (one (com_object ComKind.com_class "Shell"))
      (NodeList.cons looping_call NodeList.nil))

abbrev shell_id : String
shell_id = "00021401-0000-0000-C000-000000000046"

abbrev as_text : Node
as_text = node (Statement.leaf (string (plain shell_id))) (some "CLSID_Shell as GUID string")

abbrev as_bytes : Node
as_bytes =
    node
      (Statement.leaf
        (bytes (1 ∷ 20 ∷ 2 ∷ 0 ∷ 0 ∷ 0 ∷ 0 ∷ 0 ∷ 192 ∷ 0 ∷ 0 ∷ 0 ∷ 0 ∷ 0 ∷ 0 ∷ 70 ∷ [])))
      (some "CLSID_Shell as bytes")

abbrev shell_leaves : Node
shell_leaves =
    node (Statement.or (NodeList.cons as_text (NodeList.cons as_bytes NodeList.nil))) none

abbrev expanded_com : Statement
expanded_com = Statement.and (NodeList.cons shell_leaves (NodeList.cons looping_call NodeList.nil))

expanded_is : expand_com one_class with_com ≡ ok expanded_com
unfolding expand_com translate_com_feature guid_leaves guid_to_bytes hex_decode hex_digit
    without_dashes
expanded_is = refl

extract_children-IsExtracted_example :
    StatementIsExtracted (extract_children expanded_com "shell" (0, [])).0
    × ((extract_children expanded_com "shell" (0, [])).1
        ≡ with_bodies "shell" (0, []) (lifted_bodies expanded_com))
extract_children-IsExtracted_example =
    extract_children-IsExtracted one_class with_com expanded_com "shell" (0, []) expanded_is tt

-- the first three fields have their bytes reversed
shell_bytes :
    guid_to_bytes "00021401-0000-0000-C000-000000000046"
    ≡ ok (1 ∷ 20 ∷ 2 ∷ 0 ∷ 0 ∷ 0 ∷ 0 ∷ 0 ∷ 192 ∷ 0 ∷ 0 ∷ 0 ∷ 0 ∷ 0 ∷ 0 ∷ 70 ∷ [])
unfolding guid_to_bytes hex_decode hex_digit without_dashes
shell_bytes = refl
