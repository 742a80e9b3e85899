-- ===== src/Capabilities/Com.antt =====
-- capa-x/src/com.rs: a COM leaf stands for the GUIDs of its name, each as a text and as bytes. The
-- two databases are data files: they are a parameter.
use Prim.Native.Char.{code}
use Prim.Native.String.{◌++◌ as str_append}
use capa_x.Prelude.{
  ℕ, ◌+◌, ◌-◌, ◌*◌, String, ◌&&◌, Option, none, some, List, [], ◌∷◌, str_eq, leb, ◌==◌,
  if◌then◌else◌,
}
use capa_x.Prelude.Result.{Result, ok, err, ◌>>=◌}
use capa_x.IndexMap
use capa_x.Features.{ComKind, com_class, com_interface, string, plain, bytes}
use capa_x.Rules.{Statement, NodeList, node}
use capa_x.Rules.Error.{RuleError, invalid, invalid_com_guid, unknown_com_name}

-- `ComDatabase`, and the one of each kind
abbrev pub ComDatabase : Type 0
ComDatabase = List (String × List String)

abbrev pub prefix : ComKind → String
prefix com_class = "CLSID_"
prefix com_interface = "IID_"

-- `char::to_digit(16)`
unfoldable pub hex_digit : ℕ → Option ℕ
hex_digit c =
    if leb b'0' c && leb c b'9'
    then some (c - b'0')
    else if leb b'a' c && leb c b'f'
    then some (10 + (c - b'a'))
    else if leb b'A' c && leb c b'F'
    then some (10 + (c - b'A'))
    else none

-- the codes of the characters that are no dashes
unfoldable pub without_dashes : String → List ℕ
without_dashes String.[] = []
without_dashes (String.◌∷◌ c rest) =
    let codes = without_dashes rest in if code c == b'-' then codes else code c ∷ codes

abbrev pair_of : Option ℕ → Option ℕ → Option (List ℕ) → Option (List ℕ)
pair_of (some high) (some low) (some rest) = some ((16 * high + low) ∷ rest)
pair_of _ _ _ = none

unfoldable pub hex_decode : List ℕ → Option (List ℕ)
unfolding hex_digit
hex_decode [] = some []
hex_decode (c ∷ []) = none
hex_decode (c ∷ d ∷ cs) = pair_of (hex_digit c) (hex_digit d) (hex_decode cs)

-- the first three fields of a GUID are stored with their low byte first
abbrev pub mixed_endian : List ℕ → Option (List ℕ)
mixed_endian (a ∷ b ∷ c ∷ d ∷ e ∷ f ∷ g ∷ h ∷ i ∷ j ∷ k ∷ l ∷ m ∷ n ∷ o ∷ p ∷ []) =
    some (d ∷ c ∷ b ∷ a ∷ f ∷ e ∷ h ∷ g ∷ i ∷ j ∷ k ∷ l ∷ m ∷ n ∷ o ∷ p ∷ [])
mixed_endian _ = none

abbrev bytes_of : Option (List ℕ) → Option (List ℕ)
bytes_of none = none
bytes_of (some raw) = mixed_endian raw

abbrev or_invalid : String → Option (List ℕ) → Result RuleError (List ℕ)
or_invalid guid none = err (invalid (invalid_com_guid guid))
or_invalid guid (some raw) = ok raw

unfoldable pub guid_to_bytes : String → Result RuleError (List ℕ)
unfolding hex_decode without_dashes
guid_to_bytes guid = or_invalid guid (bytes_of (hex_decode (without_dashes guid)))

-- two leaves for each GUID
unfoldable pub guid_leaves : String → List String → Result RuleError NodeList
guid_leaves symbol [] = ok NodeList.nil
guid_leaves symbol (guid ∷ guids) = guid_to_bytes guid >>= λ raw.
    guid_leaves symbol guids >>= λ rest. ok (
      NodeList.cons
        (node (Statement.leaf (string (plain guid))) (some (str_append symbol " as GUID string")))
        (NodeList.cons (node (Statement.leaf (bytes raw)) (some (str_append symbol " as bytes")))
          rest))

abbrev pub guids_or_error : String → ComKind → Option (List String) → Result RuleError Statement
guids_or_error name kind none = err (invalid (unknown_com_name name kind))
guids_or_error name kind (some []) = err (invalid (unknown_com_name name kind))
guids_or_error name kind (some (guid ∷ guids)) =
    guid_leaves (str_append (prefix kind) name) (guid ∷ guids) >>= λ children.
    ok (Statement.or children)

unfoldable pub translate_com_feature :
    (ComKind → ComDatabase) → String → ComKind → Result RuleError Statement
unfolding guid_leaves guid_to_bytes
translate_com_feature database name kind =
    guids_or_error name kind (IndexMap.get str_eq name (database kind))
