-- ===== src/Yaml.antt =====
-- The interface of yaml-cpp, which the program parses and emits documents with. The library is not
-- part of this repository: its functions are the fields of `Yaml`, and its laws say that parsing
-- inverts emitting, for a document in flow style with `Message::STOP` behind it, and for the
-- conversions of numbers and of binary data.
pub mod Codec
use distributed_memory.Prelude.{
  ℕ, ◌≡◌, ℤ, Bool, true, false, Option, none, some, List, [], ◌∷◌, ◌++◌, Text, text_key, ◌==◌,
  codes, if◌then◌else◌,
}

-- A parsed document.
mutual
  pub data Node : Type 0 where
    scalar : Text → Node
    sequence : Nodes → Node
    mapping : Fields → Node

  pub data Nodes : Type 0 where
    nil : Nodes
    cons : Node → Nodes → Nodes

  pub data Fields : Type 0 where
    end : Fields
    field : Text → Node → Fields → Fields

-- What `YAML::Emitter` is fed with `<<`; numbers and binary data go in as scalars.
pub data Event : Type 0 where
  flow begin_map end_map key value begin_seq end_seq : Event
  text : Text → Event

-- The events that emit a document, in front of further events.
unfoldable mutual
  pub serialize : Node → List Event → List Event
  serialize (scalar t) rest = text t ∷ rest
  serialize (sequence ns) rest = begin_seq ∷ serialize_nodes ns (end_seq ∷ rest)
  serialize (mapping fs) rest = begin_map ∷ serialize_fields fs (end_map ∷ rest)

  pub serialize_nodes : Nodes → List Event → List Event
  serialize_nodes nil rest = rest
  serialize_nodes (cons n ns) rest = serialize n (serialize_nodes ns rest)

  pub serialize_fields : Fields → List Event → List Event
  serialize_fields end rest = rest
  serialize_fields (field k n fs) rest =
      key ∷ text k ∷ value ∷ serialize n (serialize_fields fs rest)

-- Message::STOP
abbrev pub stop : Text
stop = 13 ∷ 10 ∷ 13 ∷ 10 ∷ []

pub record Yaml : Type 0 where
  -- `Parser::GetNextDocument` on a text: the node that it leaves, given the node before, and whether
  -- it throws a YAML::Exception.
  pub get_next_document : Text → Option Node → Option Node × Bool
  pub dump : List Event → Text
  -- `node >> int` and `emitter << int`
  pub read_int : Text → Option ℤ
  pub write_int : ℤ → Text
  -- `node >> YAML::Binary` and `emitter << YAML::Binary`
  pub read_binary : Text → Option (List ℕ)
  pub write_binary : List ℕ → Text
  pub get_next_document-dump :
      (n : Node) (old : Option Node)
      → get_next_document (dump (flow ∷ serialize n []) ++ stop) old ≡ (some n, false)
  pub read_int-write_int : (i : ℤ) → read_int (write_int i) ≡ some i
  pub read_binary-write_binary : (bytes : List ℕ) → read_binary (write_binary bytes) ≡ some bytes

unfoldable pub field_at : Text → Fields → Option Node
field_at k end = none
field_at k (field j n fs) = if j == k then some n else field_at k fs

-- `node[k]` and `node.FindValue(k)`: `none` is an exception of the first and a null of the second.
unfoldable pub find_value : Node → Text → Option Node
unfolding field_at
find_value (mapping fs) k = field_at k fs
find_value _ k = none

-- `node >> string`
unfoldable pub as_text : Node → Option Text
as_text (scalar t) = some t
as_text _ = none

-- `node >> int`
unfoldable pub as_int : Yaml → Node → Option ℤ
as_int y (scalar t) = y.read_int t
as_int y _ = none

-- `node >> YAML::Binary`
unfoldable pub as_binary : Yaml → Node → Option (List ℕ)
as_binary y (scalar t) = y.read_binary t
as_binary y _ = none
