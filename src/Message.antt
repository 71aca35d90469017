-- ===== src/Message.antt =====
-- src/message.h and src/message.cpp: the messages of the protocol, and MessageType of
-- include/dm/type.h.
pub mod Types
pub mod RoundTrip
pub mod Areas
use distributed_memory.Prelude.{
  ◌≡◌, ℤ, Bool, true, false, not, ◌&&◌, Option, none, some, List, [], ◌∷◌, ◌++◌, Text, text_key,
  codes, take, Outcome, returns, undefined, ◌>>=◌, if◌then◌else◌,
}
use distributed_memory.Prelude.Assoc.{Map, find, put}
use distributed_memory.Yaml.{
  Yaml, Node, Event, flow, begin_map, end_map, key, value, text, find_value, as_text, as_int,
  as_binary,
}
use distributed_memory.Block.{Block, block_size, set_data, set_revision}
use distributed_memory.BlockServer
use distributed_memory.BlockServer.{BlockServer}

-- MessageType of type.h
pub data MessageType : Type 0 where
  map unmap update write wait ack nack undef : MessageType

-- Message::type_to_string
unfoldable pub type_to_string : MessageType → Text
type_to_string map = codes "MAP"
type_to_string unmap = codes "UNMAP"
type_to_string update = codes "UPDATE"
type_to_string write = codes "WRITE"
type_to_string wait = codes "WAIT"
type_to_string ack = codes "ACK"
type_to_string nack = codes "NACK"
type_to_string undef = codes "UNDEF"

-- Message::maps_initializer, as far as `string_to_type` goes: an empty map is filled.
unfoldable pub maps_initializer : Map Text MessageType → Map Text MessageType
unfolding type_to_string
maps_initializer [] = put (codes "UNDEF") undef (
    put (codes "NACK") nack (
      put (codes "ACK") ack (
        put (codes "WAIT") wait (
          put (codes "WRITE") write
            (put (codes "UPDATE") update (put (codes "UNMAP") unmap (put (codes "MAP") map [])))))))
maps_initializer (entry ∷ types) = entry ∷ types

-- A message under parsing: the node of yaml-cpp, and the block parsed from it, `none` for null.
pub record Message : Type 0 where
  pub node : Option Node
  pub m_block : Option BlockServer

-- Message::parse: what throws leaves the block of an earlier parse in place.
unfoldable pub parse : Yaml → Message → Text → Message
parse y m message =
    let (node', threw) = y.get_next_document message m.node in
    record { node = node'; m_block = if threw then m.m_block else none }

-- Message::Message
unfoldable pub create : Yaml → Text → Message
unfolding parse
create y [] = record { node = none; m_block = none }
create y (c ∷ message) = parse y (record { node = none; m_block = none }) (c ∷ message)

infixl 4 ◌>>?◌
abbrev pub ◌>>?◌ : {A B : Type 0} → Option A → (A → Option B) → Option B
none >>? f = none
some a >>? f = f a

-- `node["type"] >> type`
unfoldable pub type_text : Message → Option Text
type_text m = m.node >>? λ n. find_value n (codes "type") >>? as_text

-- Message::type: `string_to_type[type]` adds an entry with the value UNDEF for a text that is not
-- there.
unfoldable pub type : Message → Map Text MessageType → MessageType × Map Text MessageType
unfolding type_text
type m types = elim (type_text m) [
  | none ↦ (undef, types)
  | some t ↦ elim (find t types) [ none ↦ (undef, put t undef types) | some ty ↦ (ty, types) ]
]

-- `node["block"]["id"] >> block_id`
unfoldable pub block_id_of : Yaml → Message → Option ℤ
block_id_of y m =
    m.node >>? λ n. find_value n (codes "block") >>? λ b. find_value b (codes "id") >>? as_int y

-- `node["block"].FindValue(k)`
unfoldable pub block_value : Message → Text → Option Node
block_value m k = m.node >>? λ n. find_value n (codes "block") >>? λ b. find_value b k

-- The optional key `data`: yaml-cpp's buffer is copied whole, whatever its size.
unfoldable pub parse_data : Yaml → Message → BlockServer → Outcome BlockServer
unfolding block_value
parse_data y m b = elim (block_value m (codes "data") >>? as_binary y) [
  | none ↦ returns b
  | some bytes ↦ set_data b.block bytes >>= λ base. returns (record b { block = base })
]

-- The optional keys `revision` and `data`. A `revision` that is no number throws, and the catch
-- leaves the block as it is by then.
unfoldable pub parse_fields : Yaml → Message → BlockServer → Outcome BlockServer
unfolding block_value parse_data
parse_fields y m b = elim (block_value m (codes "revision")) [
  | none ↦ parse_data y m b
  | some n ↦ elim (as_int y n) [
    | none ↦ returns b
    | some revision ↦ parse_data y m (record b { block = set_revision b.block revision })
  ]
]

-- Message::block: the block that the returned reference refers to, `none` for a null reference, and
-- the message with the block kept.
unfoldable pub block : Yaml → Message → Outcome (Option BlockServer × Message)
unfolding block_id_of parse_fields
block y m = elim m.m_block [
  | some b ↦ returns (some b, m)
  | none ↦ elim (block_id_of y m) [
    | none ↦ returns (none, m)
    | some id ↦ do
      b ← parse_fields y m (BlockServer.create id)
      returns (some b, record m { m_block = some b })
  ]
]

-- Message::emit(MessageType)
unfoldable pub emit : Yaml → MessageType → Text
emit y ty =
    y.dump (
      flow
      ∷ begin_map
      ∷ key
      ∷ text (codes "type")
      ∷ value
      ∷ text (type_to_string ty)
      ∷ end_map
      ∷ [])

-- The `data` key of a block that is not shallow and has an area.
unfoldable pub emit_data : Yaml → Block → Bool → List Event
emit_data y b true = []
emit_data y b false = elim b.bytes [
  | none ↦ []
  | some bytes ↦
      key ∷ text (codes "data") ∷ value ∷ text (y.write_binary (take block_size bytes)) ∷ []
]

-- Message::emit(MessageType, const Block&, bool)
unfoldable pub emit_block : Yaml → MessageType → Block → Bool → Text
unfolding emit_data
emit_block y ty b shallow = y.dump (
    flow
    ∷ begin_map
    ∷ key
    ∷ text (codes "type")
    ∷ value
    ∷ text (type_to_string ty)
    ∷ key
    ∷ text (codes "block")
    ∷ value
    ∷ begin_map
    ∷ key
    ∷ text (codes "id")
    ∷ value
    ∷ text (y.write_int b.id)
    ∷ key
    ∷ text (codes "revision")
    ∷ value
    ∷ text (y.write_int b.revision)
    ∷ (emit_data y b shallow ++ (end_map ∷ end_map ∷ [])))
