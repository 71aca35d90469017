-- ===== src/Message/RoundTrip.antt =====
-- `Message::emit` of src/message.cpp, and the reading of what it writes by `Message::type` and
-- `Message::block`.
use distributed_memory.Prelude.{
  ℕ, arith, ◌≡◌, refl, ◌∙◌, Bool, true, false, none, some, List, [], ◌∷◌, ◌++◌, Text, codes, length,
  take, replicate, take_of_length, returns,
}
use mathlib.Core.List.{append-nil}
use distributed_memory.Yaml.{
  Yaml, Node, Fields, scalar, mapping, end, field, serialize, stop, flow, find_value, as_text,
  as_int, as_binary,
}
use distributed_memory.Block.{Block, block_size, set_data, set_revision}
use distributed_memory.BlockServer
use distributed_memory.BlockServer.{BlockServer}
use distributed_memory.Message.{
  Message, MessageType, type_to_string, create, parse, block, type_text, emit, emit_block,
}
use distributed_memory.Message.Types.{type_of, type_of-name}

-- The document of a message of the first form, and of the second.
abbrev type_document : MessageType → Node
type_document ty = mapping (field (codes "type") (scalar (type_to_string ty)) end)

abbrev data_field : Yaml → Block → Bool → Fields
data_field y b true = end
data_field y b false = elim b.bytes [
  | none ↦ end
  | some bytes ↦ field (codes "data") (scalar (y.write_binary (take block_size bytes))) end
]

abbrev block_document : Yaml → MessageType → Block → Bool → Node
block_document y ty b shallow = mapping (
    field (codes "type") (scalar (type_to_string ty)) (
      field (codes "block")
        (mapping (
          field (codes "id") (scalar (y.write_int b.id))
            (field (codes "revision") (scalar (y.write_int b.revision)) (data_field y b shallow))))
        end))

-- The receiver's copy of a block: with the bytes that were sent, or cleared where none were.
abbrev pub received : Block → List ℕ → BlockServer
received b bytes = record {
  block = record { id = b.id; revision = b.revision; bytes = some bytes };
  mapped_clients = [];
}

abbrev pub zeros : List ℕ
zeros = replicate block_size 0

set_data_whole :
    (b : Block) (bytes : List ℕ)
    → length bytes ≡ block_size
    → set_data (record b { bytes = some zeros }) bytes ≡ returns (record b { bytes = some bytes })
unfolding set_data
set_data_whole b bytes q = rw (q, take_of_length block_size bytes q, append-nil bytes) refl

module _ (y : Yaml) where
  -- A text is a message of type `ty` that carries the block `b`.
  pub record Carries (t : Text) (ty : MessageType) (b : BlockServer) : Type 0 where
    pub typed : type_of (create y t) ≡ ty
    pub kept : Message
    pub carried : block y (create y t) ≡ returns (some b, kept)

  create-stop :
      (t : Text)
      → create y (t ++ stop) ≡ parse y (record { node = none; m_block = none }) (t ++ stop)
  unfolding create
  create-stop [] = refl
  create-stop (c ∷ t) = refl

  -- A text that emits a document, with STOP behind it, is parsed into that document.
  create-dump :
      (n : Node)
      → create y (y.dump (flow ∷ serialize n []) ++ stop) ≡ record { node = some n; m_block = none }
  unfolding parse
  create-dump n =
      create-stop (y.dump (flow ∷ serialize n [])) ∙ rw (y.get_next_document-dump n none, parse)

  emit_document : (ty : MessageType) → emit y ty ≡ y.dump (flow ∷ serialize (type_document ty) [])
  unfolding emit serialize
  emit_document ty = refl

  emit_block_document :
      (ty : MessageType) (b : Block) (shallow : Bool)
      → emit_block y ty b shallow ≡ y.dump (flow ∷ serialize (block_document y ty b shallow) [])
  unfolding emit_block serialize
  emit_block_document ty b true = refl
  emit_block_document ty b false = ground arith

  -- A message of the first form has the type that it was emitted with.
  pub emit-type_of : (ty : MessageType) → type_of (create y (emit y ty ++ stop)) ≡ ty
  unfolding type_text find_value as_text
  emit-type_of ty = rw (emit_document ty, create-dump (type_document ty)) (type_of-name _ ty refl)

  emit_block-type_of :
      (ty : MessageType) (b : Block) (shallow : Bool)
      → type_of (create y (emit_block y ty b shallow ++ stop)) ≡ ty
  unfolding type_text find_value as_text
  emit_block-type_of ty b shallow =
      rw (emit_block_document ty b shallow, create-dump (block_document y ty b shallow))
        (type_of-name _ ty refl)

  shallow_block :
      (ty : MessageType) (b : Block)
      → block y (record { node = some (block_document y ty b true); m_block = none })
        ≡ returns (
          some (received b zeros),
          record { node = some (block_document y ty b true); m_block = some (received b zeros) },
        )
  unfolding block find_value as_text as_int as_binary set_revision BlockServer.create
  shallow_block ty b = ground (arith, y.read_int-write_int b.id, y.read_int-write_int b.revision)

  whole_block :
      (ty : MessageType) (b : Block) (bytes : List ℕ)
      → b.bytes ≡ some bytes
      → length bytes ≡ block_size
      → block y (record { node = some (block_document y ty b false); m_block = none })
        ≡ returns (
          some (received b bytes),
          record { node = some (block_document y ty b false); m_block = some (received b bytes) },
        )
  unfolding block find_value as_text as_int as_binary set_revision BlockServer.create
  whole_block ty b bytes p q = ground (
    arith,
    y.read_int-write_int b.id,
    y.read_int-write_int b.revision,
    y.read_binary-write_binary bytes,
    take_of_length block_size bytes q,
    set_data_whole (record { id = b.id; revision = b.revision; bytes = some zeros }) bytes q,
  )

  -- A block with its bytes, emitted and received, is the block with the type that was sent.
  pub emit_block-Carries :
      (ty : MessageType) (b : Block) (bytes : List ℕ)
      → b.bytes ≡ some bytes
      → length bytes ≡ block_size
      → Carries (emit_block y ty b false ++ stop) ty (received b bytes)
  emit_block-Carries ty b bytes p q = record {
    typed = emit_block-type_of ty b false;
    kept = record { node = some (block_document y ty b false); m_block = some (received b bytes) };
    carried =
        rw (emit_block_document ty b false, create-dump (block_document y ty b false))
          (whole_block ty b bytes p q);
  }

  -- A shallow message carries the id and the revision, and a cleared area.
  pub emit_shallow-Carries :
      (ty : MessageType) (b : Block)
      → Carries (emit_block y ty b true ++ stop) ty (received b zeros)
  emit_shallow-Carries ty b = record {
    typed = emit_block-type_of ty b true;
    kept = record { node = some (block_document y ty b true); m_block = some (received b zeros) };
    carried =
        rw (emit_block_document ty b true, create-dump (block_document y ty b true))
          (shallow_block ty b);
  }
