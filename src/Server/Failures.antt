-- ===== src/Server/Failures.antt =====
-- Requests that src/server.cpp cannot answer: `client_handler` uses the block that `Message::block`
-- of src/message.cpp refers to without a test for null, and copies as many bytes as a block has,
-- however few the message brings.
use distributed_memory.Prelude.{
  ℕ, ◌<◌, ◌≡◌, refl, ◌∙◌, ℤ, int_key, Bool, true, false, none, some, List, Text, codes, arith,
  length, undefined,
}
use distributed_memory.Yaml.{Yaml, Node, as_int, as_binary}
use distributed_memory.Prelude.Assoc.{find}
use distributed_memory.Block.{block_size}
use distributed_memory.BlockServer.{BlockServer}
use distributed_memory.BlockServer.Print.{HasZero, c_string-unterminated}
use distributed_memory.Block.Areas.{set_data_short}
use distributed_memory.Message
use distributed_memory.Message.{
  Message, MessageType, map, unmap, update, write, wait, ack, nack, undef, create, parse,
  block_id_of, block_value, ◌>>?◌,
}
use distributed_memory.Message.Types.{type_of}
use distributed_memory.Message.RoundTrip.{Carries}
use distributed_memory.Server.{Server, requested, dispatch, logged_data, handle_write, handle}
use distributed_memory.Server.Answers.{handle-write}
use distributed_memory.Server.Requests.{fresh}

-- The types of the requests, each of which is about a block.
unfoldable pub is_request : MessageType → Bool
is_request map = true
is_request unmap = true
is_request update = true
is_request write = true
is_request wait = true
is_request _ = false

module _ (y : Yaml) where
  dispatch_undefined :
      (s : Server) (client : Text) (m : Message) (ty : MessageType)
      → is_request ty ≡ true
      → requested y m ≡ undefined
      → dispatch y s client m ty ≡ undefined
  unfolding dispatch is_request
  dispatch_undefined s client m map h e = rw e refl
  dispatch_undefined s client m unmap h e = rw e refl
  dispatch_undefined s client m update h e = rw e refl
  dispatch_undefined s client m write h e = rw e refl
  dispatch_undefined s client m wait h e = rw e refl
  dispatch_undefined s client m ack h e = cc
  dispatch_undefined s client m nack h e = cc
  dispatch_undefined s client m undef h e = cc

  unnamed_lem :
      (m : Message) → m.m_block ≡ none → block_id_of y m ≡ none → requested y m ≡ undefined
  unfolding requested Message.block
  unnamed_lem m p e = ground arith

  short_data_lem :
      (m : Message) (id revision : ℤ) (node : Node) (bytes : List ℕ)
      → m.m_block ≡ none
      → block_id_of y m ≡ some id
      → block_value m (codes "revision") ≡ some node
      → as_int y node ≡ some revision
      → (block_value m (codes "data") >>? as_binary y) ≡ some bytes
      → length bytes < block_size
      → requested y m ≡ undefined
  unfolding requested Message.block Message.parse_fields Message.parse_data
  short_data_lem m id revision node bytes fresh e p q d short =
      rw (fresh, Message.block, e, p, Message.parse_fields, q, d, Message.parse_data)
        (rw (set_data_short _ bytes short) refl)

  -- A request whose text has no readable `block: id` has undefined behaviour, whatever the state of
  -- the server: a null reference is used.
  pub handle_unnamed :
      (s : Server) (client t : Text)
      → is_request (type_of (create y t)) ≡ true
      → block_id_of y (create y t) ≡ none
      → handle y s client t ≡ undefined
  unfolding handle
  handle_unnamed s client t h e =
      dispatch_undefined s client (create y t) (type_of (create y t)) h lost
    where
      lost : requested y (create y t) ≡ undefined
      lost = unnamed_lem (create y t) (fresh y t) e

  -- A request for a named block whose `data` has fewer bytes than a block has undefined behaviour
  -- too, if its `revision` can be read: the bytes behind the data are copied.
  pub handle_short_data :
      (s : Server) (client t : Text) (id revision : ℤ) (node : Node) (bytes : List ℕ)
      → is_request (type_of (create y t)) ≡ true
      → block_id_of y (create y t) ≡ some id
      → block_value (create y t) (codes "revision") ≡ some node
      → as_int y node ≡ some revision
      → (block_value (create y t) (codes "data") >>? as_binary y) ≡ some bytes
      → length bytes < block_size
      → handle y s client t ≡ undefined
  unfolding handle
  handle_short_data s client t id revision node bytes h e p q d short =
      dispatch_undefined s client (create y t) (type_of (create y t)) h lost
    where
      lost : requested y (create y t) ≡ undefined
      lost = short_data_lem (create y t) id revision node bytes (fresh y t) e p q d short

  -- A write of a block that the server has, whose data has no zero byte, has undefined behaviour,
  -- whatever its revision is: the data is logged as a C string.
  pub handle_unterminated :
      {t : Text} {r b : BlockServer} {area : List ℕ} (s : Server) (client : Text)
      → Carries y t write r
      → find r.id s.blocks ≡ some b
      → r.bytes ≡ some area
      → ¬ HasZero area
      → handle y s client t ≡ undefined
  unfolding handle_write logged_data
  handle_unterminated {area} s client c e shown h =
      handle-write y s client c
      ∙ rw (e, handle_write)
          (rw (shown, logged_data) (rw (c_string-unterminated area h, handle_write) refl))
