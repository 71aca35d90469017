-- ===== src/Server.antt =====
-- src/server.h and src/server.cpp: the state of a server and what `client_handler` does with one
-- message. Each request is one step, as its effect on the blocks is under the server's mutex; only
-- `WAIT` may give the mutex up, inside `pthread_cond_wait`.

pub mod Invariant
pub mod Requests
pub mod Versions
pub mod Answers
pub mod Failures
pub mod Conflicts
pub mod Store
pub mod Replies
pub mod Threads
pub mod Life
pub mod Serving
pub mod Accepting
pub mod Starting
use distributed_memory.Prelude.{
  ◌≡◌, ℤ, pos, int_key, ltb_ℤ, Bool, true, false, Option, none, some, List, [], ◌∷◌, ◌++◌, Text,
  ◌==◌, Outcome, returns, throws, undefined, ◌>>=◌, if◌then◌else◌,
}
use distributed_memory.Prelude.Assoc.{Map, find, put, insert}
use distributed_memory.Yaml.{Yaml, stop}
use distributed_memory.Block
use distributed_memory.BlockServer
use distributed_memory.BlockServer.{BlockServer}
use distributed_memory.BlockServer.Print.{c_string}
use distributed_memory.Config
use distributed_memory.Config.{Config}
use distributed_memory.Message
use distributed_memory.Message.{
  Message, MessageType, map, unmap, update, write, wait, ack, nack, emit, emit_block,
}
use distributed_memory.Message.Types.{type_of}

-- `blocks_wait` has the keys of the map of conditions; a key that is looked up is added.
pub record Server : Type 0 where
  pub config : Config
  pub id : Text
  pub blocks : Map ℤ BlockServer
  pub blocks_wait : Map ℤ (Unit {0})

-- The loop of the constructor.
unfoldable pub add_blocks : List ℤ → Server → Outcome Server
add_blocks [] s = returns s
add_blocks (i ∷ is) s = BlockServer.copy (BlockServer.create i) >>= λ b.
    add_blocks is (record s { blocks = insert i b s.blocks; blocks_wait = put i tt s.blocks_wait })

-- Server::Server
unfoldable pub create : Config → Text → Outcome Server
unfolding add_blocks
create config id =
    if Config.is_valid config
    then elim (Config.find config id) [
      | none ↦ throws
      | some conf ↦
          add_blocks conf.blocks_id
            (record { config = config; id = id; blocks = []; blocks_wait = [] })
    ]
    else throws

-- What a request leads to: an answer, or a sleep until the block has another revision.
pub data Reply : Type 0 where
  answer : Text → Reply
  sleep : (block_id revision : ℤ) → Reply

-- `broadcast` is the block whose condition is signalled to all who wait for it.
pub record Reaction : Type 0 where
  pub server : Server
  pub reply : Reply
  pub broadcast : Option ℤ

abbrev pub answers : Server → Text → Reaction
answers s t = record { server = s; reply = answer t; broadcast = none }

-- `it->second = b`, for the entry that was found at the key `i`.
abbrev pub with_block : Server → ℤ → BlockServer → Server
with_block s i b = record s { blocks = put i b s.blocks }

-- `blocks_wait[i]`
abbrev pub with_condition : Server → ℤ → Server
with_condition s i = record s { blocks_wait = put i tt s.blocks_wait }

-- A member of the block that a reference refers to is used.
abbrev deref : Option BlockServer → Outcome BlockServer
deref none = undefined
deref (some b) = returns b

module _ (y : Yaml) where
  abbrev pub ack_text : Text
  ack_text = emit y ack ++ stop

  abbrev pub nack_text : Text
  nack_text = emit y nack ++ stop

  -- `msg.block()`, of which every request uses a member.
  unfoldable pub requested : Message → Outcome BlockServer
  requested msg = Message.block y msg >>= λ r. deref r.0

  unfoldable pub handle_map : Server → Text → BlockServer → Reaction
  handle_map s client_id request = elim (find request.id s.blocks) [
    | none ↦ answers s nack_text
    | some b ↦
        let (code, b') = BlockServer.map client_id b in
        answers (with_block s request.id b')
          (if code == pos 0 then emit_block y ack b'.block false ++ stop else nack_text)
  ]

  unfoldable pub handle_unmap : Server → Text → BlockServer → Reaction
  handle_unmap s client_id request = elim (find request.id s.blocks) [
    | none ↦ answers s nack_text
    | some b ↦
        let (code, b') = BlockServer.unmap client_id b in
        answers (with_block s request.id b') (if code == pos 0 then ack_text else nack_text)
  ]

  unfoldable pub handle_update : Server → BlockServer → Reaction
  handle_update s request = elim (find request.id s.blocks) [
    | none ↦ answers s nack_text
    | some b ↦ answers s (
        if ltb_ℤ request.revision b.revision
        then emit_block y ack b.block false ++ stop
        else emit_block y ack b.block true ++ stop)
  ]

  -- The block after a write that is let through.
  unfoldable pub written : BlockServer → BlockServer → Outcome BlockServer
  written b request = do
    b' ← BlockServer.assign b request
    returns (record b' { block = Block.add_revision b'.block })

  -- The answer to a write, with all woken who wait for the block, whether it was written or not.
  abbrev pub wakes : Server → ℤ → Text → Reaction
  wakes s i t = record { server = with_condition s i; reply = answer t; broadcast = some i }

  -- `(char*) msg.block().data()`, which is logged.
  unfoldable pub logged_data : BlockServer → Outcome Text
  unfolding c_string
  logged_data request = elim request.bytes [ none ↦ undefined | some bytes ↦ c_string bytes ]

  unfoldable pub handle_write : Server → BlockServer → Outcome Reaction
  unfolding logged_data written
  handle_write s request = elim (find request.id s.blocks) [
    | none ↦ returns (wakes s request.id nack_text)
    | some b ↦ logged_data request >>= λ shown.
        if b.revision == request.revision
        then (do
          b' ← written b request
          returns (wakes (with_block s request.id b') request.id ack_text))
        else returns (wakes s request.id nack_text)
  ]

  -- The test of the loop of `WAIT`, each time that the thread has the mutex: at first, and when
  -- `pthread_cond_wait` returns.
  unfoldable pub check_wait : Server → ℤ → ℤ → Reaction
  check_wait s block_id revision = elim (find block_id s.blocks) [
    | none ↦ answers s ack_text
    | some b ↦
        if b.revision == revision
        then record {
          server = with_condition s block_id;
          reply = sleep block_id revision;
          broadcast = none;
        }
        else answers s ack_text
  ]

  unfoldable pub handle_wait : Server → BlockServer → Reaction
  unfolding check_wait
  handle_wait s request = check_wait s request.id request.revision

  -- The `switch` on the type of a message.
  unfoldable pub dispatch : Server → Text → Message → MessageType → Outcome Reaction
  dispatch s client_id msg map = do
    request ← requested msg
    returns (handle_map s client_id request)
  dispatch s client_id msg unmap = do
    request ← requested msg
    returns (handle_unmap s client_id request)
  dispatch s client_id msg update = do request ← requested msg; returns (handle_update s request)
  dispatch s client_id msg write = do request ← requested msg; handle_write s request
  dispatch s client_id msg wait = do request ← requested msg; returns (handle_wait s request)
  dispatch s client_id msg _ = returns (answers s nack_text)

  -- Server::client_handler, from a message that is not empty to the answer.
  unfoldable pub handle : Server → Text → Text → Outcome Reaction
  handle s client_id message =
      let msg = Message.create y message in dispatch s client_id msg (type_of msg)
