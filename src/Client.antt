-- ===== src/Client.antt =====
-- include/dm/client.h and src/client.cpp: the library that a program shares memory with.
pub mod Operations
use distributed_memory.Prelude.{
  ℕ, ℤ, pos, negsuc, int_key, Bool, true, false, Option, none, some, [], ◌∷◌, ◌++◌, Text, text_key,
  ◌==◌, Outcome, returns, throws, undefined, ◌>>=◌, if◌then◌else◌,
}
use distributed_memory.Prelude.Assoc.{Map, find, put, insert, erase}
use distributed_memory.Memory.{Memory}
use distributed_memory.Yaml.{Yaml, stop}
use distributed_memory.Network.{Network, exchange}
use distributed_memory.Socket.{Socket, is_valid}
use distributed_memory.Socket.Opening
use distributed_memory.Socket.Opening.{Kernel}
use distributed_memory.BlockServer.{BlockServer}
use distributed_memory.BlockLocal
use distributed_memory.BlockLocal.{BlockLocal, as_block}
use distributed_memory.Config
use distributed_memory.Config.{Config, ServerConf, find_server_id_by_block_id}
use distributed_memory.Message
use distributed_memory.Message.{
  Message, MessageType, map, unmap, update, write, wait, nack, emit_block,
}
use distributed_memory.Message.Types.{type_of}

pub record Client : Type 0 where
  pub config : Config
  pub sockets : Map Text Socket
  pub blocks : Map ℤ BlockLocal

-- What a call of the library can change: the client, the memory of the process that the blocks
-- point into, and the other end of the connections.
pub record State (W : Type 0) : Type 0 where
  pub client : Client
  pub memory : Memory
  pub world : W

-- The status codes of client.h.
abbrev pub done : ℤ
done = pos 0

abbrev pub bad_id : ℤ
bad_id = negsuc 0

-- For `dm_block_map` the block is mapped already, for the others it is not mapped.
abbrev pub bad_mapping : ℤ
bad_mapping = negsuc 1

abbrev pub connection_failed : ℤ
connection_failed = negsuc 2

abbrev pub timed_out : ℤ
timed_out = negsuc 3

abbrev pub rejected : ℤ
rejected = negsuc 4

abbrev pub is_empty : Text → Bool
is_empty [] = true
is_empty (c ∷ t) = false

-- `ack.type() == NACK`
abbrev pub is_nack : MessageType → Bool
is_nack nack = true
is_nack _ = false

-- Client::Client, with the configuration of the empty file name.
unfoldable pub create : Yaml → Client
create y = record { config = Config.create y []; sockets = []; blocks = [] }

abbrev deref : Option BlockServer → Outcome BlockServer
deref none = undefined
deref (some b) = returns b

-- A call's status code and what it leaves.
abbrev pub Result : Type 0 → Type 0
Result W = Outcome (ℤ × State W)

-- `blocks[i] = b`, for the block of a call, and the state that its messages leave.
abbrev pub with_block : {W : Type 0} → State W → ℤ → BlockLocal → State W
with_block s i b = record s { client = record s.client { blocks = put i b s.client.blocks } }

abbrev pub with_world : {W : Type 0} → State W → W → State W
with_world s w = record s { world = w }

module _ {W : Type 0} (n : Network W) where
  -- The loop of `dm_init` over the servers of the configuration.
  unfoldable pub connect_all : Map Text ServerConf → State W → Outcome (Unit {0}) × State W
  connect_all [] s = (returns tt, s)
  connect_all ((server_id, conf) ∷ servers) s =
      let (opened, w) = n.connect conf s.world in
      elim opened [
        | returns socket ↦ connect_all servers (record (with_world s w) {
          client = record s.client { sockets = put server_id socket s.client.sockets };
        })
        | throws ↦ (throws, with_world s w)
        | undefined ↦ (undefined, with_world s w)
      ]

  -- Client::dm_init on the contents of the configuration file. What it throws leaves the
  -- configuration and the connections made so far.
  unfoldable pub dm_init : Yaml → Text → State W → Outcome (Unit {0}) × State W
  unfolding connect_all
  dm_init y contents s =
      let config = Config.create y contents in
      let s' = record s { client = record s.client { config = config } } in
      if Config.is_valid config then connect_all (Config.find_all config) s' else (throws, s')

-- Client::~Client: what it leaves of the kernel, when each connection was closed.
unfoldable pub destroy : {K : Type 0} → Kernel K → Map Text Socket → K → K
unfolding Opening.destroy
destroy kernel [] k = k
destroy kernel ((server_id, socket) ∷ sockets) k =
    destroy kernel sockets (Opening.destroy kernel socket k)

module _ (y : Yaml) {W : Type 0} (n : Network W) where
  -- `*sockets[server_id]` and the test that it is valid.
  unfoldable pub on_socket : State W → Text → Result W → Result W
  on_socket s server_id rest = elim (find server_id s.client.sockets) [
    | none ↦ undefined
    | some socket ↦ if is_valid socket then rest else returns (connection_failed, s)
  ]

  -- The tests on a block whose server is known.
  unfoldable pub on_owned : State W → ℤ → (Text → BlockLocal → Result W) → Text → Result W
  unfolding on_socket
  on_owned s id rest server_id =
      if is_empty server_id then returns (bad_id, s) else elim (find id s.client.blocks) [
        | none ↦ returns (bad_mapping, s)
        | some block ↦ on_socket s server_id (rest server_id block)
      ]

  -- The tests that `dm_block_unmap`, `dm_block_update`, `dm_block_write` and `dm_block_wait` begin
  -- with.
  unfoldable pub on_mapped : State W → ℤ → (Text → BlockLocal → Result W) → Result W
  unfolding on_owned
  on_mapped s id rest = on_owned s id rest (find_server_id_by_block_id s.client.config id)

  -- A request and its answer; `rest` goes on with the message of the answer if it is no NACK, and
  -- `nacked` is what is left if it is one.
  unfoldable pub ask : State W → Text → Text → State W → (Message → State W → Result W) → Result W
  ask s server_id request nacked rest = exchange n server_id request s.world >>= λ r. elim r.0 [
    | none ↦ returns (timed_out, with_world s r.1)
    | some answer ↦
        let ack = Message.create y answer in
        if is_nack (type_of ack)
        then returns (rejected, with_world nacked r.1)
        else rest ack (with_world s r.1)
  ]

  -- `ack.block()`, of which a member is used.
  unfoldable pub answered : Message → Outcome BlockServer
  answered ack = Message.block y ack >>= λ r. deref r.0
