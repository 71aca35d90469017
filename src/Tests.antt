-- ===== src/Tests.antt =====
-- Test data: one server with one block, a client of it, and the requests between them.
pub mod Blocks
pub mod Servers
pub mod Runs
pub mod Sessions
pub mod Handshakes
pub mod Programs
pub mod Sockets
pub mod Connections
pub mod Secured
pub mod Waits
pub mod Courses
pub mod Units
use distributed_memory.Prelude.{
  ℕ, suc, nat_beq, ap, ◌≡◌, refl, ℤ, pos, int_key, text_key, Bool, true, false, Option, none, some,
  List, [], ◌∷◌, Text, codes, replicate, length-replicate, ◌==◌, Bool-cases, inl, inr,
  if◌then◌else◌,
}
use distributed_memory.Prelude.Assoc.{find, put}
use distributed_memory.Yaml.{Yaml, stop}
use distributed_memory.Yaml.Codec.{codec}
use distributed_memory.Memory.{Memory, read}
use distributed_memory.Block.{Block, IsWhole, block_size}
use distributed_memory.BlockServer.Print.{HasZero, IsTerminated}
use distributed_memory.BlockServer.{BlockServer, find_mapped_client}
use distributed_memory.BlockLocal.{BlockLocal}
use distributed_memory.Config.{Config, ServerConf}
use distributed_memory.Network.{Network}
use distributed_memory.Socket
use distributed_memory.Socket.{Socket}
use distributed_memory.Server.{Server}
use distributed_memory.Server.Invariant.{IsValid, GoodBlock, with_block-IsValid}
use distributed_memory.Config.{find_server_id_by_block_id, has_block}
use distributed_memory.Client.{Client, State}
use distributed_memory.Session.{Ready}
use distributed_memory.Session.Maps.{Fresh}
use distributed_memory.Session.Loopback.{World}

-- The configured address of the server, and its configuration.
abbrev pub home : Text
home = codes "127.0.0.1:4000"

abbrev pub home_conf : ServerConf
home_conf = record {
  ip = codes "127.0.0.1";
  port = codes "4000";
  blocks_id = pos 1 ∷ [];
  pass = [];
  privkey = [];
  pubkey = [];
}

abbrev pub config : Config
config = record { servers = (home, home_conf) ∷ [] }

-- Two contents of a block, of which the second has a zero.
abbrev pub sevens : List ℕ
sevens = replicate block_size 7

abbrev pub nines : List ℕ
nines = 9 ∷ 0 ∷ replicate 126 9

-- Block 1 at a revision, with a content and a list of clients.
abbrev pub block_at : ℤ → List ℕ → List Text → BlockServer
block_at revision area clients = record {
  block = record { id = pos 1; revision = revision; bytes = some area };
  mapped_clients = clients;
}

abbrev pub alice : Text
alice = codes "10.0.0.1:7"

abbrev pub bob : Text
bob = codes "10.0.0.2:8"

-- Block 1 at revision 3 with sevens, which Alice maps.
abbrev pub stored : BlockServer
stored = block_at (pos 3) sevens (alice ∷ [])

abbrev pub server_with : BlockServer → Server
server_with b = record {
  config = config;
  id = home;
  blocks = (pos 1, b) ∷ [];
  blocks_wait = (pos 1, tt) ∷ [];
}

abbrev pub sevens-IsWhole :
    (revision : ℤ) (clients : List Text) → IsWhole (block_at revision sevens clients).block
sevens-IsWhole revision clients = record {
  area = sevens;
  bytes = refl;
  sized = length-replicate {A = ℕ} block_size 7;
}

-- A memory of nines, with a zero at the address 1, and one of fours.
abbrev pub nine_memory : Memory
nine_memory i = if nat_beq i 1 then 0 else 9

abbrev pub four_memory : Memory
four_memory i = if nat_beq i 1 then 0 else 4

pub nine_memory-HasZero : HasZero (read nine_memory 0 block_size)
unfolding read
nine_memory-HasZero = inr (inl refl)

pub four_memory-HasZero : HasZero (read four_memory 0 block_size)
unfolding read
four_memory-HasZero = inr (inl refl)

abbrev pub nines-IsWhole :
    (revision : ℤ) (clients : List Text) → IsWhole (block_at revision nines clients).block
nines-IsWhole revision clients = record {
  area = nines;
  bytes = refl;
  sized = ap (λ n. suc (suc n)) (length-replicate {A = ℕ} 126 9);
}

abbrev pub nines-IsTerminated :
    (revision : ℤ) (clients : List Text) → IsTerminated (block_at revision nines clients)
nines-IsTerminated revision clients = record {
  area = nines;
  bytes = refl;
  zero_in = inr (inl refl);
}

no_blocks-IsValid : IsValid (record (server_with stored) { blocks = [] })
unfolding find
no_blocks-IsValid = record { good = λ k b e. cc }

stored-GoodBlock : GoodBlock (pos 1) stored
stored-GoodBlock = record {
  keyed = refl;
  whole = sevens-IsWhole (pos 3) (alice ∷ []);
  distinct = (unfold find_mapped_client in refl, tt);
}

pub stored-IsValid : IsValid (server_with stored)
unfolding put
stored-IsValid = with_block-IsValid (pos 1) stored no_blocks-IsValid stored-GoodBlock

-- A client's copy of block 1 at a revision, which points at the start of its memory.
abbrev pub local_at : ℤ → BlockLocal
local_at revision = record { id = pos 1; revision = revision; address = some 0; valid = true }

-- An open connection.
abbrev pub connection : Socket
connection = record Socket.create { sockfd = pos 3 }

-- A client with the given blocks, whose memory holds nines and a zero, before a world.
abbrev pub client_with : {W : Type 0} → List (ℤ × BlockLocal) → W → State W
client_with blocks w = record {
  client = record { config = config; sockets = (home, connection) ∷ []; blocks = blocks };
  memory = nine_memory;
  world = w;
}

-- Every address leads to the one server.
abbrev pub world_of_server : BlockServer → World
world_of_server b = record { servers = λ server_id. server_with b; pending = none }

abbrev pub servers_of : World → Text → Server
servers_of w = w.servers

pub owned : find_server_id_by_block_id config (pos 1) ≡ home
unfolding find_server_id_by_block_id has_block
owned = refl

pub connected : find home ((home, connection) ∷ []) ≡ some connection
unfolding find
connected = refl

pub local_held :
    (revision : ℤ) → find (pos 1) ((pos 1, local_at revision) ∷ []) ≡ some (local_at revision)
unfolding find
local_held revision = refl

pub unmapped : ◌≡◌ {A = Option BlockLocal} (find (pos 1) []) none
unfolding find
unmapped = refl

-- A client that maps block 1 at a revision is ready.
abbrev pub ready :
    {W : Type 0} {servers : W → Text → Server} (revision : ℤ) (w : W)
    → IsValid (servers w home)
    → Ready servers (client_with ((pos 1, local_at revision) ∷ []) w) (pos 1)
ready revision w v = record {
  server_id = home;
  owner = owned;
  named = refl;
  socket = connection;
  connected = connected;
  live = refl;
  block = local_at revision;
  held = local_held revision;
  keyed = refl;
  address = 0;
  points = refl;
  server_valid = v;
}

-- A client that maps no block is ready to map one.
abbrev pub fresh :
    (b : BlockServer)
    → IsValid (server_with b)
    → Fresh servers_of (client_with [] (world_of_server b)) (pos 1)
fresh b v = record {
  server_id = home;
  owner = owned;
  named = refl;
  socket = connection;
  connected = connected;
  live = refl;
  unmapped = unmapped;
  server_valid = v;
}
