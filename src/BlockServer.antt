-- ===== src/BlockServer.antt =====
-- include/dm/block_server.h and src/block_server.cpp: the blocks of a server, which own their memory
-- and keep the ids of the clients that map them.
pub mod Clients
pub mod Copies
pub mod Print
use distributed_memory.Prelude.{
  ℕ, zero, suc, ℤ, pos, negsuc, Option, none, some, List, [], ◌∷◌, ◌++◌, replicate, Text, text_key,
  ◌==◌, Outcome, returns, ◌>>=◌, if◌then◌else◌,
}
use distributed_memory.Block
use distributed_memory.Block.{Block, block_size}

pub record BlockServer : Type 0 where
  pub block : Block
  pub open block use *
  pub mapped_clients : List Text

-- BlockServer::BlockServer(int): the area is allocated and cleared. Allocation does not fail.
unfoldable pub create : ℤ → BlockServer
create id = record {
  block = record { id = id; revision = pos 0; bytes = some (replicate block_size 0) };
  mapped_clients = [];
}

-- BlockServer::BlockServer(const BlockServer&): `Block(b.m_id)`, and a copy of the area.
unfoldable pub copy : BlockServer → Outcome BlockServer
unfolding Block.memcpy
copy b = do
  copied ← Block.memcpy (some (replicate block_size 0)) b.bytes
  returns (record {
    block = record { id = b.id; revision = pos 0; bytes = some copied };
    mapped_clients = [];
  })

-- BlockServer::operator=
unfoldable pub assign : BlockServer → BlockServer → Outcome BlockServer
assign b source = do base ← Block.assign b.block source.block; returns (record b { block = base })

-- BlockServer::find_mapped_client: a position, `none` for `mapped_clients.end()`.
unfoldable pub find_mapped_client : Text → List Text → Option ℕ
find_mapped_client client_id [] = none
find_mapped_client client_id (c ∷ cs) =
    if c == client_id
    then some 0
    else elim (find_mapped_client client_id cs) [ none ↦ none | some i ↦ some (suc i) ]

-- `mapped_clients.erase(it)`
unfoldable pub erase_at : ℕ → List Text → List Text
erase_at i [] = []
erase_at zero (c ∷ cs) = cs
erase_at (suc i) (c ∷ cs) = c ∷ erase_at i cs

-- BlockServer::map
unfoldable pub map : Text → BlockServer → ℤ × BlockServer
map client_id b = elim (find_mapped_client client_id b.mapped_clients) [
  | none ↦ (pos 0, record b { mapped_clients = b.mapped_clients ++ client_id ∷ [] })
  | some _ ↦ (negsuc 0, b)
]

-- BlockServer::unmap
unfoldable pub unmap : Text → BlockServer → ℤ × BlockServer
unmap client_id b = elim (find_mapped_client client_id b.mapped_clients) [
  | some i ↦ (pos 0, record b { mapped_clients = erase_at i b.mapped_clients })
  | none ↦ (negsuc 0, b)
]
