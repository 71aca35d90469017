-- ===== src/Session.antt =====
-- A client of src/client.cpp connected to servers of src/server.cpp: the assumption that a connection
-- delivers, and the state in which a call of the library reaches the server of its block.
pub mod Calls
pub mod Writes
pub mod Updates
pub mod Sharing
pub mod Loopback
pub mod Maps
pub mod Threaded
pub mod Waits
pub mod Starts
pub mod Courses
pub mod Conflicts
pub mod Unmaps
pub mod Secured
use distributed_memory.Prelude.{
  ℕ, ◌≡◌, ◌≢◌, refl, ℤ, Bool, true, false, Option, none, some, Text, text_key, int_key, Outcome,
  returns,
}
use distributed_memory.Prelude.Assoc.{find}
use distributed_memory.Yaml.{Yaml}
use distributed_memory.BlockLocal.{BlockLocal}
use distributed_memory.Config.{find_server_id_by_block_id}
use distributed_memory.Network.{Network, exchange}
use distributed_memory.Socket.{Socket, is_valid}
use distributed_memory.Server.{Server, Reaction, answer, handle}
use distributed_memory.Server.Invariant.{IsValid}
use distributed_memory.Client.{Client, State, is_empty}

module _ (y : Yaml) {W : Type 0} (n : Network W) where
  -- `servers` are the servers at the other end. A request that a server answers at once comes back
  -- with that answer, where the connection to the server lets both pass, and no other server notices.
  pub record Delivers (servers : W → Text → Server) (client_id : Text) : Type 1 where
    pub Passes : W → Text → Text → Text → Type 0
    pub delivered :
        (server_id t a : Text) (w : W) {r : Reaction}
        → Passes w server_id t a
        → handle y (servers w server_id) client_id t ≡ returns r
        → r.reply ≡ answer a
        → (w' : W) × (exchange n server_id t w ≡ returns (some a, w'))
          × (servers w' server_id ≡ r.server)
          × ((other : Text) → other ≢ server_id → servers w' other ≡ servers w other)

-- The client maps the block `id` into memory and is connected to the server that owns it.
pub record Ready {W : Type 0} (servers : W → Text → Server) (s : State W) (id : ℤ) : Type 0 where
  pub server_id : Text
  pub owner : find_server_id_by_block_id s.client.config id ≡ server_id
  pub named : is_empty server_id ≡ false
  pub socket : Socket
  pub connected : find server_id s.client.sockets ≡ some socket
  pub live : is_valid socket ≡ true
  pub block : BlockLocal
  pub held : find id s.client.blocks ≡ some block
  pub keyed : block.id ≡ id
  pub address : ℕ
  pub points : block.address ≡ some address
  pub server_valid : IsValid (servers s.world server_id)
