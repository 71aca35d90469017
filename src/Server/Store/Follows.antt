-- ===== src/Server/Store/Follows.antt =====
-- A server of src/server.cpp against the store that it keeps.
use distributed_memory.Prelude.{
  ◌≡◌, refl, ap, ℤ, int_key, text_key, none, some, Text, ◌==◌, arith, if◌then◌else◌,
}
use distributed_memory.Prelude.Assoc.{find, find-put}
use distributed_memory.Yaml.{Yaml}
use distributed_memory.BlockServer.{BlockServer}
use distributed_memory.BlockServer.Clients.{is_mapped}
use distributed_memory.Message.{MessageType}
use distributed_memory.Server.{Server, Reaction, with_block}
use distributed_memory.Server.Invariant.{GoodBlock}
use distributed_memory.Server.Versions.{view, version}
use distributed_memory.Server.Store.{store, maps_block, said, promised, block_of}

-- A reaction of a server is what its store promises for a request.
pub record Follows (y : Yaml) (s : Server) (client : Text) (ty : MessageType) (r : BlockServer)
    (a : Reaction) : Type 0 where
  pub kept : store a.server ≡ (promised (store s) client ty r).0
  pub told : a.reply ≡ said y (promised (store s) client ty r).1

pub view-found :
    (s : Server) (k : ℤ) (b : BlockServer) → find k s.blocks ≡ some b → view s k ≡ some (version b)
unfolding view
view-found s k b e = rw (e, view) refl

pub view-missing : (s : Server) (k : ℤ) → find k s.blocks ≡ none → view s k ≡ none
unfolding view
view-missing s k e = rw (e, view) refl

pub maps_block-found :
    (s : Server) (c : Text) (k : ℤ) (b : BlockServer)
    → find k s.blocks ≡ some b
    → maps_block s c k ≡ is_mapped b c
unfolding maps_block
maps_block-found s c k b e = rw (e, maps_block) refl

pub maps_block-with_block :
    (s : Server) (i : ℤ) (b : BlockServer) (c : Text) (k : ℤ)
    → maps_block (with_block s i b) c k ≡ (if i == k then is_mapped b c else maps_block s c k)
unfolding maps_block
maps_block-with_block s i b c k = ground (arith, find-put i k b s.blocks)

-- The block of an entry is that of the store.
pub block-block_of : (k : ℤ) (b : BlockServer) → GoodBlock k b → b.block ≡ block_of k (version b)
block-block_of k b g = ap (λ i. block_of i (version b)) g.keyed
