-- ===== src/Session/Sharing.antt =====
-- Two clients of src/client.cpp that share a block of a server.
use distributed_memory.Prelude.{
  ◌≡◌, refl, sym, ap, subst, ◌∙◌, ℤ, int_key, ltb_ℤ, add_one, true, some, Text, ◌==◌, ==_refl,
  returns, throws, undefined, if◌then◌else◌,
}
use distributed_memory.Prelude.Assoc.{find}
use distributed_memory.Yaml.{Yaml}
use distributed_memory.Memory.{read}
use distributed_memory.Block.{block_size}
use distributed_memory.BlockServer.{BlockServer}
use distributed_memory.BlockServer.Print.{HasZero}
use distributed_memory.Network.{Network}
use distributed_memory.Server.{Server, ack_text}
use distributed_memory.Server.Versions.{found_of_view, some-injective_lem, view}
use distributed_memory.Client.{State, Result, done}
use distributed_memory.Client.Operations.{dm_block_write, dm_block_update}
use distributed_memory.Session.{Delivers, Ready}
use distributed_memory.Session.Writes.{local_bytes, write_text, dm_block_write_current}
use distributed_memory.Session.Updates.{IsAnswered, dm_block_update_newer, whole}

-- What a call leaves of the world where it returns, else `w`.
abbrev world_of : {W : Type 0} → Result W → W → W
world_of (returns r) w = r.1.world
world_of throws w = w
world_of undefined w = w

module _ (y : Yaml) {W : Type 0} {servers : W → Text → Server} where
  -- A write of a valid block that returns 0, at the revision of the server, has put the client's
  -- bytes on the server under the next revision.
  written_of_done :
      (n : Network W) {client_id : Text} (net : Delivers y n servers client_id) (s s' : State W)
      (id : ℤ) (r : Ready servers s id) (b : BlockServer)
      → find id (servers s.world r.server_id).blocks ≡ some b
      → b.revision ≡ r.block.revision
      → r.block.valid ≡ true
      → HasZero (local_bytes r)
      → net.Passes s.world r.server_id (write_text y n net s id r) (ack_text y)
      → dm_block_write y n id s ≡ returns (done, s')
      → view (servers s'.world r.server_id) id
        ≡ some (add_one r.block.revision, some (local_bytes r))
  written_of_done n net s s' id r b e same valid zero_in passes h =
      let (w, ran, seen, _, _) =
        dm_block_write_current y n net s id r b e same valid zero_in passes in
      (subst
        (λ w'.
          view (servers w' r.server_id) id ≡ some (add_one r.block.revision, some (local_bytes r)))
        (ap (λ o. world_of o s.world) (sym ran ∙ h)) (seen id ∙ here))
    where
      here :
          (if id == id
            then some (add_one r.block.revision, some (local_bytes r))
            else view (servers s.world r.server_id) id)
          ≡ some (add_one r.block.revision, some (local_bytes r))
      here = rw (==_refl id) refl

  -- What one client has written, another one reads, over networks that deliver, and let the write,
  -- the update and their answers pass. `s` is a client before a write that returns 0, of a valid
  -- block at the server's revision with a zero among its bytes, and `s'` is what the write leaves; `t` is a client that maps
  -- the block on the same server in what `s'` left, at a revision smaller than the written one.
  -- Its update returns 0, and its memory then holds the bytes that the first client's memory held.
  pub write_update :
      (n m : Network W) {client_id other_id : Text} (net : Delivers y n servers client_id)
      (other_net : Delivers y m servers other_id) (s s' t : State W) (id : ℤ)
      (r : Ready servers s id) (q : Ready servers t id) (b : BlockServer)
      → find id (servers s.world r.server_id).blocks ≡ some b
      → b.revision ≡ r.block.revision
      → r.block.valid ≡ true
      → HasZero (local_bytes r)
      → net.Passes s.world r.server_id (write_text y n net s id r) (ack_text y)
      → dm_block_write y n id s ≡ returns (done, s')
      → t.world ≡ s'.world
      → q.server_id ≡ r.server_id
      → ltb_ℤ q.block.revision (add_one r.block.revision) ≡ true
      → ((c : BlockServer) (found : find id (servers t.world q.server_id).blocks ≡ some c)
          → IsAnswered y m other_net t id q c found)
      → (t' : State W) × (dm_block_update y m id t ≡ returns (done, t'))
        × (read t'.memory q.address block_size ≡ local_bytes r)
  write_update n m net other_net s s' t id r q b e same valid zero_in passes h at_world at_server
        behind answers =
      let (c, found, versions) = found_of_view (servers t.world q.server_id) id _ there in
      let (w, ran, shown, _, _) =
        dm_block_update_newer y m other_net t id q c found
          (subst (λ k. ltb_ℤ q.block.revision k ≡ true) (sym (ap (λ v. v.0) versions)) behind)
          (answers c found) in
      (_, ran, shown ∙ bytes c found (ap (λ v. v.1) versions))
    where
      there :
          view (servers t.world q.server_id) id
          ≡ some (add_one r.block.revision, some (local_bytes r))
      there =
          rw (at_world, at_server) (written_of_done n net s s' id r b e same valid zero_in passes h)

      bytes :
          (c : BlockServer) (found : find id (servers t.world q.server_id).blocks ≡ some c)
          → c.bytes ≡ some (local_bytes r)
          → (whole y m other_net t id q c found).area ≡ local_bytes r
      bytes c found p = some-injective_lem (sym (whole y m other_net t id q c found).bytes ∙ p)
