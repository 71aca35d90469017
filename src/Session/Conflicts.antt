-- ===== src/Session/Conflicts.antt =====
-- A client of src/client.cpp that writes a block which another client has written meanwhile.
use distributed_memory.Prelude.{
  ◌≡◌, refl, sym, ap, subst, ◌∙◌, ℤ, int_key, ltb_ℤ, ltb_ℤ-ne, add_one, true, false, some, Text,
  text_key, own_key_lem, returns,
}
use distributed_memory.Prelude.Assoc.{find, find-put_same}
use distributed_memory.Yaml.{Yaml}
use distributed_memory.Memory.{Memory, read}
use distributed_memory.Block.{block_size}
use distributed_memory.BlockServer.{BlockServer}
use distributed_memory.BlockServer.Print.{HasZero}
use distributed_memory.BlockLocal
use distributed_memory.BlockLocal.{BlockLocal}
use distributed_memory.Network.{Network}
use distributed_memory.Server.{Server}
use distributed_memory.Server.Invariant.{IsValid}
use distributed_memory.Server.Versions.{view, view-version}
use distributed_memory.Client.{State, done, rejected, with_block, with_world}
use distributed_memory.Client.Operations.{dm_block_write, dm_block_update}
use distributed_memory.Session.{Delivers, Ready}
use distributed_memory.Session.Writes.{local_bytes, dm_block_write_current, dm_block_write_outdated}
use distributed_memory.Session.Updates.{refreshed, whole, dm_block_update_newer}

module _ (y : Yaml) {W : Type 0} (n : Network W) {servers : W → Text → Server} {client_id : Text}
    (net : Delivers y n servers client_id) where
  -- The block of a client has changed, and its memory and the world too.
  again-Ready :
      (s : State W) (id : ℤ) (r : Ready servers s id) (block : BlockLocal) (memory : Memory) (w : W)
      → block.id ≡ id
      → block.address ≡ some r.address
      → IsValid (servers w r.server_id)
      → Ready servers (record (with_block (with_world s w) id block) { memory = memory }) id
  again-Ready s id r block memory w keyed points v = record {
    server_id = r.server_id;
    owner = r.owner;
    named = r.named;
    socket = r.socket;
    connected = r.connected;
    live = r.live;
    block = block;
    held = find-put_same id block s.client.blocks;
    keyed = keyed;
    address = r.address;
    points = points;
    server_valid = v;
  }

  -- From a client that has a smaller revision than the server to one that has written the block.
  record Rewritten (s : State W) (id : ℤ) (memory : Memory) (r : Ready servers s id)
      (b : BlockServer) : Type 0 where
    newer : State W
    last : State W
    updated : dm_block_update y n id s ≡ returns (done, newer)
    shown : some (read newer.memory r.address block_size) ≡ b.bytes
    wrote : dm_block_write y n id (record newer { memory = memory }) ≡ returns (done, last)
    seen :
        view (servers last.world r.server_id) id
        ≡ some (add_one b.revision, some (read memory r.address block_size))

  update_write :
      (s : State W) (id : ℤ) (memory : Memory) (r : Ready servers s id) (b : BlockServer)
      → find id (servers s.world r.server_id).blocks ≡ some b
      → ltb_ℤ r.block.revision b.revision ≡ true
      → HasZero (read memory r.address block_size)
      → ((w : W) (t a : Text) → net.Passes w r.server_id t a)
      → Rewritten s id memory r b
  unfolding again-Ready
  update_write s id memory r b e behind zero_in passes =
      let (w, updated, shown, at, _) =
        dm_block_update_newer y n net s id r b e behind (passes _ _ _) in
      let s' = refreshed y n net s id r b e (whole y n net s id r b e).area w in
      let r' : Ready servers (record s' { memory = memory }) id =
        again-Ready s id r (record r.block { id = b.id; revision = b.revision; valid = true })
          memory w (r.server_valid.good id b e).keyed r.points
          (subst IsValid (sym at) r.server_valid) in
      let (w', wrote, views, _, _) =
        dm_block_write_current y n net (record s' { memory = memory }) id r' b
          (ap (λ q. find id q.blocks) at ∙ e) refl refl zero_in (passes _ _ _) in
      record {
        newer = s';
        last = _;
        updated = updated;
        shown = ap some shown ∙ sym (whole y n net s id r b e).bytes;
        wrote = wrote;
        seen = views id ∙ own_key_lem id _ _;
      }

  -- A conflict is seen and resolved. A client writes a valid block that it has mapped and of which the
  -- server has a greater revision: the write returns -5. An update then returns 0, and the client's
  -- memory has the server's bytes; and whatever the client then does with its memory, a second write
  -- returns 0, and the server has the bytes of the memory under the revision after the one that it had.
  -- Both times a zero is among the bytes that are written. This is over a network that delivers and lets all texts to and from the server pass.
  pub write_update_write :
      (s : State W) (id : ℤ) (memory : Memory) (r : Ready servers s id) (b : BlockServer)
      → find id (servers s.world r.server_id).blocks ≡ some b
      → ltb_ℤ r.block.revision b.revision ≡ true
      → r.block.valid ≡ true
      → HasZero (local_bytes r)
      → HasZero (read memory r.address block_size)
      → ((w : W) (t a : Text) → net.Passes w r.server_id t a)
      → (s₁ : State W) × (s₂ : State W) × (s₃ : State W) × (dm_block_write y n id s
          ≡ returns (rejected, s₁))
        × (dm_block_update y n id s₁ ≡ returns (done, s₂))
        × (some (read s₂.memory r.address block_size) ≡ b.bytes)
        × (dm_block_write y n id (record s₂ { memory = memory }) ≡ returns (done, s₃))
        × (view (servers s₃.world r.server_id) id
            ≡ some (add_one b.revision, some (read memory r.address block_size)))
  unfolding again-Ready BlockLocal.set_valid
  write_update_write s id memory r b e behind usable has_zero zero_in passes =
      let (w, refused, same, _, v) =
        dm_block_write_outdated y n net s id r b e (λ p. ltb_ℤ-ne _ _ behind (sym p)) usable
          has_zero (passes _ _ _) in
      let (b', e', versions) =
        view-version (servers s.world r.server_id) (servers w r.server_id) id b (same id) e in
      let s' : State W = with_block (with_world s w) id (BlockLocal.set_valid r.block false) in
      let u =
        update_write s' id memory
          (again-Ready s id r (BlockLocal.set_valid r.block false) s.memory w r.keyed r.points v) b'
          e' (subst (λ k. ltb_ℤ r.block.revision k ≡ true) (sym (ap (λ q. q.0) versions)) behind)
          zero_in passes in
      (
        s',
        u.newer,
        u.last,
        refused,
        u.updated,
        u.shown ∙ ap (λ q. q.1) versions,
        u.wrote,
        u.seen ∙ ap (λ q. some (add_one q.0, some (read memory r.address block_size))) versions,
      )
