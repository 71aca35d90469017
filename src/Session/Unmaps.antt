-- ===== src/Session/Unmaps.antt =====
-- `dm_block_unmap` and `dm_block_wait` of src/client.cpp against the server of the block.
use distributed_memory.Prelude.{
  ◌≡◌, ◌≢◌, refl, ap, ◌∙◌, ℤ, int_key, true, false, not, ◌&&◌, none, some, Text, text_key, ◌==◌,
  ==_false, ◌++◌, returns, if◌then◌else◌,
}
use distributed_memory.Prelude.Assoc.{find, erase, find-erase}
use distributed_memory.Yaml.{Yaml, stop}
use distributed_memory.BlockServer.{BlockServer}
use distributed_memory.BlockServer.Clients.{is_mapped}
use distributed_memory.BlockLocal
use distributed_memory.BlockLocal.{BlockLocal, as_block}
use distributed_memory.Message.{unmap, wait, ack, emit_block}
use distributed_memory.Message.RoundTrip.{received, zeros, emit_shallow-Carries, emit-type_of}
use distributed_memory.Network.{Network}
use distributed_memory.Server.{
  Server, answer, ack_text, nack_text, handle_unmap, handle_wait, check_wait,
}
use distributed_memory.Server.Versions.{view}
use distributed_memory.Server.Answers.{handle-unmap, handle-wait, handle_unmap-view}
use distributed_memory.Client
use distributed_memory.Client.{State, Result, done, rejected, with_world, ask}
use distributed_memory.Client.Operations.{unmap_mapped, dm_block_unmap, dm_block_wait}
use distributed_memory.Server.Store.{maps_block}
use distributed_memory.Server.Store.Clients.{handle_unmap-maps, handle_unmap-told}
use distributed_memory.Session.{Delivers, Ready}
use distributed_memory.Session.Waits.{wait_text, wait_asked}
use distributed_memory.Session.Calls.{on_mapped_ready, ask_acked}

module _ (y : Yaml) {W : Type 0} (n : Network W) {servers : W → Text → Server} {client_id : Text}
    (net : Delivers y n servers client_id) (s : State W) (id : ℤ) (r : Ready servers s id) where
  abbrev server : Server
  server = servers s.world r.server_id

  abbrev sent_block : BlockServer
  sent_block = received (as_block s.memory r.block) zeros

  abbrev pub unmap_text : Text
  unmap_text = emit_block y unmap (as_block s.memory r.block) true ++ stop

  unmap_asked :
      dm_block_unmap y n id s
      ≡ ask y n s r.server_id unmap_text s (λ a t.
        returns (done, record t { client = record t.client { blocks = erase id t.client.blocks } }))
  unfolding dm_block_unmap unmap_mapped
  unmap_asked = on_mapped_ready y n s id (unmap_mapped y n s id) r

  module _ (b : BlockServer) (e : find id server.blocks ≡ some b) where
    found : find sent_block.id server.blocks ≡ some b
    found = unfold as_block in rw r.keyed e

    keyed : (as_block s.memory r.block).id ≡ id
    keyed = unfold as_block in r.keyed

    unmap_reply :
        (handle_unmap y server client_id sent_block).reply
        ≡ answer (if is_mapped b client_id then ack_text y else nack_text y)
    unmap_reply =
        handle_unmap-told y server client_id sent_block b
          (r.server_valid.good sent_block.id b found) found

    unmap_clients :
        (c : Text) (k : ℤ)
        → maps_block (handle_unmap y server client_id sent_block).server c k
          ≡ (not (id == k && client_id == c) && maps_block server c k)
    unmap_clients c k =
        handle_unmap-maps y server client_id sent_block b
          (r.server_valid.good sent_block.id b found) found c k
        ∙ ap (λ i. not (i == k && client_id == c) && maps_block server c k) keyed

    -- The client without the block.
    abbrev pub dropped : W → State W
    dropped w = record (with_world s w) {
      client = record s.client { blocks = erase id s.client.blocks };
    }

    -- Over a network that delivers, and lets the request and its answer pass, unmapping a block
    -- that the client maps, and for which the server lists the client, returns 0. The server then
    -- lists the client for it no more, and the client has the block no more; all other entries
    -- stay, and no version of the server's blocks changes.
    pub dm_block_unmap_lem :
        is_mapped b client_id ≡ true
        → net.Passes s.world r.server_id unmap_text (ack_text y)
        → (w : W) × (dm_block_unmap y n id s ≡ returns (done, dropped w))
          × ((k : ℤ)
              → find k (dropped w).client.blocks
                ≡ (if id == k then none else find k s.client.blocks))
          × ((c : Text) (k : ℤ)
              → maps_block (servers w r.server_id) c k
                ≡ (not (id == k && client_id == c) && maps_block server c k))
          × ((k : ℤ) → view (servers w r.server_id) k ≡ view server k)
    dm_block_unmap_lem h passes =
        let (w, exch, at, kept) =
          net.delivered r.server_id unmap_text (ack_text y) s.world passes
            (handle-unmap y server client_id
              (emit_shallow-Carries y unmap (as_block s.memory r.block)))
            (unmap_reply ∙ rw h refl) in
        (
          w,
          unmap_asked
              ∙ ask_acked y n s s r.server_id unmap_text (ack_text y) w _ exch (emit-type_of y ack),
          λ k. find-erase id k s.client.blocks,
          λ c k. ap (λ s'. maps_block s' c k) at ∙ unmap_clients c k,
          λ k.
              ap (λ s'. view s' k) at
              ∙ handle_unmap-view y server client_id sent_block k r.server_valid,
        )

    wait_reply :
        b.revision ≢ r.block.revision
        → (handle_wait y server sent_block).reply ≡ answer (ack_text y)
    unfolding handle_wait check_wait
    wait_reply other =
        rw (found, check_wait)
          (unfold as_block in rw (==_false b.revision r.block.revision other) refl)

    wait_server : b.revision ≢ r.block.revision → (handle_wait y server sent_block).server ≡ server
    unfolding handle_wait check_wait
    wait_server other =
        rw (found, check_wait)
          (unfold as_block in rw (==_false b.revision r.block.revision other) refl)

    -- Over a network that delivers, and lets the request and its answer pass, waiting for a valid
    -- block that the client maps, and whose revision on the server is not the client's any more,
    -- returns 0 at once, and the client's block is then invalid; the server does not change.
    pub dm_block_wait_passed :
        b.revision ≢ r.block.revision
        → r.block.valid ≡ true
        → net.Passes s.world r.server_id (wait_text y n s id r) (ack_text y)
        → (w : W) × (dm_block_wait y n id s
            ≡ returns
                (done, Client.with_block (with_world s w) id (BlockLocal.set_valid r.block false)))
          × (servers w r.server_id ≡ server)
    dm_block_wait_passed other valid passes =
        let (w, exch, at, kept) =
          net.delivered r.server_id (wait_text y n s id r) (ack_text y) s.world passes
            (handle-wait y server client_id
              (emit_shallow-Carries y wait (as_block s.memory r.block)))
            (wait_reply other) in
        (
          w,
          wait_asked y n s id r valid
              ∙ ask_acked y n s s r.server_id (wait_text y n s id r) (ack_text y) w _ exch
                  (emit-type_of y ack),
          at ∙ wait_server other,
        )
