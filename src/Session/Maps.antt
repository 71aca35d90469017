-- ===== src/Session/Maps.antt =====
-- `dm_block_map` of src/client.cpp against the server of the block.
use distributed_memory.Prelude.{
  ℕ, ◌≡◌, ◌≢◌, refl, sym, ap, subst, ◌∙◌, ℤ, int_key, true, false, none, some, Text, text_key,
  ==_refl, ◌++◌, returns, ◌>>=◌,
}
use distributed_memory.Prelude.Assoc.{find, insert, find-insert}
use distributed_memory.Yaml.{Yaml, stop}
use distributed_memory.Memory.{Memory, read}
use distributed_memory.Memory
use distributed_memory.Block.{IsWhole, block_size}
use distributed_memory.BlockServer.{BlockServer}
use distributed_memory.BlockServer.Clients.{is_mapped, map_lem}
use distributed_memory.BlockLocal
use distributed_memory.BlockLocal.{BlockLocal, as_block}
use distributed_memory.BlockLocal.Copies.{assign_lem}
use distributed_memory.Config.{find_server_id_by_block_id}
use distributed_memory.Message.{map, ack, nack, emit_block}
use distributed_memory.Message.RoundTrip.{
  Carries, received, zeros, emit_block-Carries, emit_shallow-Carries, emit-type_of,
}
use distributed_memory.Network.{Network, exchange}
use distributed_memory.Socket.{Socket, is_valid}
use distributed_memory.Server.{Server, answer, nack_text, handle_map}
use distributed_memory.Server.Invariant.{IsValid}
use distributed_memory.Server.Requests.{handle_map-IsValid}
use distributed_memory.Server.Versions.{view}
use distributed_memory.Server.Answers.{handle-map, handle_map-view}
use distributed_memory.Client.{
  State, done, bad_mapping, rejected, is_empty, with_block, with_world, ask, answered,
}
use distributed_memory.Client.Operations.{fill, map_new, map_owned, dm_block_map}
use distributed_memory.Session.{Delivers}
use distributed_memory.Session.Calls.{on_socket_live, ask_acked, ask_nacked, answered-Carries}

-- The client is connected to the server that owns the block `id` and has not mapped it.
pub record Fresh {W : Type 0} (servers : W → Text → Server) (s : State W) (id : ℤ) : Type 0 where
  pub server_id : Text
  pub owner : find_server_id_by_block_id s.client.config id ≡ server_id
  pub named : is_empty server_id ≡ false
  pub socket : Socket
  pub connected : find server_id s.client.sockets ≡ some socket
  pub live : is_valid socket ≡ true
  pub unmapped : find id s.client.blocks ≡ none
  pub server_valid : IsValid (servers s.world server_id)

module _ (y : Yaml) {W : Type 0} (n : Network W) {servers : W → Text → Server} {client_id : Text}
    (net : Delivers y n servers client_id) (s : State W) (id : ℤ) (address : ℕ)
    (r : Fresh servers s id) where
  abbrev server : Server
  server = servers s.world r.server_id

  abbrev block : BlockLocal
  block = BlockLocal.create id (some address)

  abbrev map_text : Text
  map_text = emit_block y map (as_block s.memory block) true ++ stop

  -- The client with the new block, which the call makes before it asks.
  abbrev pub entered : State W
  entered = record s { client = record s.client { blocks = insert id block s.client.blocks } }

  abbrev sent_block : BlockServer
  sent_block = received (as_block s.memory block) zeros

  asked :
      dm_block_map y n id (some address) s
      ≡ ask y n entered r.server_id map_text entered
          (λ a t. answered y n a >>= λ source. fill y n id block source t)
  unfolding dm_block_map map_owned map_new
  asked =
      ap (map_owned y n id (some address) s) r.owner
      ∙ rw (r.named, map_owned, r.unmapped)
          (on_socket_live y n s r.server_id r.socket _ r.connected r.live)

  delivered_map :
      {t : Text}
      → net.Passes s.world r.server_id map_text t
      → (handle_map y server client_id sent_block).reply ≡ answer t
      → (w : W) × (exchange n r.server_id map_text s.world ≡ returns (some t, w))
        × (servers w r.server_id ≡ (handle_map y server client_id sent_block).server)
        × ((other : Text) → other ≢ r.server_id → servers w other ≡ servers s.world other)
  delivered_map {t} passes replied =
      net.delivered r.server_id map_text t s.world passes
        (handle-map y server client_id (emit_shallow-Carries y map (as_block s.memory block)))
        replied

  keeps_versions :
      {w : W}
      → servers w r.server_id ≡ (handle_map y server client_id sent_block).server
      → (k : ℤ) → view (servers w r.server_id) k ≡ view server k
  keeps_versions at k = ap (λ s'. view s' k) at ∙ handle_map-view y server client_id sent_block k

  module _ (b : BlockServer) (e : find id server.blocks ≡ some b) where
    found : find sent_block.id server.blocks ≡ some b
    found = unfold as_block BlockLocal.create in e

    pub map_whole : IsWhole b.block
    map_whole = (r.server_valid.good id b e).whole

    -- The local block and the memory after the block was mapped.
    abbrev pub filled : W → State W
    filled w =
        with_block
          (record (with_world entered w) { memory = Memory.write s.memory address map_whole.area })
          id (record block { id = b.id; revision = b.revision })

    replied_new :
        is_mapped b client_id ≡ false
        → (handle_map y server client_id sent_block).reply
          ≡ answer (emit_block y ack b.block false ++ stop)
    unfolding handle_map
    replied_new h =
        let (code, _, kept) = map_lem client_id client_id b in
        rw (found, handle_map) (rw (code, h, kept) refl)

    replied_again :
        is_mapped b client_id ≡ true
        → (handle_map y server client_id sent_block).reply ≡ answer (nack_text y)
    unfolding handle_map
    replied_again h =
        let (code, _, _) = map_lem client_id client_id b in
        rw (found, handle_map) (rw (code, h) refl)

    -- Over a network that delivers, and lets the request and its answer pass, mapping a block that
    -- the client has not mapped, and for which the server that has it does not list the client,
    -- returns 0. The client's memory at the given address then holds the server's bytes, the local
    -- block has the server's revision, no version of any block of the server changes, and the server
    -- stays valid.
    pub dm_block_map_new :
        is_mapped b client_id ≡ false
        → net.Passes s.world r.server_id map_text (emit_block y ack b.block false ++ stop)
        → (w : W) × (dm_block_map y n id (some address) s ≡ returns (done, filled w))
          × (read (Memory.write s.memory address map_whole.area) address block_size
              ≡ map_whole.area)
          × ((k : ℤ) → view (servers w r.server_id) k ≡ view server k)
          × IsValid (servers w r.server_id)
    dm_block_map_new h passes =
        let (w, exch, at, kept) = delivered_map passes (replied_new h) in
        (
          w,
          asked
              ∙ ask_acked y n entered entered r.server_id map_text _ w _ exch (carries.typed)
              ∙ ap (λ o. o >>= λ source. fill y n id block source (with_world entered w))
                  (answered-Carries y n carries)
              ∙ filling w,
          shown,
          keeps_versions at,
          subst IsValid (sym at) (handle_map-IsValid y client_id sent_block r.server_valid),
        )
      where
        carries :
            Carries y (emit_block y ack b.block false ++ stop) ack (received b.block map_whole.area)
        carries = emit_block-Carries y ack b.block map_whole.area map_whole.bytes map_whole.sized

        filling :
            (w : W)
            → fill y n id block (received b.block map_whole.area) (with_world entered w)
              ≡ returns (done, filled w)
        filling w =
            unfold fill BlockLocal.create in
            rw
              (assign_lem s.memory block (received b.block map_whole.area).block address copied
                refl)
              refl
          where
            copied : IsWhole (received b.block map_whole.area).block
            copied = record { area = map_whole.area; bytes = refl; sized = map_whole.sized }

        shown :
            read (Memory.write s.memory address map_whole.area) address block_size ≡ map_whole.area
        shown =
            subst
              (λ k. read (Memory.write s.memory address map_whole.area) address k ≡ map_whole.area)
              map_whole.sized (Memory.read-write_self s.memory address map_whole.area)

    -- Over a network that delivers, and lets the request and its answer pass, mapping a block that
    -- the client has not mapped, but for which the server lists the client, returns -5; yet the
    -- client then has the block among its own, so that a second call returns -2.
    pub dm_block_map_refused :
        is_mapped b client_id ≡ true
        → net.Passes s.world r.server_id map_text (nack_text y)
        → (w : W) × (dm_block_map y n id (some address) s
            ≡ returns (rejected, with_world entered w))
          × (dm_block_map y n id (some address) (with_world entered w)
              ≡ returns (bad_mapping, with_world entered w))
    dm_block_map_refused h passes =
        let (w, exch, at, kept) = delivered_map passes (replied_again h) in
        (
          w,
          asked
              ∙ ask_nacked y n entered entered r.server_id map_text _ w _ exch
                  (emit-type_of y nack),
          again w,
        )
      where
        held : (w : W) → find id (with_world entered w).client.blocks ≡ some block
        held w = find-insert id id block s.client.blocks ∙ rw (r.unmapped, ==_refl id) refl

        again :
            (w : W)
            → dm_block_map y n id (some address) (with_world entered w)
              ≡ returns (bad_mapping, with_world entered w)
        again w =
            unfold dm_block_map map_owned in
            ap (map_owned y n id (some address) (with_world entered w)) r.owner
            ∙ rw (r.named, map_owned) (rw (held w) refl)
