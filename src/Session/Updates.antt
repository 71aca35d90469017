-- ===== src/Session/Updates.antt =====
-- `dm_block_update` of src/client.cpp against the server of the block.
use distributed_memory.Prelude.{
  ℕ, ◌≡◌, ◌≢◌, refl, sym, ap, subst, ◌∙◌, ℤ, int_key, ltb_ℤ, ltb_ℤ-ne, Bool, true, false, some,
  List, Text, text_key, ==_iff, ==_false, ◌++◌, length, returns, ◌>>=◌, if◌then◌else◌,
  length-replicate,
}
use distributed_memory.Prelude.Assoc.{find}
use distributed_memory.Yaml.{Yaml, stop}
use distributed_memory.Memory.{Memory, read}
use distributed_memory.Memory
use distributed_memory.Block.{IsWhole, block_size}
use distributed_memory.BlockServer.{BlockServer}
use distributed_memory.BlockLocal
use distributed_memory.BlockLocal.{BlockLocal, as_block}
use distributed_memory.BlockLocal.Copies.{assign_lem}
use distributed_memory.Message.{update, ack, emit_block}
use distributed_memory.Message.RoundTrip.{
  Carries, received, zeros, emit_block-Carries, emit_shallow-Carries,
}
use distributed_memory.Network.{Network, exchange}
use distributed_memory.Server.{Server, answer, handle_update}
use distributed_memory.Server.Requests.{handle_update-server}
use distributed_memory.Server.Answers.{handle-update, handle_update_found}
use distributed_memory.Client.{State, done, with_block, with_world, answered}
use distributed_memory.Client.Operations.{refresh, update_mapped, dm_block_update}
use distributed_memory.Session.{Delivers, Ready}
use distributed_memory.Session.Calls.{on_mapped_ready, ask_acked, answered-Carries}
use distributed_memory.Session.Writes.{OthersKeep}

module _ (y : Yaml) {W : Type 0} (n : Network W) {servers : W → Text → Server} {client_id : Text}
    (net : Delivers y n servers client_id) (s : State W) (id : ℤ) (r : Ready servers s id) where
  abbrev server : Server
  server = servers s.world r.server_id

  abbrev sent_block : BlockServer
  sent_block = received (as_block s.memory r.block) zeros

  abbrev update_text : Text
  update_text = emit_block y update (as_block s.memory r.block) true ++ stop

  module _ (b : BlockServer) (e : find id server.blocks ≡ some b) where
    pub whole : IsWhole b.block
    whole = (r.server_valid.good id b e).whole

    -- The bytes of the answer: those of the block where it has a greater revision than the client's.
    abbrev answered_bytes : List ℕ
    answered_bytes = if ltb_ℤ r.block.revision b.revision then whole.area else zeros

    abbrev answer_text : Text
    answer_text =
        if ltb_ℤ r.block.revision b.revision
        then emit_block y ack b.block false ++ stop
        else emit_block y ack b.block true ++ stop

    answer_text-Carries : Carries y answer_text ack (received b.block answered_bytes)
    answer_text-Carries = by_test (ltb_ℤ r.block.revision b.revision)
      where
        by_test :
            (newer : Bool)
            → Carries y
                (if newer
                  then emit_block y ack b.block false ++ stop
                  else emit_block y ack b.block true ++ stop)
                ack
                (received b.block (if newer then whole.area else zeros))
        by_test true = emit_block-Carries y ack b.block whole.area whole.bytes whole.sized
        by_test false = emit_shallow-Carries y ack b.block

    found : find sent_block.id server.blocks ≡ some b
    found = unfold as_block in rw r.keyed e

    replied : (handle_update y server sent_block).reply ≡ answer answer_text
    replied = unfold as_block in handle_update_found y server sent_block b found

    -- The connection lets the request and its answer pass.
    abbrev pub IsAnswered : Type 0
    IsAnswered = net.Passes s.world r.server_id update_text answer_text

    -- The client's side of an update.
    updated :
        IsAnswered
        → (w : W) × (dm_block_update y n id s
            ≡ refresh y n id r.block (received b.block answered_bytes) (with_world s w))
          × (servers w r.server_id ≡ server)
          × OthersKeep servers r.server_id s.world w
    updated passes =
        let (w, exch, at, kept) =
          net.delivered r.server_id update_text answer_text s.world passes
            (handle-update y server client_id
              (emit_shallow-Carries y update (as_block s.memory r.block)))
            replied in
        (w, asked w exch, at ∙ handle_update-server y server sent_block, kept)
      where
        asked :
            (w : W)
            → exchange n r.server_id update_text s.world ≡ returns (some answer_text, w)
            → dm_block_update y n id s
              ≡ refresh y n id r.block (received b.block answered_bytes) (with_world s w)
        asked w exch =
            unfold dm_block_update update_mapped in
            on_mapped_ready y n s id (update_mapped y n s id) r
            ∙ ask_acked y n s s r.server_id update_text answer_text w
                (λ ack t. answered y n ack >>= λ source. refresh y n id r.block source t) exch
                answer_text-Carries.typed
            ∙ ap (λ o. o >>= λ source. refresh y n id r.block source (with_world s w))
                (answered-Carries y n answer_text-Carries)

    -- The local block and the memory after an update that copies `bytes`.
    abbrev pub refreshed : List ℕ → W → State W
    refreshed bytes w =
        with_block (record (with_world s w) { memory = Memory.write s.memory r.address bytes }) id
          (record r.block { id = b.id; revision = b.revision; valid = true })

    refresh_other :
        (w : W) (bytes : List ℕ)
        → length bytes ≡ block_size
        → r.block.revision ≢ b.revision
        → refresh y n id r.block (received b.block bytes) (with_world s w)
          ≡ returns (done, refreshed bytes w)
    refresh_other w bytes sized other =
        unfold refresh BlockLocal.set_valid in
        rw (==_false r.block.revision b.revision other) (
          rw (assign_lem s.memory r.block (received b.block bytes).block r.address copied r.points)
            refl)
      where
        copied : IsWhole (received b.block bytes).block
        copied = record { area = bytes; bytes = refl; sized = sized }

    -- Over a network that delivers, and lets the request and its answer pass, an update of a block
    -- that the client maps, and of which the server has a greater revision, returns 0: the
    -- server's bytes are in the client's memory, and the block is valid and has the server's
    -- revision. No server changes.
    pub dm_block_update_newer :
        ltb_ℤ r.block.revision b.revision ≡ true
        → IsAnswered
        → (w : W) × (dm_block_update y n id s ≡ returns (done, refreshed whole.area w))
          × (read (Memory.write s.memory r.address whole.area) r.address block_size ≡ whole.area)
          × (servers w r.server_id ≡ server)
          × OthersKeep servers r.server_id s.world w
    dm_block_update_newer newer passes =
        let (w, asked, at, kept) = updated passes in
        (
          w,
          (rw newer at asked) ∙ refresh_other w whole.area whole.sized (ltb_ℤ-ne _ _ newer),
          shown,
          at,
          kept,
        )
      where
        shown : read (Memory.write s.memory r.address whole.area) r.address block_size ≡ whole.area
        shown =
            subst (λ k. read (Memory.write s.memory r.address whole.area) r.address k ≡ whole.area)
              whole.sized (Memory.read-write_self s.memory r.address whole.area)

    -- Over a network that delivers, and lets the request and its answer pass, an update of a block
    -- that the client maps, and that the server has at the client's revision, returns 0 and
    -- changes neither the client nor a server.
    pub dm_block_update_same :
        b.revision ≡ r.block.revision
        → IsAnswered
        → (w : W) × (dm_block_update y n id s ≡ returns (done, with_world s w))
          × (servers w r.server_id ≡ server)
          × OthersKeep servers r.server_id s.world w
    dm_block_update_same same passes =
        let (w, asked, at, kept) = updated passes in
        (
          w,
          asked ∙ (unfold refresh in rw ((==_iff r.block.revision b.revision).1 (sym same)) refl),
          at,
          kept,
        )

    -- Over a network that delivers, and lets the request and its answer pass, an update of a block
    -- that the client maps, and of which the server has a smaller revision, as after the server
    -- was started anew, returns 0 too and marks the block valid under the server's revision; but
    -- the client's bytes are then all zero, whatever the server has.
    pub dm_block_update_behind :
        ltb_ℤ r.block.revision b.revision ≡ false
        → r.block.revision ≢ b.revision
        → IsAnswered
        → (w : W) × (dm_block_update y n id s ≡ returns (done, refreshed zeros w))
          × (servers w r.server_id ≡ server)
          × OthersKeep servers r.server_id s.world w
    dm_block_update_behind behind other passes =
        let (w, asked, at, kept) = updated passes in
        (
          w,
          (rw behind at asked)
              ∙ refresh_other w zeros (length-replicate {A = ℕ} block_size 0) other,
          at,
          kept,
        )
