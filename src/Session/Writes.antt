-- ===== src/Session/Writes.antt =====
-- `dm_block_write` of src/client.cpp against the server of the block.
use distributed_memory.Prelude.{
  ℕ, Bool, ◌≡◌, ◌≢◌, refl, sym, ap, subst, ◌∙◌, ℤ, int_key, add_one, true, false, ◌&&◌, some, List,
  Text, text_key, ◌==◌, ==_iff, ==_false, ◌++◌, returns, ensured, if◌then◌else◌,
}
use distributed_memory.Prelude.Assoc.{find}
use distributed_memory.Yaml.{Yaml, stop}
use distributed_memory.Memory.{read, length-read}
use distributed_memory.Block.{Block, IsWhole, block_size}
use distributed_memory.BlockServer.{BlockServer}
use distributed_memory.BlockServer.Print.{HasZero}
use distributed_memory.BlockLocal
use distributed_memory.BlockLocal.{BlockLocal, as_block}
use distributed_memory.Message.{write, ack, nack, emit_block}
use distributed_memory.Message.RoundTrip.{Carries, received, emit_block-Carries, emit-type_of}
use distributed_memory.Network.{Network, exchange}
use distributed_memory.Server.{Server, ack_text, nack_text}
use distributed_memory.Server.Invariant.{IsValid}
use distributed_memory.Server.Requests.{handle_write-IsValid}
use distributed_memory.Server.Versions.{view, is_current, handle_write_lem}
use distributed_memory.Server.Answers.{handle-write}
use distributed_memory.Client.{State, done, rejected, with_block, with_world, ask}
use distributed_memory.Client.Operations.{write_mapped, dm_block_write}
use distributed_memory.Session.{Delivers, Ready}
use distributed_memory.Session.Calls.{on_mapped_ready, ask_acked, ask_nacked}

-- The bytes that the client has for a block.
abbrev pub local_bytes :
    {W : Type 0} {servers : W → Text → Server} {s : State W} {id : ℤ} → Ready servers s id → List ℕ
local_bytes {s} r = read s.memory r.address block_size

-- No server but the one named has changed.
abbrev pub OthersKeep : {W : Type 0} → (W → Text → Server) → Text → W → W → Type 0
OthersKeep servers server_id w w' =
    (other : Text) → other ≢ server_id → servers w' other ≡ servers w other

module _ (y : Yaml) {W : Type 0} (n : Network W) {servers : W → Text → Server} {client_id : Text}
    (net : Delivers y n servers client_id) (s : State W) (id : ℤ) (r : Ready servers s id) where
  abbrev server : Server
  server = servers s.world r.server_id

  abbrev sent_block : BlockServer
  sent_block = received (as_block s.memory r.block) (local_bytes r)

  abbrev pub write_text : Text
  write_text = emit_block y write (as_block s.memory r.block) false ++ stop

  write_text-Carries : Carries y write_text write sent_block
  write_text-Carries =
      emit_block-Carries y write (as_block s.memory r.block) (local_bytes r) shown
        (length-read s.memory r.address block_size)
    where
      shown : (as_block s.memory r.block).bytes ≡ some (local_bytes r)
      shown = unfold as_block in rw r.points

  sent_block-IsWhole : IsWhole sent_block.block
  sent_block-IsWhole = record {
    area = local_bytes r;
    bytes = refl;
    sized = length-read s.memory r.address block_size;
  }

  -- The server's side of a write, and its answer back at the client.
  record Written (current : Bool) : Type 0 where
    world : W
    exchanged :
        exchange n r.server_id write_text s.world
        ≡ returns (some (if current then ack_text y else nack_text y), world)
    views :
        (k : ℤ)
        → view (servers world r.server_id) k ≡ (
            if current && id == k
            then some (add_one r.block.revision, some (local_bytes r))
            else view server k)
    others : OthersKeep servers r.server_id s.world world
    still_valid : IsValid (servers world r.server_id)

  written :
      HasZero (local_bytes r)
      → net.Passes s.world r.server_id write_text
          (if is_current server sent_block then ack_text y else nack_text y)
      → Written (is_current server sent_block)
  written zero_in passes =
      let (reaction, e, did) =
        handle_write_lem y sent_block r.server_valid sent_block-IsWhole
          (record { area = local_bytes r; bytes = refl; zero_in = zero_in }) in
      let (w, exch, at, kept) =
        net.delivered r.server_id write_text _ s.world passes
          (handle-write y server client_id write_text-Carries ∙ e) did.replied in
      record {
        world = w;
        exchanged = exch;
        views = λ k. ap (λ server'. view server' k) at ∙ did.seen k ∙ here k;
        others = kept;
        still_valid = subst IsValid (sym at) (
            ensured (λ a. IsValid a.server) _ reaction e
              (handle_write-IsValid y sent_block r.server_valid sent_block-IsWhole));
      }
    where
      here :
          (k : ℤ)
          → (if is_current server sent_block && Block.id sent_block.block == k
              then some (add_one (Block.revision sent_block.block), Block.bytes sent_block.block)
              else view server k)
            ≡ (if is_current server sent_block && id == k
                then some (add_one r.block.revision, some (local_bytes r))
                else view server k)
      here k =
          unfold as_block in
          ap
            (λ j.
              if is_current server sent_block && j == k
              then some (add_one r.block.revision, some (local_bytes r))
              else view server k)
            r.keyed

  written_as :
      (current : Bool)
      → is_current server sent_block ≡ current
      → HasZero (local_bytes r)
      → net.Passes s.world r.server_id write_text (if current then ack_text y else nack_text y)
      → Written current
  written_as current q zero_in passes = subst Written q (
      written zero_in (
        subst
          (λ c. net.Passes s.world r.server_id write_text (if c then ack_text y else nack_text y))
          (sym q) passes))

  current_iff :
      (b : BlockServer)
      → find id server.blocks ≡ some b
      → is_current server sent_block ≡ (b.revision == r.block.revision)
  unfolding is_current as_block
  current_iff b e = rw (r.keyed, e, is_current)

  asked :
      r.block.valid ≡ true
      → dm_block_write y n id s
        ≡ ask y n s r.server_id write_text
            (with_block s id (BlockLocal.set_valid r.block false))
            (λ ack t. returns (done, with_block t id (BlockLocal.add_revision r.block)))
  unfolding dm_block_write
  asked h = on_mapped_ready y n s id (write_mapped y n s id) r ∙ rw (h, write_mapped) refl

  -- Over a network that delivers, and lets the request and its answer pass, a write of a valid
  -- block that the client maps, that the server has at the same revision, and that has a zero among
  -- the bytes of the client's memory, returns 0: the server then has the bytes of the client's memory under the next revision, which is the
  -- client's new revision too. No other block of any server changes, and the server stays valid.
  pub dm_block_write_current :
      (b : BlockServer)
      → find id server.blocks ≡ some b
      → b.revision ≡ r.block.revision
      → r.block.valid ≡ true
      → HasZero (local_bytes r)
      → net.Passes s.world r.server_id write_text (ack_text y)
      → (w : W) × (dm_block_write y n id s
          ≡ returns (done, with_block (with_world s w) id (BlockLocal.add_revision r.block)))
        × ((k : ℤ)
            → view (servers w r.server_id) k ≡ (
                if id == k
                then some (add_one r.block.revision, some (local_bytes r))
                else view server k))
        × OthersKeep servers r.server_id s.world w
        × IsValid (servers w r.server_id)
  dm_block_write_current b e same valid zero_in passes = (
    did.world,
    asked valid
        ∙ ask_acked y n s _ r.server_id write_text (ack_text y) did.world _ did.exchanged
            (emit-type_of y ack),
    did.views,
    did.others,
    did.still_valid,
  )
    where
      current : is_current server sent_block ≡ true
      current = current_iff b e ∙ (==_iff b.revision r.block.revision).1 same

      did : Written true
      did = written_as true current zero_in passes

  -- Over a network that delivers, and lets the request and its answer pass, a write of a valid
  -- block that the client maps, that has a zero among the bytes of the client's memory, and of which
  -- the server has another revision, returns -5: no
  -- server changes any version, and the client's block is marked invalid and keeps its revision; and the server stays valid.
  pub dm_block_write_outdated :
      (b : BlockServer)
      → find id server.blocks ≡ some b
      → b.revision ≢ r.block.revision
      → r.block.valid ≡ true
      → HasZero (local_bytes r)
      → net.Passes s.world r.server_id write_text (nack_text y)
      → (w : W) × (dm_block_write y n id s
          ≡ returns (rejected, with_block (with_world s w) id (BlockLocal.set_valid r.block false)))
        × ((k : ℤ) → view (servers w r.server_id) k ≡ view server k)
        × OthersKeep servers r.server_id s.world w
        × IsValid (servers w r.server_id)
  dm_block_write_outdated b e other valid zero_in passes = (
    did.world,
    asked valid
        ∙ ask_nacked y n s _ r.server_id write_text (nack_text y) did.world _ did.exchanged
            (emit-type_of y nack),
    did.views,
    did.others,
    did.still_valid,
  )
    where
      outdated : is_current server sent_block ≡ false
      outdated = current_iff b e ∙ ==_false b.revision r.block.revision other

      did : Written false
      did = written_as false outdated zero_in passes
