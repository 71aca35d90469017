-- ===== src/Session/Courses.antt =====
-- A course of calls of src/client.cpp: a new client connects, maps a block, and writes it.
use distributed_memory.Prelude.{
  ℕ, ◌≡◌, refl, sym, ap, subst, ◌∙◌, ℤ, int_key, add_one, true, false, none, some, Text, text_key,
  own_key_lem, returns,
}
use distributed_memory.Prelude.Assoc.{find, find-put_same}
use distributed_memory.Yaml.{Yaml}
use distributed_memory.Memory.{Memory, read}
use distributed_memory.Block.{block_size}
use distributed_memory.BlockServer.{BlockServer}
use distributed_memory.BlockServer.Print.{HasZero}
use distributed_memory.BlockServer.Clients.{is_mapped}
use distributed_memory.BlockLocal
use distributed_memory.Config
use distributed_memory.Config.{find_server_id_by_block_id}
use distributed_memory.Network.{Network}
use distributed_memory.Server.{Server}
use distributed_memory.Server.Invariant.{IsValid}
use distributed_memory.Server.Versions.{view-version, view}
use distributed_memory.Client.{State, done, is_empty, dm_init}
use distributed_memory.Client.Operations.{dm_block_map, dm_block_write}
use distributed_memory.Session.{Delivers, Ready}
use distributed_memory.Session.Maps.{Fresh, filled, map_whole, dm_block_map_new}
use distributed_memory.Session.Writes.{dm_block_write_current}
use distributed_memory.Session.Starts.{Connects, dm_init_lem}

module _ (y : Yaml) {W : Type 0} (n : Network W) {servers : W → Text → Server} {client_id : Text}
    (net : Delivers y n servers client_id) where
  -- A client that has mapped a block can use it, whatever it does with its memory.
  mapped-Ready :
      (s : State W) (id : ℤ) (address : ℕ) (r : Fresh servers s id) (b : BlockServer)
      (e : find id (servers s.world r.server_id).blocks ≡ some b) (w : W) (memory : Memory)
      → IsValid (servers w r.server_id)
      → Ready servers (record (filled y n net s id address r b e w) { memory = memory }) id
  unfolding BlockLocal.create
  mapped-Ready s id address r b e w memory v = record {
    server_id = r.server_id;
    owner = r.owner;
    named = r.named;
    socket = r.socket;
    connected = r.connected;
    live = r.live;
    block = record { id = b.id; revision = b.revision; address = some address; valid = true };
    held = find-put_same id _ _;
    keyed = (r.server_valid.good id b e).keyed;
    address = address;
    points = refl;
    server_valid = v;
  }

  map_write :
      (s : State W) (id : ℤ) (address : ℕ) (memory : Memory) (r : Fresh servers s id)
      (b : BlockServer)
      → find id (servers s.world r.server_id).blocks ≡ some b
      → is_mapped b client_id ≡ false
      → HasZero (read memory address block_size)
      → ((w : W) (t a : Text) → net.Passes w r.server_id t a)
      → (s' : State W) × (t : State W) × (dm_block_map y n id (some address) s ≡ returns (done, s'))
        × (some (read s'.memory address block_size) ≡ b.bytes)
        × (dm_block_write y n id (record s' { memory = memory }) ≡ returns (done, t))
        × (view (servers t.world r.server_id) id
            ≡ some (add_one b.revision, some (read memory address block_size)))
  unfolding mapped-Ready
  map_write s id address memory r b e h zero_in passes =
      let (w, mapped, shown, same, valid) =
        dm_block_map_new y n net s id address r b e h (passes _ _ _) in
      let ready = mapped-Ready s id address r b e w memory valid in
      let (b', found, versions) =
        view-version (servers s.world r.server_id) (servers w r.server_id) id b (same id) e in
      let (w', wrote, views, _, _) =
        dm_block_write_current y n net
          (record (filled y n net s id address r b e w) { memory = memory }) id ready b' found
          (ap (λ v. v.0) versions) refl zero_in (passes _ _ _) in
      (
        _,
        _,
        mapped,
        ap some shown ∙ sym (map_whole y n net s id address r b e).bytes,
        wrote,
        views id ∙ own_key_lem id _ _,
      )

  -- A new client at its servers. `dm_init` returns; a block that has a server, which lists the client for
  -- it not yet, can then be mapped, and the client's memory at the given address has the server's bytes;
  -- and whatever the client then does with its memory, if the bytes there have a zero among them, a
  -- write returns 0, and the server has the bytes of the memory under the next revision. This is over a network that delivers, lets all texts to and
  -- from that server pass, and connects to every server.
  pub init_map_write :
      (connects : Connects n servers) (contents : Text) (s : State W) (id : ℤ) (address : ℕ)
      (memory : Memory) (b : BlockServer)
      → Config.is_valid (Config.create y contents) ≡ true
      → is_empty (find_server_id_by_block_id (Config.create y contents) id) ≡ false
      → find id s.client.blocks ≡ none
      → IsValid (servers s.world (find_server_id_by_block_id (Config.create y contents) id))
      → find id (servers s.world (find_server_id_by_block_id (Config.create y contents) id)).blocks
        ≡ some b
      → is_mapped b client_id ≡ false
      → HasZero (read memory address block_size)
      → ((w : W) (t a : Text)
          → net.Passes w (find_server_id_by_block_id (Config.create y contents) id) t a)
      → (s₁ : State W) × (s₂ : State W) × (s₃ : State W) × (dm_init n y contents s
          ≡ (returns tt, s₁))
        × (dm_block_map y n id (some address) s₁ ≡ returns (done, s₂))
        × (some (read s₂.memory address block_size) ≡ b.bytes)
        × (dm_block_write y n id (record s₂ { memory = memory }) ≡ returns (done, s₃))
        × (view (servers s₃.world (find_server_id_by_block_id (Config.create y contents) id)) id
            ≡ some (add_one b.revision, some (read memory address block_size)))
  init_map_write connects contents s id address memory b config_valid named unmapped v e h zero_in
        passes =
      let owner = find_server_id_by_block_id (Config.create y contents) id in
      let (s₁, r, began, at, _, kept) =
        dm_init_lem n connects y contents s id config_valid named unmapped v in
      let (s₂, s₃, mapped, shown, wrote, seen) =
        map_write s₁ id address memory r b
          (ap (λ i. find id (servers s₁.world i).blocks) at
            ∙ ap (λ q. find id q.blocks) (kept owner)
            ∙ e)
          h zero_in (subst (λ i. (w : W) (t a : Text) → net.Passes w i t a) (sym at) passes) in
      (
        s₁,
        s₂,
        s₃,
        began,
        mapped,
        shown,
        wrote,
        ap (λ i. view (servers s₃.world i) id) (sym at) ∙ seen,
      )
