-- ===== src/Tests/Sessions.antt =====
-- The theorems on the client at clients of a server with one block, over a network that delivers.
use distributed_memory.Prelude.{
  ◌≡◌, refl, ℤ, pos, int_key, text_key, true, false, some, [], ◌∷◌, returns,
}
use distributed_memory.Prelude.Assoc.{find, put}
use distributed_memory.Yaml.Codec.{codec}
use distributed_memory.Memory.{read}
use distributed_memory.Memory
use distributed_memory.Block.{block_size, IsWhole}
use distributed_memory.BlockServer.{find_mapped_client}
use distributed_memory.BlockServer.Clients.{is_mapped}
use distributed_memory.BlockLocal
use distributed_memory.BlockLocal.{BlockLocal}
use distributed_memory.Message.RoundTrip.{zeros}
use distributed_memory.Network.{Network}
use distributed_memory.Server.Invariant.{IsValid}
use distributed_memory.Server.Versions.{view}
use distributed_memory.Client.{State, done, rejected, bad_mapping, with_block, with_world}
use distributed_memory.Client.Operations.{dm_block_map, dm_block_update, dm_block_write}
use distributed_memory.Session.{Delivers, Ready}
use distributed_memory.Session.Loopback.{World, loopback, loopback-Delivers}
use distributed_memory.Session.Writes.{OthersKeep, dm_block_write_current}
use distributed_memory.Session.Updates.{whole, dm_block_update_newer, dm_block_update_behind}
use distributed_memory.Session.Sharing.{write_update}
use distributed_memory.Session.Maps.{
  entered, filled, map_whole, dm_block_map_new, dm_block_map_refused,
}
use distributed_memory.Tests.{
  stored, nine_memory, nine_memory-HasZero, stored-IsValid, server_with, alice, bob, home, local_at,
  client_with, world_of_server, servers_of, ready, fresh,
}

-- Alice's and Bob's connections.
abbrev alices : Network World
alices = loopback codec alice

abbrev bobs : Network World
bobs = loopback codec bob

abbrev alices-Delivers : Delivers codec alices servers_of alice
alices-Delivers = loopback-Delivers codec alice

abbrev bobs-Delivers : Delivers codec bobs servers_of bob
bobs-Delivers = loopback-Delivers codec bob

-- A client that has block 1 at a revision.
abbrev client_at : ℤ → State World
client_at revision = client_with ((pos 1, local_at revision) ∷ []) (world_of_server stored)

abbrev ready_at : (revision : ℤ) → Ready servers_of (client_at revision) (pos 1)
ready_at revision = ready revision (world_of_server stored) stored-IsValid

pub held : find (pos 1) (server_with stored).blocks ≡ some stored
unfolding find
held = refl

-- The area of the stored block, as a client finds it on the server.
abbrev stored_whole : (revision : ℤ) → IsWhole stored.block
stored_whole revision =
    whole codec alices alices-Delivers (client_at revision) (pos 1) (ready_at revision) stored held

dm_block_update_newer_example :
    (w : World) × (dm_block_update codec alices (pos 1) (client_at (pos 2))
      ≡ returns (
        done,
        record {
          client = record (client_at (pos 2)).client {
            blocks = put (pos 1) (local_at (pos 3)) (client_at (pos 2)).client.blocks;
          };
          memory = Memory.write nine_memory 0 (stored_whole (pos 2)).area;
          world = w;
        },
      ))
    × (read (Memory.write nine_memory 0 (stored_whole (pos 2)).area) 0 block_size
        ≡ (stored_whole (pos 2)).area)
    × (w.servers home ≡ server_with stored)
    × OthersKeep servers_of home (world_of_server stored) w
dm_block_update_newer_example =
    dm_block_update_newer codec alices alices-Delivers (client_at (pos 2)) (pos 1)
      (ready_at (pos 2)) stored held refl tt

dm_block_update_behind_example :
    (w : World) × (dm_block_update codec alices (pos 1) (client_at (pos 4))
      ≡ returns (
        done,
        record {
          client = record (client_at (pos 4)).client {
            blocks = put (pos 1) (local_at (pos 3)) (client_at (pos 4)).client.blocks;
          };
          memory = Memory.write nine_memory 0 zeros;
          world = w;
        },
      ))
    × (w.servers home ≡ server_with stored)
    × OthersKeep servers_of home (world_of_server stored) w
dm_block_update_behind_example =
    dm_block_update_behind codec alices alices-Delivers (client_at (pos 4)) (pos 1)
      (ready_at (pos 4)) stored held refl (λ e. cc) tt

after_write :
    (w : World) × (dm_block_write codec alices (pos 1) (client_at (pos 3))
      ≡ returns (
        done,
        with_block
            (with_world (client_at (pos 3)) w)
            (pos 1)
            (BlockLocal.add_revision (local_at (pos 3))),
      ))
    × IsValid (w.servers home)
after_write =
    let (w, ran, _, _, valid) =
      dm_block_write_current codec alices alices-Delivers (client_at (pos 3)) (pos 1)
        (ready_at (pos 3)) stored held refl refl nine_memory-HasZero tt in
    (w, ran, valid)

-- Alice after her write, and Bob, who still has revision 2, in what it left.
abbrev alice_written : State World
alice_written =
    with_block (with_world (client_at (pos 3)) after_write.0) (pos 1)
      (BlockLocal.add_revision (local_at (pos 3)))

abbrev bob_outdated : State World
bob_outdated = client_with ((pos 1, local_at (pos 2)) ∷ []) after_write.0

write_update_example :
    (t : State World) × (dm_block_update codec bobs (pos 1) bob_outdated ≡ returns (done, t))
    × (read t.memory 0 block_size ≡ read nine_memory 0 block_size)
write_update_example =
    write_update codec alices bobs alices-Delivers bobs-Delivers (client_at (pos 3)) alice_written
      bob_outdated (pos 1) (ready_at (pos 3)) (ready (pos 2) after_write.0 after_write.2) stored
      held refl refl nine_memory-HasZero tt after_write.1 refl refl refl (λ c found. tt)

pub bob_mapped : is_mapped stored bob ≡ false
unfolding is_mapped find_mapped_client
bob_mapped = refl

pub alice_mapped : is_mapped stored alice ≡ true
unfolding is_mapped find_mapped_client
alice_mapped = refl

-- Bob before any call, and the area that he finds on the server.
abbrev bob_new : State World
bob_new = client_with [] (world_of_server stored)

abbrev found_whole : IsWhole stored.block
found_whole =
    map_whole codec bobs bobs-Delivers bob_new (pos 1) 0 (fresh stored stored-IsValid) stored held

dm_block_map_new_example :
    (w : World) × (dm_block_map codec bobs (pos 1) (some 0) bob_new
      ≡ returns (
        done,
        filled codec bobs bobs-Delivers bob_new
            (pos 1)
            0
            (fresh stored stored-IsValid)
            stored
            held
            w,
      ))
    × (read (Memory.write nine_memory 0 found_whole.area) 0 block_size ≡ found_whole.area)
    × ((k : ℤ) → view (w.servers home) k ≡ view (server_with stored) k)
    × IsValid (w.servers home)
dm_block_map_new_example =
    dm_block_map_new codec bobs bobs-Delivers (client_with [] (world_of_server stored)) (pos 1) 0
      (fresh stored stored-IsValid) stored held bob_mapped tt

-- Alice, whom the server lists, after she was started anew.
abbrev alice_new : State World
alice_new = client_with [] (world_of_server stored)

abbrev alice_entered : State World
alice_entered =
    entered codec alices alices-Delivers alice_new (pos 1) 0 (fresh stored stored-IsValid)

dm_block_map_refused_example :
    (w : World) × (dm_block_map codec alices (pos 1) (some 0) alice_new
      ≡ returns (rejected, with_world alice_entered w))
    × (dm_block_map codec alices (pos 1) (some 0) (with_world alice_entered w)
        ≡ returns (bad_mapping, with_world alice_entered w))
dm_block_map_refused_example =
    dm_block_map_refused codec alices alices-Delivers (client_with [] (world_of_server stored))
      (pos 1) 0 (fresh stored stored-IsValid) stored held alice_mapped tt
