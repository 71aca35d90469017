-- ===== src/Tests/Courses.antt =====
-- The theorems on a course of calls at a new client of Bob's and a server with one block.
use distributed_memory.Prelude.{
  ◌≡◌, refl, ap, ◌∙◌, pos, add_one, int_key, text_key, true, false, none, some, [], ◌∷◌, returns,
}
use distributed_memory.Prelude.Assoc.{find}
use distributed_memory.Yaml.Codec.{codec}
use distributed_memory.Memory.{read}
use distributed_memory.Block.{block_size}
use distributed_memory.Config
use distributed_memory.Config.{find_server_id_by_block_id}
use distributed_memory.Network.{Network}
use distributed_memory.Server.Versions.{view}
use distributed_memory.Client.{State, done, rejected, is_empty, dm_init}
use distributed_memory.Client.Operations.{dm_block_map, dm_block_update, dm_block_write}
use distributed_memory.Session.Loopback.{World, loopback, loopback-Delivers}
use distributed_memory.Session.Starts.{Connects}
use distributed_memory.Session.Conflicts.{write_update_write}
use distributed_memory.Session.Courses.{init_map_write}
use distributed_memory.Tests.{
  stored, four_memory, four_memory-HasZero, nine_memory-HasZero, stored-IsValid, alice, bob, home,
  local_at, ready, owned, connection, client_with, world_of_server, servers_of,
}
use distributed_memory.Tests.Programs.{contents, read_config}
use distributed_memory.Tests.Sessions.{held, bob_mapped}

abbrev alices : Network World
alices = loopback codec alice

abbrev bobs : Network World
bobs = loopback codec bob

bobs-Connects : Connects bobs servers_of
unfolding loopback
bobs-Connects = record { connected = λ conf w. (connection, w, refl, refl, λ i. refl) }

abbrev bob_new : State World
bob_new = client_with [] (world_of_server stored)

no_blocks : find (pos 1) bob_new.client.blocks ≡ none
unfolding find
no_blocks = refl

configured : Config.is_valid (Config.create codec contents) ≡ true
unfolding Config.is_valid
configured = ap Config.is_valid read_config

served : is_empty (find_server_id_by_block_id (Config.create codec contents) (pos 1)) ≡ false
served = ap (λ c. is_empty (find_server_id_by_block_id c (pos 1))) read_config ∙ ap is_empty owned

-- Between the two calls Bob fills his memory with fours and a zero.
init_map_write_example :
    (s₁ : State World) × (s₂ : State World) × (s₃ : State World) × (dm_init bobs codec contents
        bob_new
      ≡ (returns tt, s₁))
    × (dm_block_map codec bobs (pos 1) (some 0) s₁ ≡ returns (done, s₂))
    × (some (read s₂.memory 0 block_size) ≡ stored.bytes)
    × (dm_block_write codec bobs (pos 1) (record s₂ { memory = four_memory }) ≡ returns (done, s₃))
    × (view
          (s₃.world.servers (find_server_id_by_block_id (Config.create codec contents) (pos 1)))
          (pos 1)
        ≡ some (add_one (pos 3), some (read four_memory 0 block_size)))
init_map_write_example =
    init_map_write codec bobs (loopback-Delivers codec bob) bobs-Connects contents bob_new (pos 1) 0
      four_memory stored configured served no_blocks stored-IsValid held bob_mapped
      four_memory-HasZero (λ w t a. tt)

-- Alice has block 1 at revision 2, and the server at revision 3.
abbrev alice_behind : State World
alice_behind = client_with ((pos 1, local_at (pos 2)) ∷ []) (world_of_server stored)

write_update_write_example :
    (s₁ : State World) × (s₂ : State World) × (s₃ : State World) × (dm_block_write codec alices
        (pos 1)
        alice_behind
      ≡ returns (rejected, s₁))
    × (dm_block_update codec alices (pos 1) s₁ ≡ returns (done, s₂))
    × (some (read s₂.memory 0 block_size) ≡ stored.bytes)
    × (dm_block_write codec alices (pos 1) (record s₂ { memory = four_memory })
        ≡ returns (done, s₃))
    × (view (s₃.world.servers home) (pos 1)
        ≡ some (add_one (pos 3), some (read four_memory 0 block_size)))
write_update_write_example =
    write_update_write codec alices (loopback-Delivers codec alice) alice_behind (pos 1) four_memory
      (ready (pos 2) (world_of_server stored) stored-IsValid) stored held refl refl
      nine_memory-HasZero four_memory-HasZero (λ w t a. tt)
