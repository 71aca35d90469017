-- ===== src/Tests/Units.antt =====
-- The tests of test/unit/ on blocks and on configurations, and the readers at a text.
use distributed_memory.Prelude.{
  ℕ, ◌≡◌, refl, ℤ, pos, negsuc, int_key, text_key, true, false, none, some, List, [], ◌∷◌, ◌++◌,
  Text, codes, replicate, Outcome, returns, ◌>>=◌,
}
use distributed_memory.Memory.{read, write}
use distributed_memory.Prelude.Assoc.{find}
use distributed_memory.Block
use distributed_memory.Block.{block_size}
use distributed_memory.BlockServer
use distributed_memory.BlockServer.{BlockServer}
use distributed_memory.BlockLocal
use distributed_memory.BlockLocal.{BlockLocal}
use distributed_memory.Config
use distributed_memory.Config.{Config, ServerConf}
use distributed_memory.Reader.{count_words, count_words_lem}

count_words_lem_example : count_words (codes " two  words\n" ++ (7 ∷ [])) 12 ≡ returns 2
count_words_lem_example = count_words_lem (codes " two  words\n") (7 ∷ [])

-- block_server_test.cpp, constructor
constructed :
    ((BlockServer.create (pos 123)).id ≡ pos 123)
    × ((BlockServer.create (pos 123)).revision ≡ pos 0)
unfolding BlockServer.create
constructed = (refl, refl)

-- block_server_test.cpp, setter
set_bytes :
    Block.set_data
      (Block.set_revision (BlockServer.create (pos 123)).block (pos 10))
      (replicate 128 255)
    ≡ returns (record { id = pos 123; revision = pos 10; bytes = some (replicate 128 255) })
unfolding BlockServer.create Block.set_data Block.set_revision
set_bytes = refl

first_client : Text
first_client = codes "1.2.3.4:5678"

other_client : Text
other_client = codes "9.8.7.6:5432"

-- What four calls return, each on the block that the last one has left.
abbrev codes_of : List (BlockServer → ℤ × BlockServer) → BlockServer → List ℤ
codes_of [] b = []
codes_of (call ∷ calls) b = let (code, b') = call b in code ∷ codes_of calls b'

-- block_server_test.cpp, map
maps :
    codes_of
      (BlockServer.map first_client
        ∷ BlockServer.map first_client
        ∷ BlockServer.map other_client
        ∷ BlockServer.map other_client
        ∷ [])
      (BlockServer.create (pos 0))
    ≡ pos 0 ∷ negsuc 0 ∷ pos 0 ∷ negsuc 0 ∷ []
unfolding BlockServer.create BlockServer.map BlockServer.find_mapped_client first_client
    other_client
maps = refl

-- block_server_test.cpp, unmap
unmaps :
    codes_of
      (BlockServer.map first_client
        ∷ BlockServer.map other_client
        ∷ BlockServer.unmap first_client
        ∷ BlockServer.unmap first_client
        ∷ BlockServer.unmap other_client
        ∷ BlockServer.unmap other_client
        ∷ [])
      (BlockServer.create (pos 0))
    ≡ pos 0 ∷ pos 0 ∷ pos 0 ∷ negsuc 0 ∷ pos 0 ∷ negsuc 0 ∷ []
unfolding BlockServer.create BlockServer.map BlockServer.unmap BlockServer.erase_at
    BlockServer.find_mapped_client first_client other_client
unmaps = refl

-- block_server_test.cpp, assignment: the bytes are copied, the clients stay.
assigns :
    BlockServer.assign
      (record (BlockServer.create (pos 0)) { mapped_clients = other_client ∷ [] })
      (record {
        block = record { id = pos 123; revision = pos 0; bytes = some (replicate 128 255) };
        mapped_clients = first_client ∷ [];
      })
    ≡ returns (record {
      block = record { id = pos 123; revision = pos 0; bytes = some (replicate 128 255) };
      mapped_clients = other_client ∷ [];
    })
unfolding BlockServer.create BlockServer.assign Block.assign Block.memcpy
assigns = refl

-- block_server_test.cpp and block_local_test.cpp, revision
adds_revision : (Block.add_revision (Block.create (pos 0))).revision ≡ pos 1
unfolding Block.add_revision Block.create
adds_revision = refl

-- block_local_test.cpp, constructor and valid
local_block :
    (BlockLocal.create (pos 123) none
      ≡ record { id = pos 123; revision = pos 0; address = none; valid = true })
    × ((BlockLocal.set_valid (BlockLocal.create (pos 123) none) false).valid ≡ false)
unfolding BlockLocal.create BlockLocal.set_valid
local_block = (refl, refl)

-- block_local_test.cpp, assignment_baseclass, with the two areas behind each other.
abbrev local_copy : Outcome (ℤ × List ℕ)
local_copy =
    BlockLocal.assign (λ i. 9) (BlockLocal.create (pos 2) (some 128))
      (record { id = pos 1; revision = pos 3; bytes = some (replicate 128 5) })
    >>= λ r. returns (r.0.revision, read r.1 128 2)

assigns_local : local_copy ≡ returns (pos 3, 5 ∷ 5 ∷ [])
unfolding BlockLocal.assign BlockLocal.create Block.assign Block.memcpy read write
assigns_local = refl

abbrev conf_at : Text → Text → List ℤ → Text → ServerConf
conf_at ip port blocks pass = record {
  ip = ip;
  port = port;
  blocks_id = blocks;
  pass = pass;
  privkey = codes "key.priv";
  pubkey = codes "key.pub";
}

-- The servers of config_test.yml.
abbrev test_config : Config
test_config = record {
  servers =
      (
        codes "1.2.3.4:123",
        conf_at (codes "1.2.3.4") (codes "123") (pos 1 ∷ pos 3 ∷ pos 5 ∷ [])
            (codes "a shared secret"),
      )
      ∷ (
        codes "1.2.3.4:456",
        conf_at (codes "1.2.3.4") (codes "456") (pos 2 ∷ pos 4 ∷ pos 6 ∷ []) (codes "nope"),
      )
      ∷ (
        codes "www.foo.com:789",
        conf_at (codes "www.foo.com") (codes "789") (pos 70 ∷ pos 800 ∷ pos 900 ∷ pos 100 ∷ []) [],
      )
      ∷ [];
}

-- config_test.cpp, find
finds :
    (Config.find test_config (codes "1.2.3.4:123")
      ≡ some (
          conf_at
            (codes "1.2.3.4")
            (codes "123")
            (pos 1 ∷ pos 3 ∷ pos 5 ∷ [])
            (codes "a shared secret")))
    × (Config.find test_config (codes "nowhere") ≡ none)
unfolding Config.find find
finds = (refl, refl)

-- config_test.cpp, find_server_id_by_block_id
finds_owners :
    (Config.find_server_id_by_block_id test_config (pos 1) ≡ codes "1.2.3.4:123")
    × (Config.find_server_id_by_block_id test_config (pos 4) ≡ codes "1.2.3.4:456")
    × (Config.find_server_id_by_block_id test_config (pos 999) ≡ [])
unfolding Config.find_server_id_by_block_id Config.has_block
finds_owners = (refl, refl, refl)
