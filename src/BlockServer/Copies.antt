-- ===== src/BlockServer/Copies.antt =====
-- Copies of the blocks of a server: the copy constructor and the assignment of src/block_server.cpp.
use distributed_memory.Prelude.{ℕ, ◌≡◌, refl, ℤ, pos, [], replicate, length-replicate, returns}
use distributed_memory.Block.{block_size, IsWhole}
use distributed_memory.Block.Areas.{memcpy_whole, assign_whole}
use distributed_memory.BlockServer.{BlockServer, copy, assign, create}

pub created-IsWhole : (id : ℤ) → IsWhole (create id).block
unfolding create
created-IsWhole id = record {
  area = replicate block_size 0;
  bytes = refl;
  sized = length-replicate {A = ℕ} block_size 0;
}

-- The copy constructor keeps the id and the bytes of a block; the copy starts with revision 0 and
-- without clients.
pub copy_lem :
    (b : BlockServer)
    → IsWhole b.block
    → copy b
      ≡ returns (record {
        block = record { id = b.id; revision = pos 0; bytes = b.bytes };
        mapped_clients = [];
      })
unfolding copy
copy_lem b w =
    rw (w.bytes, copy)
      (rw
        (memcpy_whole (replicate block_size 0) w.area (length-replicate {A = ℕ} block_size 0)
          w.sized)
        refl)

-- A new block is its own copy.
pub copy-create : (id : ℤ) → copy (create id) ≡ returns (create id)
unfolding create
copy-create id = copy_lem (create id) (created-IsWhole id)

-- An assignment takes over the id, the revision and the bytes, and keeps the clients.
pub assign_lem :
    (b source : BlockServer)
    → IsWhole b.block
    → IsWhole source.block
    → assign b source ≡ returns (record b { block = source.block })
unfolding assign
assign_lem b source w v = rw (assign_whole b.block source.block w v) refl
