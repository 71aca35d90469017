-- ===== src/BlockLocal/Copies.antt =====
-- What a copy into a local block of src/block_local.cpp does to the memory of the client.
use distributed_memory.Prelude.{ℕ, ◌≡◌, refl, none, some, Outcome, returns}
use distributed_memory.Memory.{Memory, read, write, length-read}
use distributed_memory.Block.{Block, block_size, IsWhole}
use distributed_memory.Block.Areas
use distributed_memory.BlockLocal
use distributed_memory.BlockLocal.{BlockLocal, as_block, store}

-- A local block with a pointer has an area of the full size.
pub as_block-IsWhole :
    (memory : Memory) (b : BlockLocal) (a : ℕ) → b.address ≡ some a → IsWhole (as_block memory b)
unfolding as_block
as_block-IsWhole memory b a e = record {
  area = read memory a block_size;
  bytes = rw e;
  sized = length-read memory a block_size;
}

-- A local block with a pointer takes over the id, the revision and the bytes of a whole block, and
-- keeps its pointer and its flag. The bytes go to the address that it points at.
pub assign_lem :
    (memory : Memory) (b : BlockLocal) (source : Block) (a : ℕ) (w : IsWhole source)
    → b.address ≡ some a
    → BlockLocal.assign memory b source
      ≡ returns (record b { id = source.id; revision = source.revision }, write memory a w.area)
unfolding BlockLocal.assign
assign_lem memory b source a w e =
    rw
      (
        Areas.assign_whole (as_block memory b) source (as_block-IsWhole memory b a e) w,
        BlockLocal.assign,
      )
      (rw (e, w.bytes) refl)

-- A block without a pointer cannot take bytes.
pub assign_null :
    (memory : Memory) (b : BlockLocal) (source : Block)
    → b.address ≡ none
    → BlockLocal.assign memory b source ≡ Outcome.undefined
unfolding BlockLocal.assign as_block BlockLocal.Block.assign
assign_null memory b source e = rw (e, BlockLocal.assign) refl
