-- ===== src/BlockLocal.antt =====
-- include/dm/block_local.h and src/block_local.cpp: the blocks of a client, which point into memory
-- of the client's user.
pub mod Copies
use distributed_memory.Prelude.{
  ℕ, ℤ, pos, add_one, Bool, true, Option, none, some, List, Outcome, returns, ◌>>=◌,
}
use distributed_memory.Memory.{Memory, read, write}
use distributed_memory.Block
use distributed_memory.Block.{Block, block_size}

-- `address` is `m_data`, `none` for a null pointer; the area lies in the memory of the process.
pub record BlockLocal : Type 0 where
  pub id : ℤ
  pub revision : ℤ
  pub address : Option ℕ
  pub valid : Bool

-- BlockLocal::BlockLocal
unfoldable pub create : ℤ → Option ℕ → BlockLocal
create id address = record { id = id; revision = pos 0; address = address; valid = true }

-- The block as its base class sees it, with what the memory holds now.
unfoldable pub as_block : Memory → BlockLocal → Block
as_block memory b = record {
  id = b.id;
  revision = b.revision;
  bytes = elim b.address [ none ↦ none | some a ↦ some (read memory a block_size) ];
}

-- The area of a block is stored back; a block without one has nothing to store.
store : Memory → Option ℕ → Option (List ℕ) → Memory
store memory (some a) (some bytes) = write memory a bytes
store memory _ _ = memory

-- BlockLocal::operator=(const Block&): the base class's assignment, through the pointer. `m_valid`
-- and the pointer stay.
unfoldable pub assign : Memory → BlockLocal → Block → Outcome (BlockLocal × Memory)
unfolding as_block store
assign memory b source = do
  base ← Block.assign (as_block memory b) source
  returns (record b { id = base.id; revision = base.revision }, store memory b.address base.bytes)

-- BlockLocal::valid(bool)
unfoldable pub set_valid : BlockLocal → Bool → BlockLocal
set_valid b value = record b { valid = value }

-- Block::add_revision
unfoldable pub add_revision : BlockLocal → BlockLocal
add_revision b = record b { revision = add_one b.revision }
