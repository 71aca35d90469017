-- ===== src/Block.antt =====
-- include/dm/block.h and src/block.cpp: the base class of both kinds of block.
-- `bytes` is the area that `m_data` points at, `none` for a null pointer. The two subclasses say
-- where the area lies; copies are deep, so the base class sees areas by value.
pub mod Dump
pub mod Areas
use distributed_memory.Prelude.{
  ℕ, ◌≡◌, ℤ, pos, add_one, Bool, ◌&&◌, Option, none, some, List, ◌++◌, leb, length, take, drop,
  Outcome, returns, undefined, ◌>>=◌, if◌then◌else◌,
}

-- DIMBLOCK of type.h, which is Block::M_SIZE.
abbrev pub block_size : ℕ
block_size = 128

pub record Block : Type 0 where
  pub id : ℤ
  pub revision : ℤ
  pub bytes : Option (List ℕ)

-- Block::Block
unfoldable pub create : ℤ → Block
create id = record { id = id; revision = pos 0; bytes = none }

-- `memcpy(to, from, M_SIZE)`: undefined from or to a null pointer or past the end of an area.
unfoldable pub memcpy : Option (List ℕ) → Option (List ℕ) → Outcome (List ℕ)
memcpy none from = undefined
memcpy (some to) none = undefined
memcpy (some to) (some from) =
    if leb block_size (length to) && leb block_size (length from)
    then returns (take block_size from ++ drop block_size to)
    else undefined

-- Block::operator=. The two blocks are different objects at each of its calls.
unfoldable pub assign : Block → Block → Outcome Block
unfolding memcpy
assign b source = do
  copied ← memcpy b.bytes source.bytes
  returns (record { id = source.id; revision = source.revision; bytes = some copied })

-- Block::size
abbrev pub size : Block → ℕ
size b = block_size

-- Block::revision(int)
unfoldable pub set_revision : Block → ℤ → Block
set_revision b rev = record b { revision = rev }

-- Block::data(const void*)
unfoldable pub set_data : Block → List ℕ → Outcome Block
unfolding memcpy
set_data b source = do
  copied ← memcpy b.bytes (some source)
  returns (record b { bytes = some copied })

-- Block::add_revision
unfoldable pub add_revision : Block → Block
add_revision b = record b { revision = add_one b.revision }

-- A block with an area of its full size.
pub record IsWhole (b : Block) : Type 0 where
  pub area : List ℕ
  pub bytes : b.bytes ≡ some area
  pub sized : length area ≡ block_size
