-- ===== src/Block/Areas.antt =====
-- Copies between areas of the full size of a block: `memcpy` as src/block.cpp uses it.
use mathlib.Core.List.{append-nil}
use native.Mathlib.Decide.{dec_le}
use distributed_memory.Prelude.{
  ℕ, ◌≡◌, ◌≤◌, refl, ap, some, List, arith, leb, ◌<◌, le→leb, lt→leb_false, Option-cases, Ensures,
  length, take, take_of_length, drop_of_length, length-take_of_le, Bool-cases, inl, inr, returns,
  undefined,
}
use distributed_memory.Block.{Block, block_size, memcpy, assign, set_data, IsWhole}

-- `memcpy` between two areas of the size of a block gives the source's bytes.
pub memcpy_whole :
    (to from : List ℕ)
    → length to ≡ block_size
    → length from ≡ block_size
    → memcpy (some to) (some from) ≡ returns from
unfolding memcpy
memcpy_whole to from p q =
    rw (p, q, take_of_length block_size from q, drop_of_length block_size to p)
      (ap returns (append-nil from))

-- An assignment between whole blocks makes the left one equal to the right one.
pub assign_whole :
    (b source : Block) → IsWhole b → IsWhole source → assign b source ≡ returns source
unfolding assign
assign_whole b source w v =
    rw (w.bytes, v.bytes, assign) (rw (memcpy_whole w.area v.area w.sized v.sized) refl)

-- New data of the size of a block, or longer, is copied up to that size.
pub set_data_long :
    (b : Block) (source : List ℕ)
    → IsWhole b
    → block_size ≤ length source
    → set_data b source ≡ returns (record b { bytes = some (take block_size source) })
unfolding set_data memcpy
set_data_long b source w h =
    rw
      (
        w.bytes,
        set_data,
        w.sized,
        le→leb block_size (length source) h,
        drop_of_length block_size w.area w.sized,
      )
      (ap (λ bytes. returns (record b { bytes = some bytes }))
        (append-nil (take block_size source)))

-- Shorter data is read past its end.
pub set_data_short :
    (b : Block) (source : List ℕ) → length source < block_size → set_data b source ≡ undefined
unfolding set_data memcpy
set_data_short b source h = elim (Option-cases b.bytes) [
  | inl e ↦ rw (e, set_data) refl
  | inr (area, e) ↦
      rw (e, set_data, lt→leb_false (length source) block_size h)
        (elim (Bool-cases (leb block_size (length area))) [ inl f ↦ rw f refl | inr f ↦ rw f refl ])
]

take-IsWhole :
    (b : Block) (source : List ℕ)
    → block_size ≤ length source
    → IsWhole (record b { bytes = some (take block_size source) })
take-IsWhole b source h = record {
  area = take block_size source;
  bytes = refl;
  sized = length-take_of_le block_size source h;
}

pub set_data-IsWhole :
    (b : Block) (source : List ℕ) → IsWhole b → Ensures IsWhole (set_data b source)
set_data-IsWhole b source w = elim (dec_le block_size (length source)) [
  | yes h ↦ rw (set_data_long b source w h) (take-IsWhole b source h)
  | no h ↦ rw (set_data_short b source (omega arith)) tt
]
