-- ===== src/Memory.antt =====
-- The address space of a process, a byte at each address, as far as the program reads and writes it:
-- the areas that a user of the client library hands to `Client::dm_block_map`.
use distributed_memory.Prelude.{
  ℕ, zero, suc, ◌+◌, ◌≤◌, ◌<◌, ◌≡◌, refl, ap, ◌⊎◌, inl, inr, List, [], ◌∷◌, arith, nat_beq, length,
  if◌then◌else◌,
}

abbrev pub Memory : Type 0
Memory = ℕ → ℕ

-- The `n` bytes from the address `a` on.
unfoldable pub read : Memory → ℕ → ℕ → List ℕ
read m a zero = []
read m a (suc n) = m a ∷ read m (suc a) n

-- A list of bytes stored from the address `a` on.
unfoldable pub write : Memory → ℕ → List ℕ → Memory
write m a [] j = m j
write m a (b ∷ bs) j = if nat_beq a j then b else write m (suc a) bs j

pub length-read : (m : Memory) (a n : ℕ) → length (read m a n) ≡ n
unfolding read
length-read m a zero = refl
length-read m a (suc n) = ap suc (length-read m (suc a) n)

-- Outside its area a write changes nothing.
pub write_outside :
    (m : Memory) (a : ℕ) (bs : List ℕ) (j : ℕ)
    → (j < a) ⊎ (a + length bs ≤ j)
    → write m a bs j ≡ m j
unfolding write
write_outside m a [] j h = refl
write_outside m a (b ∷ bs) j h = ground (arith, write_outside m (suc a) bs j)

-- Two memories that agree on an area give the same bytes.
read-agree :
    (m m' : Memory) (a n : ℕ)
    → ((j : ℕ) → a ≤ j → j < a + n → m' j ≡ m j)
    → read m' a n ≡ read m a n
unfolding read
read-agree m m' a zero h = refl
read-agree m m' a (suc n) h = cc (
  h a (omega arith) (omega arith),
  read-agree m m' (suc a) n (λ j p q. h j (omega arith) (omega arith)),
)

-- What was written is read back.
pub read-write_self : (m : Memory) (a : ℕ) (bs : List ℕ) → read (write m a bs) a (length bs) ≡ bs
unfolding read write
read-write_self m a [] = refl
read-write_self m a (b ∷ bs) = cc (
  first,
  read-agree (write m (suc a) bs) (write m a (b ∷ bs)) (suc a) (length bs) (λ j p q. above j p),
  read-write_self m (suc a) bs,
)
  where
    first : write m a (b ∷ bs) a ≡ b
    first = ground arith

    above : (j : ℕ) → suc a ≤ j → write m a (b ∷ bs) j ≡ write m (suc a) bs j
    above j p = ground arith

-- An area that the write does not touch is read as before.
pub read-write_disjoint :
    (m : Memory) (a : ℕ) (bs : List ℕ) (c n : ℕ)
    → (c + n ≤ a) ⊎ (a + length bs ≤ c)
    → read (write m a bs) c n ≡ read m c n
read-write_disjoint m a bs c n (inl h) =
    read-agree m (write m a bs) c n (λ j p q. write_outside m a bs j (inl (omega arith)))
read-write_disjoint m a bs c n (inr h) =
    read-agree m (write m a bs) c n (λ j p q. write_outside m a bs j (inr (omega arith)))
