-- ===== src/Block/Dump.antt =====
-- Block::dump_hex.
use distributed_memory.Prelude.{
  ℕ, ◌+◌, ◌-◌, ◌*◌, ◌/◌, ◌%◌, ◌≤◌, ◌≡◌, refl, none, some, List, [], ◌∷◌, ◌++◌, arith, Text, ltb,
  nat_beq, leb, false, length, take, take_of_length, Bool-cases, inl, inr, ap, ◌∙◌, Outcome,
  returns, undefined, if◌then◌else◌,
}
use distributed_memory.Block.{Block, block_size, IsWhole}

-- A digit in `hex`, as its ASCII code.
hex_digit : ℕ → ℕ
hex_digit d = if ltb d 10 then d + 48 else d + 87

-- `setw(2) << setfill('0') << hex << (int) byte << " "`
dump_byte : ℕ → Text
unfolding hex_digit
dump_byte b = hex_digit (b / 16) ∷ hex_digit (b % 16) ∷ 32 ∷ []

-- The loop of `dump_hex` from the index `i` on: a line break behind every sixteenth byte.
dump_rows : ℕ → List ℕ → Text
unfolding dump_byte
dump_rows i [] = []
dump_rows i (b ∷ bs) =
    dump_byte b ++ ((if nat_beq ((i + 1) % 16) 0 then 10 ∷ [] else []) ++ dump_rows (i + 1) bs)

pub dump_hex : Block → Outcome Text
unfolding dump_rows
dump_hex b = elim b.bytes [
  | none ↦ undefined
  | some area ↦
      if leb block_size (length area)
      then returns (dump_rows 0 (take block_size area))
      else undefined
]

length-dump_rows :
    (i : ℕ) (bs : List ℕ) → length (dump_rows i bs) + i / 16 ≡ 3 * length bs + (i + length bs) / 16
unfolding dump_rows
length-dump_rows i [] = omega arith
length-dump_rows i (b ∷ bs) = ground (arith, length-dump_rows (i + 1) bs)

-- Reads a dump back: `spare` is the first digit of a pair, and what is no digit is skipped.
digit_value : ℕ → ℕ
digit_value c = if ltb c 58 then c - 48 else c - 87

unfoldable pub undump : Text → List ℕ
unfolding digit_value
undump (a ∷ b ∷ c ∷ rest) =
    let from_break = undump (b ∷ c ∷ rest) in
    let from_pair = undump rest in
    if nat_beq a 10 then from_break else (digit_value a * 16 + digit_value b) ∷ from_pair
undump _ = []

abbrev pub AllBytes : List ℕ → Type 0
AllBytes [] = Unit {0}
AllBytes (b ∷ bs) = (b ≤ 255) × AllBytes bs

undump-break : (i : ℕ) (bs : List ℕ) → undump (10 ∷ dump_rows i bs) ≡ undump (dump_rows i bs)
unfolding undump dump_rows
undump-break i [] = refl
undump-break i (b ∷ bs) = refl

digit_value-hex_digit : (d : ℕ) → d ≤ 15 → digit_value (hex_digit d) ≡ d
unfolding digit_value hex_digit
digit_value-hex_digit d h = ground arith

hex_digit-ne-break : (d : ℕ) → nat_beq (hex_digit d) 10 ≡ false
unfolding hex_digit
hex_digit-ne-break d = ground arith

-- The three characters of a byte are read back as that byte.
undump-byte : (b : ℕ) (rest : Text) → b ≤ 255 → undump (dump_byte b ++ rest) ≡ b ∷ undump rest
unfolding undump dump_byte
undump-byte b rest h = rw (hex_digit-ne-break (b / 16)) (ap (λ v. v ∷ undump rest) value)
  where
    value : digit_value (hex_digit (b / 16)) * 16 + digit_value (hex_digit (b % 16)) ≡ b
    value = omega (
      arith,
      digit_value-hex_digit (b / 16) (omega arith),
      digit_value-hex_digit (b % 16) (omega arith),
    )

undump-rows : (i : ℕ) (bs : List ℕ) → AllBytes bs → undump (dump_rows i bs) ≡ bs
unfolding dump_rows
undump-rows i [] h = unfold undump in refl
undump-rows i (b ∷ bs) h = elim (Bool-cases (nat_beq ((i + 1) % 16) 0)) [
  | inl row ↦ rw row (
      undump-byte b (10 ∷ dump_rows (i + 1) bs) h.0
      ∙ ap (λ t. b ∷ t) (undump-break (i + 1) bs ∙ undump-rows (i + 1) bs h.1))
  | inr col ↦
      rw col
        (undump-byte b (dump_rows (i + 1) bs) h.0 ∙ ap (λ t. b ∷ t) (undump-rows (i + 1) bs h.1))
]

-- The dump of a whole block: 392 characters (two digits and a space for each of its 128 bytes, and
-- eight line breaks), from which the bytes can be read back.
pub dump_hex_lem :
    (b : Block) (w : IsWhole b)
    → AllBytes w.area
    → (t : Text) × (dump_hex b ≡ returns t) × (length t ≡ 392) × (undump t ≡ w.area)
unfolding dump_hex
dump_hex_lem b w h = (
  dump_rows 0 w.area,
  rw (w.bytes, dump_hex, w.sized, take_of_length block_size w.area w.sized) refl,
  omega (arith, length-dump_rows 0 w.area, w.sized),
  undump-rows 0 w.area h,
)
