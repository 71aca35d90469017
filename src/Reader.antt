-- ===== src/Reader.antt =====
-- What the programs of test/reader/ compute: the number of the blocks of a text, its words and its
-- spaces. Reader/Programs has the programs themselves.
pub mod Programs
pub mod Waiting
use distributed_memory.Prelude.{
  ℕ, zero, suc, ◌+◌, ◌-◌, ◌*◌, ◌/◌, ◌≤◌, ◌<◌, ◌≡◌, refl, sym, ap, ◌∙◌, arith, ℤ, pos, Bool, true,
  false, Bool-cases, inl, inr, ◌||◌, List, [], ◌∷◌, ◌++◌, Text, length-append,
  take-append_of_length, le→leb, length, take, nat_beq, leb, Outcome, returns, undefined,
  if◌then◌else◌,
}
use distributed_memory.Block.{block_size}

-- `buffer[i] == ' ' || buffer[i] == '\n' || buffer[i] == '\r'`
abbrev pub is_separator : ℕ → Bool
is_separator c = nat_beq c 32 || (nat_beq c 10 || nat_beq c 13)

-- The loop of `count_words` over the rest of a text, with `word` and `result`.
unfoldable pub count_from : Bool → ℕ → Text → ℕ
count_from word result [] = result
count_from word result (c ∷ t) =
    count_from (is_separator c)
      (if is_separator c then result else if word then result + 1 else result) t

-- count_words on a buffer of which it reads `size` bytes.
unfoldable pub count_words : List ℕ → ℕ → Outcome ℕ
unfolding count_from
count_words buffer size =
    if leb size (length buffer) then returns (count_from true 0 (take size buffer)) else undefined

-- The loop of `count_spaces`.
unfoldable pub spaces_from : ℕ → Text → ℕ
spaces_from result [] = result
spaces_from result (c ∷ t) = spaces_from (if nat_beq c 32 then result + 1 else result) t

-- count_spaces, whose counter has no first value: `garbage` is what it happens to hold.
unfoldable pub count_spaces : ℕ → List ℕ → ℕ → Outcome ℕ
unfolding spaces_from
count_spaces garbage buffer size =
    if leb size (length buffer) then returns (spaces_from garbage (take size buffer)) else undefined

-- `(textsize / DIMBLOCK) + 1`
unfoldable pub n_blocks : ℕ → ℕ
n_blocks textsize = textsize / block_size + 1

-- The pieces of a text between separators: the first, and the others.
abbrev pub pieces : Text → Text × List Text
pieces [] = ([], [])
pieces (c ∷ t) =
    let rest = pieces t in if is_separator c then ([], rest.0 ∷ rest.1) else (c ∷ rest.0, rest.1)

abbrev pub non_empty : List Text → List Text
non_empty [] = []
non_empty ([] ∷ ts) = non_empty ts
non_empty ((c ∷ t) ∷ ts) = (c ∷ t) ∷ non_empty ts

-- The words of a text.
abbrev pub words : Text → List Text
words t = let all = pieces t in non_empty (all.0 ∷ all.1)

-- The loop in front of a word, and inside of one.
count_from_lem :
    (t : Text) (result : ℕ)
    → (count_from true result t ≡ result + length (words t))
      × (count_from false result t ≡ result + length (non_empty (pieces t).1))
unfolding count_from
count_from_lem [] result = (omega arith, omega arith)
count_from_lem (c ∷ t) result = elim (Bool-cases (is_separator c)) [
  | inl s ↦ rw s ((count_from_lem t result).0, (count_from_lem t result).0)
  | inr s ↦ rw s ((count_from_lem t (result + 1)).1 ∙ omega arith, (count_from_lem t result).1)
]

-- On a buffer that holds a text, `count_words` returns the number of the words of the text: of the pieces
-- between blanks and ends of lines that are not empty. What stands behind the text does not matter.
pub count_words_lem :
    (text behind : List ℕ)
    → count_words (text ++ behind) (length text) ≡ returns (length (words text))
unfolding count_words
count_words_lem text behind =
    rw
      (
        le→leb (length text) (length (text ++ behind)) (omega (arith, length-append text behind)),
        take-append_of_length (length text) text behind refl,
      )
      (ap returns ((count_from_lem text 0).0 ∙ omega arith))

abbrev pub spaces : Text → ℕ
spaces [] = 0
spaces (c ∷ t) = let rest = spaces t in if nat_beq c 32 then suc rest else rest

spaces_from_lem : (t : Text) (result : ℕ) → spaces_from result t ≡ result + spaces t
unfolding spaces_from
spaces_from_lem [] result = omega arith
spaces_from_lem (c ∷ t) result = elim (Bool-cases (nat_beq c 32)) [
  | inl s ↦ rw s (spaces_from_lem t (result + 1) ∙ omega arith)
  | inr s ↦ rw s (spaces_from_lem t result)
]

-- `count_spaces` returns the number of the spaces of a text on top of whatever its counter held.
pub count_spaces_lem :
    (garbage : ℕ) (text behind : List ℕ)
    → count_spaces garbage (text ++ behind) (length text) ≡ returns (garbage + spaces text)
unfolding count_spaces
count_spaces_lem garbage text behind =
    rw
      (
        le→leb (length text) (length (text ++ behind)) (omega (arith, length-append text behind)),
        take-append_of_length (length text) text behind refl,
      )
      (ap returns (spaces_from_lem text garbage))

-- The blocks of a text hold it, each of their areas ends inside of the buffer, and none is superfluous but
-- for a text whose length is a multiple of the size of a block.
pub n_blocks_lem :
    (textsize i : ℕ)
    → 1 ≤ i
    → i ≤ n_blocks textsize
    → (textsize < n_blocks textsize * block_size)
      × (block_size * (i - 1) + block_size ≤ n_blocks textsize * block_size)
      × (block_size * (i - 1) ≤ textsize)
unfolding n_blocks
n_blocks_lem textsize i some_block listed = (omega arith, omega arith, omega arith)
