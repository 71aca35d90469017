-- ===== src/Reader/Programs.antt =====
-- The two programs of test/reader/, which share a text and what they count in it. The addresses of their
-- areas and the contents of the file are arguments; a file that cannot be opened is left out.
use distributed_memory.Prelude.{
  ℕ, zero, suc, ◌+◌, ◌-◌, ◌*◌, ◌/◌, ℤ, pos, negsuc, int_key, ltb_ℤ, leb, true, false, Option, none,
  some, List, Text, ◌==◌, length, Outcome, returns, throws, undefined, if◌then◌else◌,
}
use distributed_memory.Prelude.Words.{word_bytes, word_of}
use distributed_memory.Memory.{Memory, read, write}
use distributed_memory.Block.{block_size}
use distributed_memory.Yaml.{Yaml}
use distributed_memory.Network.{Network}
use distributed_memory.Secure.Endpoints.{to_int}
use distributed_memory.Client.{State, Result, dm_init}
use distributed_memory.Client.Operations.{
  dm_block_map, dm_block_unmap, dm_block_update, dm_block_write, dm_block_wait,
}
use distributed_memory.Reader.{count_words, count_spaces, n_blocks}

-- How far a program has come: it goes on, it has exited with a code, or it waits longer than was looked at.
pub data Progress (A W : Type 0) : Type 0 where
  goes : A → State W → Progress A W
  exits : ℤ → State W → Progress A W
  waits : State W → Progress A W

abbrev pub Program : Type 0 → Type 0 → Type 0
Program W A = State W → Outcome (Progress A W)

abbrev pub continue :
    {A B W : Type 0} → Outcome (Progress A W) → (A → Program W B) → Outcome (Progress B W)
continue (returns (goes a s)) rest = rest a s
continue (returns (exits code s)) rest = returns (exits code s)
continue (returns (waits s)) rest = returns (waits s)
continue throws rest = throws
continue undefined rest = undefined

infixl 5 ◌>>=◌
abbrev pub ◌>>=◌ : {A B W : Type 0} → Program W A → (A → Program W B) → Program W B
(m >>= rest) s = continue (m s) rest

abbrev pub yields : {A W : Type 0} → A → Program W A
yields a s = returns (goes a s)

abbrev pub exit : {A W : Type 0} → ℤ → Program W A
exit code s = returns (exits code s)

-- A call of the library, with its status.
abbrev pub call : {W : Type 0} → (State W → Result W) → Program W ℤ
call operation s = elim (operation s) [
  | returns r ↦ returns (goes r.0 r.1)
  | throws ↦ throws
  | undefined ↦ undefined
]

-- `if ( ... < 0 ) return 1;`
abbrev pub checked : {W : Type 0} → ℤ → Program W (Unit {0})
checked status s = if ltb_ℤ status (pos 0) then returns (exits (pos 1) s) else returns (goes tt s)

abbrev pub must : {W : Type 0} → (State W → Result W) → Program W (Unit {0})
must operation = call operation >>= checked

-- The value of an `int` in memory, and the word that it is stored as.
abbrev pub load : Memory → ℕ → ℤ
load memory a = to_int (word_of (read memory a 4))

abbrev pub to_word : ℤ → ℕ
to_word (pos m) = m
to_word (negsuc m) = 4294967295 - m

abbrev pub load_int : {W : Type 0} → ℕ → Program W ℤ
load_int a s = returns (goes (load s.memory a) s)

abbrev pub store_bytes : {W : Type 0} → ℕ → List ℕ → Program W (Unit {0})
store_bytes a bs s = returns (goes tt (record s { memory = write s.memory a bs }))

abbrev pub store_int : {W : Type 0} → ℕ → ℤ → Program W (Unit {0})
store_int a i = store_bytes a (word_bytes (to_word i))

abbrev pub counted : {W : Type 0} → (Memory → Outcome ℕ) → Program W ℕ
counted count s = elim (count s.memory) [
  | returns m ↦ returns (goes m s)
  | throws ↦ throws
  | undefined ↦ undefined
]

-- `i + j` for two `int`s.
abbrev pub plus : ℤ → ℤ → ℤ
plus (pos m) (pos k) = pos (m + k)
plus (negsuc m) (negsuc k) = negsuc (m + k + 1)
plus (pos m) (negsuc k) = if leb (k + 1) m then pos (m - (k + 1)) else negsuc (k - m)
plus (negsuc m) (pos k) = if leb (m + 1) k then pos (k - (m + 1)) else negsuc (m - k)

-- How many bytes a loop up to a size reads, and how many blocks there are for it: none where that number
-- is negative, for which no buffer can be allocated.
abbrev pub bytes_of : ℤ → ℕ
bytes_of (pos m) = m
bytes_of (negsuc m) = 0

abbrev pub blocks_of : ℤ → Option ℕ
blocks_of (pos m) = some (n_blocks m)
blocks_of (negsuc m) = let k = (m + 1) / block_size in if leb k 1 then some (1 - k) else none

abbrev pub allocated : {W : Type 0} → Option ℕ → Program W ℕ
allocated none s = throws
allocated (some k) s = returns (goes k s)

-- What a program prints.
pub record Report : Type 0 where
  pub textsize : ℤ
  pub nspaces : ℤ
  pub nwords : ℤ

-- Where a program's areas lie.
pub record Areas : Type 0 where
  pub textbuffer : ℕ
  pub size : ℕ
  pub spaces : ℕ
  pub words : ℕ

-- The test of `dm_init`, whose exception is caught.
abbrev pub initialised :
    {W : Type 0} → Outcome (Unit {0}) × State W → Outcome (Progress (Unit {0}) W)
initialised (returns u, s) = returns (goes tt s)
initialised (throws, s) = returns (exits (pos 1) s)
initialised (undefined, s) = undefined

module _ (y : Yaml) {W : Type 0} (n : Network W) where
  abbrev init : Text → Program W (Unit {0})
  init config s = initialised (dm_init n y config s)

  -- `while ( *(int*) a == 0 ) { wait; update; }`, with the number of its rounds as fuel.
  unfoldable pub wait_for : ℕ → ℤ → ℕ → Program W (Unit {0})
  wait_for zero id a s = if load s.memory a == pos 0 then returns (waits s) else returns (goes tt s)
  wait_for (suc fuel) id a s = elim (load s.memory a == pos 0) [
    | false ↦ returns (goes tt s)
    | true ↦
        continue (continue (must (dm_block_wait y n id) s) (λ u. must (dm_block_update y n id)))
          (λ u. wait_for fuel id a)
  ]

  -- The sum of the statuses of `dm_block_map` on the blocks from `i` on, in reader1.cpp.
  unfoldable pub map_blocks : ℕ → ℕ → ℕ → Program W ℤ
  map_blocks zero i textbuffer = yields (pos 0)
  map_blocks (suc count) i textbuffer = do
    status ← call (dm_block_map y n (pos i) (some (textbuffer + block_size * (i - 1))))
    rest ← map_blocks count (i + 1) textbuffer
    yields (plus status rest)

  -- The same blocks in reader2.cpp, where each status is tested.
  unfoldable pub map_all : ℕ → ℕ → ℕ → Program W (Unit {0})
  map_all zero i textbuffer = yields tt
  map_all (suc count) i textbuffer = do
    u ← must (dm_block_map y n (pos i) (some (textbuffer + block_size * (i - 1))))
    map_all count (i + 1) textbuffer

  unfoldable pub write_blocks : ℕ → ℕ → Program W (Unit {0})
  write_blocks zero i = yields tt
  write_blocks (suc count) i = do u ← must (dm_block_write y n (pos i)); write_blocks count (i + 1)

  unfoldable pub unmap_blocks : ℕ → ℕ → Program W (Unit {0})
  unmap_blocks zero i = yields tt
  unmap_blocks (suc count) i = do
    status ← call (dm_block_unmap y n (pos i))
    unmap_blocks count (i + 1)

  -- The statuses of mapping the blocks 100, 101 and 102.
  unfoldable pub map_counters : Areas → Program W ℤ
  map_counters areas = do
    a ← call (dm_block_map y n (pos 100) (some areas.size))
    b ← call (dm_block_map y n (pos 101) (some areas.spaces))
    c ← call (dm_block_map y n (pos 102) (some areas.words))
    yields (plus (plus a b) c)

  unfoldable pub unmap_counters : Program W (Unit {0})
  unmap_counters = do
    a ← call (dm_block_unmap y n (pos 100))
    b ← call (dm_block_unmap y n (pos 101))
    c ← call (dm_block_unmap y n (pos 102))
    yields tt

  -- A counter that another program has written is taken: it is set to 0, and written back.
  unfoldable pub take_counter : ℕ → ℤ → ℕ → Program W ℤ
  unfolding wait_for
  take_counter fuel id a = do
    u ← wait_for fuel id a
    i ← load_int a
    u ← store_int a (pos 0)
    status ← call (dm_block_write y n id)
    yields i

  -- A counter is written for another program.
  unfoldable pub give_counter : ℤ → ℕ → ℤ → Program W (Unit {0})
  give_counter id a i = do u ← store_int a i; must (dm_block_write y n id)

  -- `main` of reader1.cpp on a configuration and a text. `garbage` is what the counter of `count_spaces`
  -- holds at first.
  unfoldable pub first_main : Text → Text → ℕ → Areas → ℕ → Program W Report
  unfolding map_blocks write_blocks unmap_blocks map_counters unmap_counters take_counter
      give_counter
  first_main config text garbage areas fuel =
      let textsize = length text in
      let count = n_blocks textsize in
      do
        u ← init config
        counters ← map_counters areas
        blocks ← map_blocks count 1 areas.textbuffer
        u ← checked (plus counters blocks)
        u ← store_bytes areas.textbuffer text
        u ← write_blocks count 1
        u ← give_counter (pos 100) areas.size (pos textsize)
        nspaces ←
            counted
              (λ m. count_spaces garbage (read m areas.textbuffer (count * block_size)) textsize)
        u ← give_counter (pos 101) areas.spaces (pos nspaces)
        nwords ← take_counter fuel (pos 102) areas.words
        u ← unmap_blocks count 1
        u ← unmap_counters
        yields (record { textsize = pos textsize; nspaces = pos nspaces; nwords = nwords })

  -- `main` of reader2.cpp
  unfoldable pub second_main : Text → Areas → ℕ → Program W Report
  unfolding map_all unmap_blocks map_counters unmap_counters take_counter give_counter
  second_main config areas fuel = do
    u ← init config
    counters ← map_counters areas
    u ← checked counters
    textsize ← take_counter fuel (pos 100) areas.size
    count ← allocated (blocks_of textsize)
    u ← map_all count 1 areas.textbuffer
    nwords ←
        counted
          (λ m. count_words (read m areas.textbuffer (count * block_size)) (bytes_of textsize))
    u ← give_counter (pos 102) areas.words (pos nwords)
    nspaces ← take_counter fuel (pos 101) areas.spaces
    u ← unmap_blocks count 1
    u ← unmap_counters
    yields (record { textsize = textsize; nspaces = nspaces; nwords = pos nwords })
