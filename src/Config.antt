-- ===== src/Config.antt =====
-- include/dm/config.h, src/config.cpp, and ServerConf and ServerMap of include/dm/type.h.
pub mod Owners
pub mod Print
pub mod Documents
use distributed_memory.Prelude.{
  ℕ, zero, suc, ◌+◌, ◌≡◌, ℤ, pos, int_key, Bool, true, false, not, Option, none, some, List, [],
  ◌∷◌, ◌++◌, ◌||◌, Text, text_key, ◌==◌, codes, if◌then◌else◌,
}
use distributed_memory.Prelude.Assoc
use distributed_memory.Prelude.Assoc.{Map, put}
use distributed_memory.Yaml.{
  Yaml, Node, Nodes, Fields, scalar, sequence, mapping, nil, cons, end, field, find_value, as_text,
  as_int,
}

pub record ServerConf : Type 0 where
  pub ip : Text
  pub port : Text
  pub blocks_id : List ℤ
  pub pass : Text
  pub privkey : Text
  pub pubkey : Text

pub record Config : Type 0 where
  pub servers : Map Text ServerConf

count_nodes : Nodes → ℕ
count_nodes nil = 0
count_nodes (cons n ns) = suc (count_nodes ns)

count_fields : Fields → ℕ
count_fields end = 0
count_fields (field k n fs) = suc (count_fields fs)

-- `node.size()`
size : Node → ℕ
unfolding count_nodes count_fields
size (scalar t) = 0
size (sequence ns) = count_nodes ns
size (mapping fs) = count_fields fs

nth : Nodes → ℕ → Option Node
nth nil i = none
nth (cons n ns) zero = some n
nth (cons n ns) (suc i) = nth ns i

-- The value at a key of a mapping that reads as the number `i`.
numbered : Yaml → Fields → ℕ → Option Node
numbered y end i = none
numbered y (field k n fs) i = elim (y.read_int k) [
  | none ↦ numbered y fs i
  | some j ↦ if j == pos i then some n else numbered y fs i
]

-- `node[i]`; `none` is an exception.
node_at : Yaml → Node → ℕ → Option Node
unfolding nth numbered
node_at y (scalar t) i = none
node_at y (sequence ns) i = nth ns i
node_at y (mapping fs) i = numbered y fs i

infixl 5 ◌>>=◌
abbrev ◌>>=◌ : {A B : Type 0} → Option A → (A → Option B) → Option B
none >>= f = none
some a >>= f = f a

-- `node >> vector<int>`: `count` elements from the index `i` on.
ints_from : Yaml → Node → ℕ → ℕ → Option (List ℤ)
unfolding node_at
ints_from y n i zero = some []
ints_from y n i (suc count) = do
  element ← node_at y n i
  number ← as_int y element
  numbers ← ints_from y n (suc i) count
  some (number ∷ numbers)

text_at : Node → Text → Option Text
text_at n k = do value ← find_value n k; as_text value

-- The body of the constructor's loop: one server's configuration.
parse_server : Yaml → Node → Option ServerConf
unfolding ints_from text_at size
parse_server y n = do
  ip ← text_at n (codes "ip")
  port ← text_at n (codes "port")
  blocks ← find_value n (codes "blocks")
  blocks_id ← ints_from y blocks 0 (size blocks)
  pass ← text_at n (codes "pass")
  privkey ← text_at n (codes "privkey")
  pubkey ← text_at n (codes "pubkey")
  some (record {
    ip = ip;
    port = port;
    blocks_id = blocks_id;
    pass = pass;
    privkey = privkey;
    pubkey = pubkey;
  })

-- `server.ip + ":" + server.port`
abbrev pub id_of : ServerConf → Text
id_of server = server.ip ++ (codes ":" ++ server.port)

-- The loop of the constructor: `count` documents from the index `i` on. `none` is an exception.
parse_servers : Yaml → Node → ℕ → ℕ → Map Text ServerConf → Option (Map Text ServerConf)
unfolding parse_server
parse_servers y doc i zero servers = some servers
parse_servers y doc i (suc count) servers = do
  n ← node_at y doc i
  server ← parse_server y n
  parse_servers y doc (suc i) count (put (id_of server) server servers)

parse_document : Yaml → Option Node → Bool → Option (Map Text ServerConf)
unfolding parse_servers
parse_document y doc true = none
parse_document y none false = some []
parse_document y (some doc) false = parse_servers y doc 0 (size doc) []

-- Config::Config on the contents of the file, empty for a file that cannot be read. An exception
-- clears what was read.
unfoldable pub create : Yaml → Text → Config
unfolding parse_document
create y contents =
    let (doc, threw) = y.get_next_document contents none in
    record { servers = elim (parse_document y doc threw) [ none ↦ [] | some servers ↦ servers ] }

-- Config::is_valid
unfoldable pub is_valid : Config → Bool
is_valid c = elim c.servers [ [] ↦ false | server ∷ servers ↦ true ]

-- Config::find; `none` is the reference to null.
unfoldable pub find : Config → Text → Option ServerConf
find c id = Assoc.find id c.servers

-- Config::find_all
abbrev pub find_all : Config → Map Text ServerConf
find_all c = c.servers

-- `std::find(blocks.begin(), blocks.end(), block_id) != blocks.end()`
unfoldable pub has_block : List ℤ → ℤ → Bool
has_block [] block_id = false
has_block (b ∷ blocks) block_id = b == block_id || has_block blocks block_id

-- The loop over the servers: each that has the block becomes the result.
unfoldable pub last_owner : ℤ → Text → Map Text ServerConf → Text
last_owner block_id result [] = result
last_owner block_id result ((id, server) ∷ servers) =
    last_owner block_id (if has_block server.blocks_id block_id then id else result) servers

-- Config::find_server_id_by_block_id
unfoldable pub find_server_id_by_block_id : Config → ℤ → Text
unfolding last_owner
find_server_id_by_block_id c block_id = last_owner block_id [] c.servers
