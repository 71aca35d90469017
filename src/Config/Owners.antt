-- ===== src/Config/Owners.antt =====
-- Which server owns a block, by src/config.cpp.
use distributed_memory.Prelude.{
  ◌≡◌, refl, ap, ◌⊎◌, inl, inr, ℤ, int_key, Bool, true, false, [], ◌∷◌, ◌++◌, Text, text_key,
  if◌then◌else◌,
}
use distributed_memory.Prelude.Assoc.{Map}
use distributed_memory.Config.{
  Config, ServerConf, has_block, last_owner, find_server_id_by_block_id,
}

-- None of the servers has the block.
abbrev pub NoneHas : ℤ → Map Text ServerConf → Type 0
NoneHas b [] = Unit {0}
NoneHas b ((id, server) ∷ servers) = (has_block server.blocks_id b ≡ false) × NoneHas b servers

-- The last server of the configuration that has the block, in the order of the ids.
pub record LastOwner (b : ℤ) (servers : Map Text ServerConf) (id : Text) : Type 0 where
  pub before : Map Text ServerConf
  pub server : ServerConf
  pub after : Map Text ServerConf
  pub split : servers ≡ before ++ (id, server) ∷ after
  pub has : has_block server.blocks_id b ≡ true
  pub last : NoneHas b after

LastOwner-cons :
    {b : ℤ} {servers : Map Text ServerConf} {id : Text} (entry : Text × ServerConf)
    → LastOwner b servers id
    → LastOwner b (entry ∷ servers) id
LastOwner-cons entry o = record {
  before = entry ∷ o.before;
  server = o.server;
  after = o.after;
  split = ap (◌∷◌ entry) o.split;
  has = o.has;
  last = o.last;
}

-- What the loop returns: the result it began with where no server has the block, or else the last
-- server that has it.
abbrev Result : ℤ → Text → Map Text ServerConf → Text → Type 0
Result b result servers r = ((r ≡ result) × NoneHas b servers) ⊎ LastOwner b servers r

first_has :
    (b : ℤ) (id : Text) (server : ServerConf) (servers : Map Text ServerConf) (r : Text)
    → has_block server.blocks_id b ≡ true
    → Result b id servers r
    → LastOwner b ((id, server) ∷ servers) r
first_has b id server servers r h (inr o) = LastOwner-cons (id, server) o
first_has b id server servers r h (inl (e, n)) = record {
  before = [];
  server = server;
  after = servers;
  split = rw e;
  has = h;
  last = n;
}

first_lacks :
    (b : ℤ) (result id : Text) (server : ServerConf) (servers : Map Text ServerConf) (r : Text)
    → has_block server.blocks_id b ≡ false
    → Result b result servers r
    → Result b result ((id, server) ∷ servers) r
first_lacks b result id server servers r h (inr o) = inr (LastOwner-cons (id, server) o)
first_lacks b result id server servers r h (inl (e, n)) = inl (e, (h, n))

first_either :
    (b : ℤ) (result id : Text) (server : ServerConf) (servers : Map Text ServerConf) (r : Text)
    (has : Bool)
    → has_block server.blocks_id b ≡ has
    → Result b (if has then id else result) servers r
    → Result b result ((id, server) ∷ servers) r
first_either b result id server servers r true h o = inr (first_has b id server servers r h o)
first_either b result id server servers r false h o = first_lacks b result id server servers r h o

last_owner_lem :
    (b : ℤ) (result : Text) (servers : Map Text ServerConf)
    → Result b result servers (last_owner b result servers)
unfolding last_owner
last_owner_lem b result [] = inl (refl, tt)
last_owner_lem b result ((id, server) ∷ servers) =
    first_either b result id server servers _ (has_block server.blocks_id b) refl
      (last_owner_lem b (if has_block server.blocks_id b then id else result) servers)

-- The owner of a block is the empty text where no server of the configuration has the block, and
-- otherwise the id of the last server, in the order of the ids, that has it.
pub find_server_id_by_block_id_lem :
    (c : Config) (b : ℤ)
    → ((find_server_id_by_block_id c b ≡ []) × NoneHas b c.servers)
      ⊎ LastOwner b c.servers (find_server_id_by_block_id c b)
unfolding find_server_id_by_block_id
find_server_id_by_block_id_lem c b = last_owner_lem b [] c.servers
