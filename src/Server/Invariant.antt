-- ===== src/Server/Invariant.antt =====
-- The invariant of a server's blocks: an entry of the map has the id of its key, an area of the full
-- size, and no client twice.
use distributed_memory.Prelude.{
  ◌≡◌, refl, subst, ◌∙◌, ℤ, int_key, true, false, Option, none, some, List, [], ◌∷◌, arith, Text,
  ◌==◌, ==_iff, Bool-cases, inl, inr, returns, if◌then◌else◌,
}
use distributed_memory.Prelude.Assoc.{find, put, insert, find-put, find-insert}
use distributed_memory.Block.{IsWhole}
use distributed_memory.BlockServer
use distributed_memory.BlockServer.{BlockServer}
use distributed_memory.BlockServer.Clients.{Distinct}
use distributed_memory.Config
use distributed_memory.Config.{Config, ServerConf}
use distributed_memory.BlockServer.Copies.{created-IsWhole, copy-create}
use distributed_memory.Server.{Server, create, add_blocks, with_block}

pub record GoodBlock (k : ℤ) (b : BlockServer) : Type 0 where
  pub keyed : b.id ≡ k
  pub whole : IsWhole b.block
  pub distinct : Distinct b.mapped_clients

pub record IsValid (s : Server) : Type 0 where
  pub good : (k : ℤ) (b : BlockServer) → find k s.blocks ≡ some b → GoodBlock k b

pub with_block-IsValid :
    {s : Server} (i : ℤ) (b : BlockServer) → IsValid s → GoodBlock i b → IsValid (with_block s i b)
with_block-IsValid {s} i b v g = record { good = good' }
  where
    good' : (k : ℤ) (c : BlockServer) → find k (put i b s.blocks) ≡ some c → GoodBlock k c
    good' k c e = elim (Bool-cases (i == k)) [
      | inl same ↦
          let p : i ≡ k = (==_iff i k).0 same in
          let q : b ≡ c = cc (find-put i k b s.blocks, same, e) in
          subst (λ x. GoodBlock k x) q (subst (λ j. GoodBlock j b) p g)
      | inr other ↦ v.good k c (cc (find-put i k b s.blocks, other, e))
    ]

created-GoodBlock : (i : ℤ) → GoodBlock i (BlockServer.create i)
unfolding BlockServer.create
created-GoodBlock i = record { keyed = refl; whole = created-IsWhole i; distinct = tt }

-- What the constructor's loop leaves at a key: what was there, or else a new block for an id of the
-- list.
abbrev after_adding : List ℤ → Server → ℤ → Option BlockServer
after_adding is s k = elim (find k s.blocks) [
  | some b ↦ some b
  | none ↦ if Config.has_block is k then some (BlockServer.create k) else none
]

abbrev one_added : ℤ → Server → Server
one_added i s = record s {
  blocks = insert i (BlockServer.create i) s.blocks;
  blocks_wait = put i tt s.blocks_wait;
}

after_adding-cons :
    (i : ℤ) (is : List ℤ) (s : Server) (k : ℤ)
    → after_adding is (one_added i s) k ≡ after_adding (i ∷ is) s k
unfolding Config.has_block
after_adding-cons i is s k =
    ground (arith, find-insert i k (BlockServer.create i) s.blocks, ==_iff i k)

add_blocks_lem :
    (is : List ℤ) (s : Server)
    → (s' : Server) × (add_blocks is s ≡ returns s')
      × ((k : ℤ) → find k s'.blocks ≡ after_adding is s k)
unfolding add_blocks
add_blocks_lem [] s = (s, refl, λ k. unfold Config.has_block in ground arith)
add_blocks_lem (i ∷ is) s =
    let (s', added, found) = add_blocks_lem is (one_added i s) in
    (s', rw (copy-create i) added, λ k. found k ∙ after_adding-cons i is s k)

-- A server that is found in a valid configuration starts with exactly the blocks that the
-- configuration lists for it: each new, with revision 0 and a cleared area.
pub create_lem :
    (config : Config) (id : Text) (conf : ServerConf)
    → Config.is_valid config ≡ true
    → Config.find config id ≡ some conf
    → (s : Server) × (create config id ≡ returns s)
      × ((k : ℤ)
          → find k s.blocks
            ≡ (if Config.has_block conf.blocks_id k then some (BlockServer.create k) else none))
      × IsValid s
unfolding create
create_lem config id conf valid here =
    let (s, made, found) = add_blocks_lem conf.blocks_id start in
    (
      s,
      rw (valid, here, create) made,
      λ k. found k ∙ (unfold find in refl),
      record { good = λ k b e. good_of s found k b e },
    )
  where
    start : Server
    start = record { config = config; id = id; blocks = []; blocks_wait = [] }

    created :
        (s : Server)
        → ((k : ℤ) → find k s.blocks ≡ after_adding conf.blocks_id start k)
        → (k : ℤ) (b : BlockServer) → find k s.blocks ≡ some b
        → Config.has_block conf.blocks_id k ≡ true
        → BlockServer.create k ≡ b
    created s found k b e h = unfold find in cc (found k, e, h)

    missing :
        (s : Server)
        → ((k : ℤ) → find k s.blocks ≡ after_adding conf.blocks_id start k)
        → (k : ℤ) (b : BlockServer) → find k s.blocks ≡ some b
        → Config.has_block conf.blocks_id k ≡ false
        → ⊥
    missing s found k b e h = unfold find in cc (found k, e, h)

    good_of :
        (s : Server)
        → ((k : ℤ) → find k s.blocks ≡ after_adding conf.blocks_id start k)
        → (k : ℤ) (b : BlockServer) → find k s.blocks ≡ some b
        → GoodBlock k b
    good_of s found k b e = elim (Bool-cases (Config.has_block conf.blocks_id k)) [
      | inl h ↦ subst (GoodBlock k) (created s found k b e h) (created-GoodBlock k)
      | inr h ↦ absurd (missing s found k b e h)
    ]
