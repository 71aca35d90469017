-- ===== src/Message/Areas.antt =====
-- The block that src/message.cpp parses has an area of the full size.
use distributed_memory.Prelude.{
  codes, ◌≡◌, Option, none, some, Option-cases, inl, inr, Ensures, Ensures-bind, ℤ,
}
use distributed_memory.Yaml.{Yaml, as_binary, as_int}
use distributed_memory.Block.{Block, IsWhole, set_data, set_revision}
use distributed_memory.Block.Areas.{set_data-IsWhole}
use distributed_memory.BlockServer
use distributed_memory.BlockServer.{BlockServer}
use distributed_memory.BlockServer.Copies.{created-IsWhole}
use distributed_memory.Message.{
  Message, parse_data, parse_fields, block, block_value, block_id_of, ◌>>?◌,
}

set_revision-IsWhole : (b : Block) (revision : ℤ) → IsWhole b → IsWhole (set_revision b revision)
unfolding set_revision
set_revision-IsWhole b revision w = record { area = w.area; bytes = w.bytes; sized = w.sized }

-- The block that a message refers to, if there is one.
abbrev pub RefersWhole : Option BlockServer × Message → Type 0
RefersWhole (none, m) = Unit {0}
RefersWhole (some b, m) = IsWhole b.block

module _ (y : Yaml) where
  parse_data-IsWhole :
      (m : Message) (b : BlockServer)
      → IsWhole b.block
      → Ensures (λ b'. IsWhole b'.block) (parse_data y m b)
  unfolding parse_data
  parse_data-IsWhole m b w = elim (Option-cases (block_value m (codes "data") >>? as_binary y)) [
    | inl e ↦ rw (e, parse_data) w
    | inr (bytes, e) ↦
        rw (e, parse_data)
          (Ensures-bind IsWhole (λ b'. IsWhole b'.block) (set_data b.block bytes) _
            (set_data-IsWhole b.block bytes w) (λ base h. h))
  ]

  parse_fields-IsWhole :
      (m : Message) (b : BlockServer)
      → IsWhole b.block
      → Ensures (λ b'. IsWhole b'.block) (parse_fields y m b)
  unfolding parse_fields
  parse_fields-IsWhole m b w = elim (Option-cases (block_value m (codes "revision"))) [
    | inl e ↦ rw (e, parse_fields) (parse_data-IsWhole m b w)
    | inr (n, e) ↦ elim (Option-cases (as_int y n)) [
      | inl f ↦ rw (e, parse_fields, f) w
      | inr (revision, f) ↦
          rw (e, parse_fields, f)
            (parse_data-IsWhole m (record b { block = set_revision b.block revision })
              (set_revision-IsWhole b.block revision w))
    ]
  ]

  pub block-IsWhole : (m : Message) → m.m_block ≡ none → Ensures RefersWhole (block y m)
  unfolding block
  block-IsWhole m h = elim (Option-cases (block_id_of y m)) [
    | inl e ↦ rw (h, block, e) tt
    | inr (id, e) ↦
        rw (h, block, e)
          (Ensures-bind (λ b. IsWhole b.block) RefersWhole
            (parse_fields y m (BlockServer.create id)) _
            (parse_fields-IsWhole m (BlockServer.create id) (created-IsWhole id)) (λ b w. w))
  ]
