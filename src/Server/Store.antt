-- ===== src/Server/Store.antt =====
-- What src/server.cpp promises its clients, without its lists, maps and texts: a store of versions, of
-- which each client maps some, and what one request does to it.
pub mod Follows
pub mod Clients
pub mod Blocks
pub mod Requests
use distributed_memory.Prelude.{
  ◌≡◌, ℤ, int_key, text_key, add_one, ltb_ℤ, Bool, true, false, not, ◌&&◌, ◌||◌, Option, none, some,
  Text, ◌==◌, ◌++◌, if◌then◌else◌,
}
use distributed_memory.Prelude.Assoc.{find}
use distributed_memory.Yaml.{Yaml, stop}
use distributed_memory.Block.{Block}
use distributed_memory.BlockServer.{BlockServer}
use distributed_memory.BlockServer.Clients.{is_mapped}
use distributed_memory.Message.{
  MessageType, map, unmap, update, write, wait, ack, nack, undef, emit_block,
}
use distributed_memory.Server.{Server, Reply, answer, sleep, ack_text, nack_text}
use distributed_memory.Server.Versions.{Version, view}

pub record Store : Type 0 where
  pub versions : ℤ → Option Version
  pub maps : Text → ℤ → Bool

-- Whether a client of a server maps a block.
unfoldable pub maps_block : Server → Text → ℤ → Bool
maps_block s client_id k = elim (find k s.blocks) [ none ↦ false | some b ↦ is_mapped b client_id ]

-- The store that a server keeps. The order of its clients and blocks is forgotten.
abbrev pub store : Server → Store
store s = record { versions = view s; maps = maps_block s }

pub Store-ext :
    {a b : Store}
    → ((k : ℤ) → a.versions k ≡ b.versions k)
    → ((c : Text) (k : ℤ) → a.maps c k ≡ b.maps c k)
    → a ≡ b
Store-ext v m = λ i. record { versions = λ k. v k i; maps = λ c k. m c k i }

-- What a client is told: yes or no, a block with its bytes or without, or nothing for as long as a
-- block has a revision.
pub data Verdict : Type 0 where
  accepted : Verdict
  refused : Verdict
  full : ℤ → Version → Verdict
  shallow : ℤ → Version → Verdict
  blocked : ℤ → ℤ → Verdict

abbrev pub block_of : ℤ → Version → Block
block_of k v = record { id = k; revision = v.0; bytes = v.1 }

-- The verdict as the server tells it.
abbrev pub said : Yaml → Verdict → Reply
said y accepted = answer (ack_text y)
said y refused = answer (nack_text y)
said y (full k v) = answer (emit_block y ack (block_of k v) false ++ stop)
said y (shallow k v) = answer (emit_block y ack (block_of k v) true ++ stop)
said y (blocked k revision) = sleep k revision

abbrev pub with_version : Store → ℤ → Version → Store
with_version a i v = record a { versions = λ k. if i == k then some v else a.versions k }

-- A client maps a block, and does no more.
abbrev pub with_client : Store → Text → ℤ → Store
with_client a client i = record a { maps = λ c k. i == k && client == c || a.maps c k }

abbrev pub without_client : Store → Text → ℤ → Store
without_client a client i = record a { maps = λ c k. not (i == k && client == c) && a.maps c k }

-- A request of a client, and its verdict. A write is a compare-and-swap on the revision.
abbrev pub promised : Store → Text → MessageType → BlockServer → Store × Verdict
promised a client map r = elim (a.versions r.id) [
  | none ↦ (a, refused)
  | some v ↦ if a.maps client r.id then (a, refused) else (with_client a client r.id, full r.id v)
]
promised a client unmap r = elim (a.versions r.id) [
  | none ↦ (a, refused)
  | some v ↦ if a.maps client r.id then (without_client a client r.id, accepted) else (a, refused)
]
promised a client update r = elim (a.versions r.id) [
  | none ↦ (a, refused)
  | some v ↦ (a, if ltb_ℤ r.revision v.0 then full r.id v else shallow r.id v)
]
promised a client write r = elim (a.versions r.id) [
  | none ↦ (a, refused)
  | some v ↦
      if v.0 == r.revision
      then (with_version a r.id (add_one r.revision, r.bytes), accepted)
      else (a, refused)
]
promised a client wait r = elim (a.versions r.id) [
  | none ↦ (a, accepted)
  | some v ↦ (a, if v.0 == r.revision then blocked r.id r.revision else accepted)
]
promised a client ack r = (a, refused)
promised a client nack r = (a, refused)
promised a client undef r = (a, refused)
