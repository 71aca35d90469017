-- ===== src/Server/Threads/Writes.antt =====
-- The writes among the calls of the threads of src/server.cpp.
use distributed_memory.Prelude.{
  ℕ, suc, ◌+◌, ◌≡◌, ℤ, pos, int_key, text_key, Bool, true, false, ◌&&◌, Option, some, List, [], ◌∷◌,
  ◌==◌, if◌then◌else◌,
}
use distributed_memory.Yaml.{Yaml}
use distributed_memory.BlockServer.{BlockServer}
use distributed_memory.Message.{MessageType, map, unmap, update, write, wait, ack, nack, undef}
use distributed_memory.Server.{Server}
use distributed_memory.Server.Store.{Store, Verdict, accepted, refused, full, shallow, blocked}
use distributed_memory.Server.Threads.Serial.{Call, Serial}

abbrev is_accepted : Verdict → Bool
is_accepted accepted = true
is_accepted refused = false
is_accepted (full k v) = false
is_accepted (shallow k v) = false
is_accepted (blocked k revision) = false

abbrev is_write : MessageType → Bool
is_write map = false
is_write unmap = false
is_write update = false
is_write write = true
is_write wait = false
is_write ack = false
is_write nack = false
is_write undef = false

-- A call is a write of the block `k` that was let through.
abbrev pub writes : ℤ → Call → Bool
writes k c = is_write c.type && is_accepted c.verdict && c.block.id == k

-- How many writes of a block there are among some calls, and the bytes of the latest one, or `bytes`.
abbrev pub count_writes : ℤ → List Call → ℕ
count_writes k [] = 0
count_writes k (c ∷ h) = if writes k c then suc (count_writes k h) else count_writes k h

abbrev pub last_written : ℤ → Option (List ℕ) → List Call → Option (List ℕ)
last_written k bytes [] = bytes
last_written k bytes (c ∷ h) = if writes k c then c.block.bytes else last_written k bytes h

-- Each write of a block was made at the revision that the writes before it have led to.
abbrev pub IsNumbered : ℤ → ℕ → List Call → Type 0
IsNumbered k n [] = Unit {0}
IsNumbered k n (c ∷ h) =
    (writes k c ≡ true → c.block.revision ≡ pos (n + count_writes k h)) × IsNumbered k n h

-- The version of a block after some calls, by the writes among them.
abbrev pub IsCounted : ℤ → ℕ → Option (List ℕ) → List Call → Store → Type 0
IsCounted k n bytes h a =
    (a.versions k ≡ some (pos (n + count_writes k h), last_written k bytes h)) × IsNumbered k n h
