-- ===== src/Server/Conflicts.antt =====
-- Two writes of one block to a server of src/server.cpp, one after the other.
use distributed_memory.Prelude.{
  ◌≡◌, ap, ◌∙◌, ℤ, int_key, add_one, add_one-ne, true, false, none, some, ◌==◌, ==_refl, ==_false,
  returns, if◌then◌else◌, arith, ensured,
}
use distributed_memory.Yaml.{Yaml}
use distributed_memory.Block.{IsWhole}
use distributed_memory.BlockServer.{BlockServer}
use distributed_memory.BlockServer.Print.{IsTerminated}
use distributed_memory.Server.{Server, Reaction, answer, ack_text, nack_text, handle_write}
use distributed_memory.Server.Invariant.{IsValid}
use distributed_memory.Server.Requests.{handle_write-IsValid}
use distributed_memory.Server.Versions.{
  view, is_current, Writes, handle_write-Writes, handle_write_lem,
}

-- Whether a request is current is decided by the version of the block.
is_current-view :
    (s : Server) (r : BlockServer)
    → is_current s r ≡ elim (view s r.id) [ none ↦ false | some v ↦ v.0 == r.revision ]
unfolding is_current view
is_current-view s r = ground arith

module _ (y : Yaml) where
  -- After a write that was let through, another write at the same revision, whose data has a zero byte, is answered by NACK and
  -- changes no block: a client that did not see the first write cannot undo it.
  pub second_write_lem :
      {s : Server} {reaction : Reaction} (r q : BlockServer)
      → IsValid s
      → IsWhole r.block
      → is_current s r ≡ true
      → handle_write y s r ≡ returns reaction
      → IsWhole q.block
      → IsTerminated q
      → q.id ≡ r.id
      → q.revision ≡ r.revision
      → (second : Reaction) × (handle_write y reaction.server q ≡ returns second)
        × (second.reply ≡ answer (nack_text y))
        × ((k : ℤ)
            → view second.server k
              ≡ (if r.id == k then some (add_one r.revision, r.bytes) else view s k))
  second_write_lem {s} {reaction} r q v w current e w' z ids revisions =
      let (second, again, did) = handle_write_lem y q valid w' z in
      (
        second,
        again,
        did.replied ∙ ap (λ b. answer (if b then ack_text y else nack_text y)) stale,
        λ k. (rw stale at did.seen k) ∙ seen k,
      )
    where
      valid : IsValid reaction.server
      valid = ensured (λ a. IsValid a.server) _ reaction e (handle_write-IsValid y r v w)

      seen :
          (k : ℤ)
          → view reaction.server k
            ≡ (if r.id == k then some (add_one r.revision, r.bytes) else view s k)
      seen k =
          let did = ensured (Writes y s r) _ reaction e (handle_write-Writes y r v w) in
          (rw current at did.seen k)

      stale : is_current reaction.server q ≡ false
      stale =
          is_current-view reaction.server q
          ∙ rw (ids, seen r.id, ==_refl r.id, revisions)
              (==_false (add_one r.revision) r.revision (add_one-ne r.revision))
