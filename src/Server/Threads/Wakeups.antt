-- ===== src/Server/Threads/Wakeups.antt =====
-- A write that meets a thread of src/server.cpp that waits for the block.
use distributed_memory.Prelude.{
  ℕ, ◌≡◌, ◌≢◌, refl, sym, ap, ◌∙◌, ℤ, int_key, add_one, add_one-ne, true, false, Option, some, List,
  Text, ==_refl, ==_false, Bool-cases, Option-cases, inl, inr, returns, nat_beq, nat_beq_iff,
}
use distributed_memory.Prelude.Assoc.{find}
use distributed_memory.Yaml.{Yaml}
use distributed_memory.Block.{IsWhole}
use distributed_memory.BlockServer.{BlockServer}
use distributed_memory.BlockServer.Print.{IsTerminated}
use distributed_memory.Message.{write}
use distributed_memory.Message.RoundTrip.{Carries}
use distributed_memory.Server.{Server, Reaction, answers, ack_text, handle, check_wait}
use distributed_memory.Server.Invariant.{IsValid}
use distributed_memory.Server.Versions.{Version, view, is_current, handle_write_lem}
use distributed_memory.Server.Answers.{handle-write}
use distributed_memory.Server.Threads.{Thread, System, reading, asleep, woken, reacted}

reading-ne-asleep : (i revision : ℤ) → ¬ (reading ≡ asleep i revision)
reading-ne-asleep i revision e = cc

other_thread :
    (threads : ℕ → Thread) (i j : ℕ) (k revision : ℤ)
    → threads i ≡ reading
    → threads j ≡ asleep k revision
    → nat_beq i j ≡ false
other_thread threads i j k revision p q = elim (Bool-cases (nat_beq i j)) [
  | inl same ↦
      absurd (reading-ne-asleep k revision (sym p ∙ ap threads ((nat_beq_iff i j).0 same) ∙ q))
  | inr other ↦ other
]

revision-injective :
    {a b : ℤ} {c d : Option (List ℕ)} → ◌≡◌ {A = Option Version} (some (a, c)) (some (b, d)) → a ≡ b
revision-injective e = cc

module _ (y : Yaml) where
  -- The loop of `WAIT` ends where the block has another revision.
  pub check_wait_passed :
      (s : Server) (i revision now : ℤ) (bytes : Option (List ℕ))
      → view s i ≡ some (now, bytes)
      → now ≢ revision
      → check_wait y s i revision ≡ answers s (ack_text y)
  unfolding check_wait view
  check_wait_passed s i revision now bytes e other = elim (Option-cases (find i s.blocks)) [
    | inl p ↦ rw (p, check_wait) refl
    | inr (b, p) ↦
        let same : b.revision ≡ now = revision-injective (rw (p, view) at e) in
        rw (p, check_wait, ==_false b.revision revision (λ q. other (sym same ∙ q))) refl
  ]

  -- A thread that sleeps until a block has another revision is woken when a thread receives a write
  -- of the block at that revision, with a zero byte in its data, and the write is let through; the loop
  -- of `WAIT` then ends, and the client is answered by ACK.
  pub write_wakes :
      {message : Text} {r : BlockServer} (s : System) (client : Text) (i j : ℕ)
      → IsValid s.server
      → Carries y message write r
      → IsWhole r.block
      → IsTerminated r
      → is_current s.server r ≡ true
      → s.threads i ≡ reading
      → s.threads j ≡ asleep r.id r.revision
      → (reaction : Reaction) × (handle y s.server client message ≡ returns reaction)
        × ((reacted s i reaction).threads j ≡ woken r.id r.revision)
        × (check_wait y reaction.server r.id r.revision ≡ answers reaction.server (ack_text y))
  write_wakes {message} {r} s client i j valid carries whole terminated current reads sleeps =
      let (reaction, ran, did) = handle_write_lem y r valid whole terminated in
      (
        reaction,
        handle-write y s.server client carries ∙ ran,
        rw (did.woke, other_thread s.threads i j r.id r.revision reads sleeps, sleeps, ==_refl r.id)
            refl,
        check_wait_passed reaction.server r.id r.revision (add_one r.revision) r.bytes
            (did.seen r.id ∙ rw (current, ==_refl r.id) refl) (add_one-ne r.revision),
      )
