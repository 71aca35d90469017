-- ===== src/Server/Threads/Signals.antt =====
-- The requests of src/server.cpp by what the threads that wait for a block notice of them.
use distributed_memory.Prelude.{
  ℕ, ◌≡◌, refl, sym, ap, ◌∙◌, ◌⊎◌, inl, inr, ℤ, int_key, ◌&&◌, Option, some, List, Text, ◌==◌,
  ==_iff, Bool-cases, Option-cases, returns, if◌then◌else◌, Ensures, Ensures-weaken, ensured,
  add_one,
}
use distributed_memory.Prelude.Assoc.{find}
use distributed_memory.Yaml.{Yaml}
use distributed_memory.Block.{IsWhole}
use distributed_memory.BlockServer.{BlockServer}
use distributed_memory.Message
use distributed_memory.Message.{
  Message, MessageType, map, unmap, update, write, wait, ack, nack, undef,
}
use distributed_memory.Message.Types.{type_of}
use distributed_memory.Server.{
  Server, Reply, answer, sleep, Reaction, handle_map, handle_unmap, handle_update, handle_write,
  check_wait, handle_wait, dispatch, handle,
}
use distributed_memory.Server.Invariant.{IsValid}
use distributed_memory.Server.Requests.{request-rule, handle_update-server}
use distributed_memory.Server.Versions.{view, is_current, handle_write-Writes}
use distributed_memory.Server.Answers.{handle_map-view, handle_unmap-view, check_wait-view}
use distributed_memory.Server.Threads.{absent, asleep, after}

-- The server has the block at the revision that a thread waits to see replaced.
abbrev pub IsAt : Server → ℤ → ℤ → Type 0
IsAt s i revision = (bytes : Option (List ℕ)) × (view s i ≡ some (revision, bytes))

-- A block whose version a request changes is signalled, and a thread goes to sleep only at the
-- revision that the block has.
pub record Signals (s : Server) (r : Reaction) : Type 0 where
  pub signalled : (k : ℤ) → (view r.server k ≡ view s k) ⊎ (r.broadcast ≡ some k)
  pub sleeps : (i revision : ℤ) → r.reply ≡ sleep i revision → IsAt r.server i revision

pub absent-ne-asleep : (i revision : ℤ) → ¬ (absent ≡ asleep i revision)
absent-ne-asleep i revision e = cc

pub answer-ne-sleep : (t : Text) (i revision : ℤ) → ¬ (answer t ≡ sleep i revision)
answer-ne-sleep t i revision e = cc

answered-Signals :
    (s : Server) (r : Reaction)
    → (t : Text) × (r.reply ≡ answer t)
    → ((k : ℤ) → (view r.server k ≡ view s k) ⊎ (r.broadcast ≡ some k))
    → Signals s r
answered-Signals s r (t, e) h = record {
  signalled = h;
  sleeps = λ i revision p. absurd (answer-ne-sleep t i revision (sym e ∙ p));
}

pub sleep-injective : {i j a b : ℤ} → sleep i a ≡ sleep j b → (i ≡ j) × (a ≡ b)
sleep-injective e = (cc, cc)

module _ (y : Yaml) where
  check_wait-sleeps :
      (s : Server) (i revision j a : ℤ) → (check_wait y s i revision).reply ≡ sleep j a → IsAt s j a
  unfolding check_wait view
  check_wait-sleeps s i revision j a p = elim (Option-cases (find i s.blocks)) [
    | inl e ↦ absurd (answer-ne-sleep _ j a (rw (e, check_wait) at p))
    | inr (b, e) ↦ elim (Bool-cases (b.revision == revision)) [
      | inl same ↦
          let (p₁, p₂) = sleep-injective (rw (e, check_wait, same) at p) in
          (b.bytes, cc (p₁, p₂, e, (==_iff b.revision revision).0 same))
      | inr other ↦ absurd (answer-ne-sleep _ j a (rw (e, check_wait, other) at p))
    ]
  ]

  pub check_wait-Signals : (s : Server) (i revision : ℤ) → Signals s (check_wait y s i revision)
  check_wait-Signals s i revision = record {
    signalled = λ k. inl (check_wait-view y s i revision k);
    sleeps = λ j a p.
        let (bytes, e) = check_wait-sleeps s i revision j a p in
        (bytes, check_wait-view y s i revision j ∙ e);
  }

  handle_write-Signals :
      (s : Server) (r : BlockServer)
      → IsValid s
      → IsWhole r.block
      → Ensures (Signals s) (handle_write y s r)
  handle_write-Signals s r v w =
      Ensures-weaken (handle_write y s r)
        (λ reaction did.
          answered-Signals s reaction (_, did.replied)
            (λ k. signalled reaction k did.woke (did.seen k)))
        (handle_write-Writes y r v w)
    where
      signalled :
          (reaction : Reaction) (k : ℤ)
          → reaction.broadcast ≡ some r.id
          → view reaction.server k
            ≡ (if is_current s r && r.id == k then some (add_one r.revision, r.bytes) else view s k)
          → (view reaction.server k ≡ view s k) ⊎ (reaction.broadcast ≡ some k)
      signalled reaction k woke h = elim (Bool-cases (is_current s r)) [
        | inr other ↦ inl (rw other at h)
        | inl current ↦ elim (Bool-cases (r.id == k)) [
          | inl same ↦ inr (woke ∙ ap some ((==_iff r.id k).0 same))
          | inr other ↦ inl (rw (current, other) at h)
        ]
      ]

  handle_map-answers :
      (s : Server) (client : Text) (r : BlockServer)
      → (t : Text) × ((handle_map y s client r).reply ≡ answer t)
  unfolding handle_map
  handle_map-answers s client r = elim (Option-cases (find r.id s.blocks)) [
    | inl e ↦ rw (e, handle_map) (_, refl)
    | inr (b, e) ↦ rw (e, handle_map) (_, refl)
  ]

  handle_unmap-answers :
      (s : Server) (client : Text) (r : BlockServer)
      → (t : Text) × ((handle_unmap y s client r).reply ≡ answer t)
  unfolding handle_unmap
  handle_unmap-answers s client r = elim (Option-cases (find r.id s.blocks)) [
    | inl e ↦ rw (e, handle_unmap) (_, refl)
    | inr (b, e) ↦ rw (e, handle_unmap) (_, refl)
  ]

  handle_update-answers :
      (s : Server) (r : BlockServer) → (t : Text) × ((handle_update y s r).reply ≡ answer t)
  unfolding handle_update
  handle_update-answers s r = elim (Option-cases (find r.id s.blocks)) [
    | inl e ↦ rw (e, handle_update) (_, refl)
    | inr (b, e) ↦ rw (e, handle_update) (_, refl)
  ]

  dispatch-Signals :
      (s : Server) (client t : Text) (ty : MessageType)
      → IsValid s
      → Ensures (Signals s) (dispatch y s client (Message.create y t) ty)
  unfolding dispatch handle_wait
  dispatch-Signals s client t map v = request-rule y (Signals s) t _ (λ r w.
      answered-Signals s _ (handle_map-answers s client r)
        (λ k. inl (handle_map-view y s client r k)))
  dispatch-Signals s client t unmap v = request-rule y (Signals s) t _ (λ r w.
      answered-Signals s _ (handle_unmap-answers s client r)
        (λ k. inl (handle_unmap-view y s client r k v)))
  dispatch-Signals s client t update v = request-rule y (Signals s) t _ (λ r w.
      answered-Signals s _ (handle_update-answers s r)
        (λ k. inl (ap (λ s'. view s' k) (handle_update-server y s r))))
  dispatch-Signals s client t write v =
      request-rule y (Signals s) t _ (λ r w. handle_write-Signals s r v w)
  dispatch-Signals s client t wait v =
      request-rule y (Signals s) t _ (λ r w. check_wait-Signals s r.id r.revision)
  dispatch-Signals s client t ack v = answered-Signals s _ (_, refl) (λ k. inl refl)
  dispatch-Signals s client t nack v = answered-Signals s _ (_, refl) (λ k. inl refl)
  dispatch-Signals s client t undef v = answered-Signals s _ (_, refl) (λ k. inl refl)

  pub handle-Signals :
      {s : Server} (client t : Text) {r : Reaction}
      → IsValid s
      → handle y s client t ≡ returns r
      → Signals s r
  unfolding handle
  handle-Signals {s} client t {r} v e =
      ensured (Signals s) _ r e (dispatch-Signals s client t (type_of (Message.create y t)) v)

pub asleep-injective : {i j a b : ℤ} → asleep i a ≡ asleep j b → (i ≡ j) × (a ≡ b)
asleep-injective e = (cc, cc)

pub sleep_of_asleep :
    (r : Reply) (i revision : ℤ) → after r ≡ asleep i revision → r ≡ sleep i revision
sleep_of_asleep (answer t) i revision e = cc
sleep_of_asleep (sleep j a) i revision e = cc
