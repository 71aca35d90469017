-- ===== src/Server/Threads/Waits.antt =====
-- The threads of src/server.cpp that wait for a block.
use distributed_memory.Prelude.{
  ℕ, ◌≡◌, ◌≢◌, refl, ◌∙◌, inl, inr, ℤ, int_key, Option, none, some, Text, ◌==◌, ==_iff, Bool-cases,
  if◌then◌else◌, nat_beq,
}
use distributed_memory.Yaml.{Yaml}
use distributed_memory.Server.{Server, Reaction, check_wait}
use distributed_memory.Server.Invariant.{IsValid}
use distributed_memory.Server.Requests.{handle-IsValid, check_wait-IsValid}
use distributed_memory.Server.Threads.{
  Thread, absent, reading, replying, asleep, woken, finished, System, with_thread, after, wake_all,
  reacted, Step, connect, request, spurious, recheck, reply, leave, Reach, here, next,
}
use distributed_memory.Server.Threads.Signals.{
  IsAt, Signals, check_wait-Signals, handle-Signals, absent-ne-asleep, asleep-injective,
  sleep_of_asleep,
}

-- A thread that sleeps after a broadcast slept before it, and on another block.
sleeps_through :
    (o : Option ℤ) (threads : ℕ → Thread) (j : ℕ) (i revision : ℤ)
    → wake_all o threads j ≡ asleep i revision
    → (threads j ≡ asleep i revision) × (o ≢ some i)
sleeps_through none threads j i revision e = (e, λ p. cc)
sleeps_through (some k) threads j i revision e = through (threads j) refl
  where
    through : (t : Thread) → threads j ≡ t → (threads j ≡ asleep i revision) × (some k ≢ some i)
    through absent p = cc (rw p at e)
    through reading p = cc (rw p at e)
    through (replying m) p = cc (rw p at e)
    through (woken b r) p = cc (rw p at e)
    through finished p = cc (rw p at e)
    through (asleep b r) p = elim (Bool-cases (k == b)) [
      | inl same ↦ cc (rw (p, same) at e)
      | inr other ↦
          let q : asleep b r ≡ asleep i revision = rw (p, other) at e in
          (p ∙ q, λ h. cc (other, (==_iff k b).1 (cc (h, (asleep-injective q).0))))
    ]

-- The invariant of the threads.
pub record Inv (s : System) : Type 0 where
  pub valid : IsValid s.server
  pub waits : (j : ℕ) (i revision : ℤ) → s.threads j ≡ asleep i revision → IsAt s.server i revision

reacted-Inv :
    {s : System} (i : ℕ) (r : Reaction)
    → Inv s
    → IsValid r.server
    → Signals s.server r
    → Inv (reacted s i r)
reacted-Inv {s} i r inv v sig = record { valid = v; waits = waits' }
  where
    at :
        (j : ℕ) (k revision : ℤ)
        → (if nat_beq i j then after r.reply else s.threads j) ≡ asleep k revision
        → r.broadcast ≢ some k
        → IsAt r.server k revision
    at j k revision e o = elim (Bool-cases (nat_beq i j)) [
      | inl own ↦ sig.sleeps k revision (sleep_of_asleep r.reply k revision (rw own at e))
      | inr other ↦ elim (sig.signalled k) [
        | inr b ↦ absurd (o b)
        | inl same ↦
            let (bytes, old) = inv.waits j k revision (rw other at e) in (bytes, same ∙ old)
      ]
    ]

    waits' :
        (j : ℕ) (k revision : ℤ)
        → wake_all r.broadcast (with_thread s.threads i (after r.reply)) j ≡ asleep k revision
        → IsAt r.server k revision
    waits' j k revision e =
        let (e', o) =
          sleeps_through r.broadcast (with_thread s.threads i (after r.reply)) j k revision e in
        at j k revision e' o

moved-Inv :
    {s : System} (i : ℕ) (t : Thread)
    → Inv s
    → ((k revision : ℤ) → ¬ (t ≡ asleep k revision))
    → Inv (record s { threads = with_thread s.threads i t })
moved-Inv {s} i t inv h = record { valid = inv.valid; waits = waits' }
  where
    waits' :
        (j : ℕ) (k revision : ℤ)
        → (if nat_beq i j then t else s.threads j) ≡ asleep k revision
        → IsAt s.server k revision
    waits' j k revision e = elim (Bool-cases (nat_beq i j)) [
      | inl own ↦ absurd (h k revision (rw own at e))
      | inr other ↦ inv.waits j k revision (rw other at e)
    ]

module _ (y : Yaml) (client_id : ℕ → Text) where
  pub Step-Inv : {s t : System} → Step y client_id s t → Inv s → Inv t
  Step-Inv (connect i a) inv = moved-Inv i reading inv (λ k r e. cc)
  Step-Inv (request i message {r} a m e) inv =
      reacted-Inv i r inv (handle-IsValid y (client_id i) message inv.valid e)
        (handle-Signals y (client_id i) message inv.valid e)
  Step-Inv (spurious i {block_id} {revision} a) inv =
      moved-Inv i (woken block_id revision) inv (λ k r e. cc)
  Step-Inv {s} (recheck i {block_id} {revision} a) inv =
      reacted-Inv i (check_wait y s.server block_id revision) inv
        (check_wait-IsValid y block_id revision inv.valid)
        (check_wait-Signals y s.server block_id revision)
  Step-Inv (reply i a) inv = moved-Inv i reading inv (λ k r e. cc)
  Step-Inv (leave i a b c) inv = moved-Inv i finished inv (λ k r e. cc)

  pub Reach-Inv : {start : Server} {s : System} → IsValid start → Reach y client_id start s → Inv s
  Reach-Inv v here = record { valid = v; waits = λ j i r e. absurd (absent-ne-asleep i r e) }
  Reach-Inv v (next r st) = Step-Inv st (Reach-Inv v r)

  -- No wake-up is lost: in every state that a valid server with any number of connections gets to, a
  -- thread that sleeps in `WAIT` waits for a block that the server has, at the revision that the
  -- block still has.
  pub no_lost_wakeup :
      {start : Server} {s : System}
      → IsValid start
      → Reach y client_id start s
      → (j : ℕ) (i revision : ℤ) → s.threads j ≡ asleep i revision
      → IsAt s.server i revision
  no_lost_wakeup v r = (Reach-Inv v r).waits
