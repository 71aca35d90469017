-- ===== src/Server/Threads/Pending.antt =====
-- A thread of src/server.cpp that runs `WAIT` for a client, while the other threads run.
use distributed_memory.Prelude.{
  ℕ, ◌+◌, ◌<◌, ◌≡◌, sym, ap, ◌∙◌, inl, inr, ℤ, pos, int_key, int_max, add_one, add_one-pos, Option,
  none, some, List, ◌==◌, Bool-cases, arith,
}
use distributed_memory.Yaml.{Yaml}
use distributed_memory.Server.{ack_text}
use distributed_memory.Server.Versions.{Version}
use distributed_memory.Server.Answers.{Advances}
use distributed_memory.Server.Threads.{
  Thread, absent, reading, replying, asleep, woken, finished, wake, wake_all,
}
use distributed_memory.Server.Threads.History.{Later}

-- A block has another, greater revision than `n`.
abbrev pub IsPast : ℕ → Option Version → Type 0
IsPast n v =
    (revision : ℕ) × (bytes : Option (List ℕ)) × (v ≡ some (pos revision, bytes)) × (n < revision)

-- A thread waits for block `k` to leave revision `n`, or has done so and is about to answer by ACK.
abbrev pub Pending : Yaml → ℤ → ℕ → Option Version → Thread → Type 0
Pending y k n v absent = ⊥
Pending y k n v reading = ⊥
Pending y k n v (replying t) = (t ≡ ack_text y) × IsPast n v
Pending y k n v (asleep i revision) = (i ≡ k) × (revision ≡ pos n)
Pending y k n v (woken i revision) = (i ≡ k) × (revision ≡ pos n)
Pending y k n v finished = ⊥

wake-Pending :
    (y : Yaml) (k : ℤ) (n : ℕ) (v : Option Version) (i : ℤ) (t : Thread)
    → Pending y k n v t
    → Pending y k n v (wake i t)
wake-Pending y k n v i (replying t) h = h
wake-Pending y k n v i (woken j revision) h = h
wake-Pending y k n v i (asleep j revision) h = elim (Bool-cases (i == j)) [
  | inl same ↦ rw same h
  | inr other ↦ rw other h
]
wake-Pending y k n v i absent h = h
wake-Pending y k n v i reading h = h
wake-Pending y k n v i finished h = h

pub wake_all-Pending :
    (y : Yaml) (k : ℤ) (n : ℕ) (v : Option Version) (o : Option ℤ) (threads : ℕ → Thread) (j : ℕ)
    → Pending y k n v (threads j)
    → Pending y k n v (wake_all o threads j)
wake_all-Pending y k n v none threads j h = h
wake_all-Pending y k n v (some i) threads j h = wake-Pending y k n v i (threads j) h

-- A thread goes on pending at a later version of the block.
pub Pending-later :
    (y : Yaml) (k : ℤ) (n : ℕ) (v w : Option Version) (t : Thread)
    → (IsPast n v → IsPast n w)
    → Pending y k n v t
    → Pending y k n w t
Pending-later y k n v w (replying t) f h = (h.0, f h.1)
Pending-later y k n v w (woken j revision) f h = h
Pending-later y k n v w (asleep j revision) f h = h
Pending-later y k n v w absent f h = h
Pending-later y k n v w reading f h = h
Pending-later y k n v w finished f h = h

version-injective :
    {a b : ℕ} {c d : Option (List ℕ)}
    → ◌≡◌ {A = Option Version} (some (pos a, c)) (some (pos b, d))
    → a ≡ b
version-injective e = cc

-- Where a block has gone on by a step, and cannot have reached INT_MAX.
pub IsPast-Advances :
    (n m steps : ℕ) (bytes : Option (List ℕ)) (v w : Option Version)
    → Later steps m bytes v
    → m + steps < int_max
    → Advances v w
    → IsPast n v
    → IsPast n w
IsPast-Advances n m steps bytes v w l room (inl e) (revision, was, now, past) =
    (revision, was, e ∙ now, past)
IsPast-Advances n m steps bytes v w l room (inr (old, was, is, e, e')) (revision, was', now, past) =
    let same : revision ≡ l.revision = version-injective (sym now ∙ l.now) in
    (
      revision + 1,
      is,
      e'
          ∙ ap (λ i. some (i, is))
              (ap add_one (revision-of (sym e ∙ now))
                ∙ add_one-pos revision (omega (arith, l.bounded))),
      omega arith,
    )
  where
    revision-of :
        {a b : ℤ} {c d : Option (List ℕ)}
        → ◌≡◌ {A = Option Version} (some (a, c)) (some (b, d))
        → a ≡ b
    revision-of p = cc
