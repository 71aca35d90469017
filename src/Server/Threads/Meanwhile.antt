-- ===== src/Server/Threads/Meanwhile.antt =====
-- What a thread of src/server.cpp that runs `WAIT` comes to, while the other threads run in any order.
use distributed_memory.Prelude.{
  ℕ, suc, ◌+◌, ◌≤◌, ◌≡◌, ◌≢◌, refl, sym, ap, subst, ◌∙◌, inl, inr, ℤ, pos, int_key, int_max, Bool,
  true, false, Option, some, List, Text, ◌==◌, ==_iff, Bool-cases, arith, nat_beq, nat_beq_iff,
  if◌then◌else◌,
}
use distributed_memory.Yaml.{Yaml}
use distributed_memory.Server.{check_wait}
use distributed_memory.Server.Versions.{Version, view}
use distributed_memory.Server.Answers.{check_wait-view}
use distributed_memory.Server.Store.{accepted, blocked, said, promised}
use distributed_memory.Server.Store.Blocks.{check_wait-Follows}
use distributed_memory.Server.Threads.Serial.{again_for}
use distributed_memory.Server.Threads.{
  Thread, absent, reading, woken, finished, System, with_thread, after, Step, connect, request,
  spurious, recheck, reply, leave,
}
use distributed_memory.Server.Threads.Waits.{Inv}
use distributed_memory.Server.Threads.History.{
  Steps, stay, step, Step-Advances, Steps-Inv, Steps-Later,
}
use distributed_memory.Server.Threads.Pending.{
  IsPast, Pending, wake_all-Pending, Pending-later, IsPast-Advances,
}

module _ (y : Yaml) (client_id : ℕ → Text) where
  -- Steps in which thread `i` neither answers its client nor ends, though it may be woken.
  abbrev pub Spares : ℕ → {s t : System} → Step y client_id s t → Type 0
  Spares i (connect j a) = Unit {0}
  Spares i (request j message a m e) = Unit {0}
  Spares i (spurious j a) = Unit {0}
  Spares i (recheck j a) = Unit {0}
  Spares i (reply j a) = j ≢ i
  Spares i (leave j a b c) = j ≢ i

  pub data Meanwhile (i : ℕ) (s : System) : ℕ → System → Type 0 where
    stays : Meanwhile i s 0 s
    goes :
        {m : ℕ} {t u : System}
        → Meanwhile i s m t
        → (st : Step y client_id t u) → Spares i st
        → Meanwhile i s (suc m) u

  pub Meanwhile-Steps :
      {i : ℕ} {s : System} {m : ℕ} {t : System} → Meanwhile i s m t → Steps y client_id s m t
  Meanwhile-Steps stays = stay
  Meanwhile-Steps (goes p st h) = step (Meanwhile-Steps p) st

  -- A thread in another place than one that pends is another thread.
  other_place :
      (k : ℤ) (n : ℕ) (v : Option Version) (threads : ℕ → Thread) (i j : ℕ) (t : Thread)
      → ¬ (Pending y k n v t)
      → threads j ≡ t
      → Pending y k n v (threads i)
      → nat_beq j i ≡ false
  other_place k n v threads i j t never e h = elim (Bool-cases (nat_beq j i)) [
    | inl same ↦
        absurd (never (subst (Pending y k n v) (sym (ap threads ((nat_beq_iff j i).0 same)) ∙ e) h))
    | inr other ↦ other
  ]

  pub recheck-Pending :
      (s : System) (client : Text) (i : ℕ) (k : ℤ) (n : ℕ) (revision : ℕ) (bytes : Option (List ℕ))
      → view s.server k ≡ some (pos revision, bytes)
      → n ≤ revision
      → Pending y k n
          (view (check_wait y s.server k (pos n)).server k)
          (after (check_wait y s.server k (pos n)).reply)
  recheck-Pending s client i k n revision bytes now grown =
      rw ((check_wait-Follows y s.server client (again_for k (pos n))).told)
        (rw (now, promised) (by_test (pos revision == pos n) refl))
    where
      by_test :
          (same : Bool)
          → (pos revision == pos n) ≡ same
          → Pending y k n
              (view (check_wait y s.server k (pos n)).server k)
              (after (said y (if same then blocked k (pos n) else accepted)))
      by_test true e = (refl, refl)
      by_test false e = (
        refl,
        (
          revision,
          bytes,
          check_wait-view y s.server k (pos n) k ∙ now,
          omega (arith, grown, apart),
        ),
      )
        where
          apart : revision ≢ n
          apart p = cc ((==_iff (pos revision) (pos n)).1 (ap pos p), e)

  other_thread : (i j : ℕ) → j ≢ i → nat_beq j i ≡ false
  other_thread i j h = elim (Bool-cases (nat_beq j i)) [
    | inl same ↦ absurd (h ((nat_beq_iff j i).0 same))
    | inr other ↦ other
  ]

  -- The place of another thread changes.
  moved-Pending :
      (k : ℤ) (n : ℕ) (v : Option Version) (threads : ℕ → Thread) (i j : ℕ) (t : Thread)
      → nat_beq j i ≡ false
      → Pending y k n v (threads i)
      → Pending y k n v (with_thread threads j t i)
  moved-Pending k n v threads i j t other h = rw other h

  Step-Pending :
      {s t : System} (i : ℕ) (k : ℤ) (n : ℕ) (revision : ℕ) (bytes : Option (List ℕ))
      → (st : Step y client_id s t) → Spares i st
      → view s.server k ≡ some (pos revision, bytes)
      → n ≤ revision
      → (IsPast n (view s.server k) → IsPast n (view t.server k))
      → Pending y k n (view s.server k) (s.threads i)
      → Pending y k n (view t.server k) (t.threads i)
  Step-Pending {s} i k n revision bytes (connect j a) spares now grown on h =
      moved-Pending k n _ s.threads i j reading
        (other_place k n _ s.threads i j absent (λ p. p) a h) h
  Step-Pending {s} i k n revision bytes (request j message {r} a m e) spares now grown on h =
      wake_all-Pending y k n _ r.broadcast (with_thread s.threads j (after r.reply)) i (
        moved-Pending k n _ s.threads i j (after r.reply)
          (other_place k n _ s.threads i j reading (λ p. p) a h)
          (Pending-later y k n _ _ (s.threads i) on h))
  Step-Pending {s} i k n revision bytes (spurious j {block_id} {revision = b} a) spares now grown on
        h =
      elim (Bool-cases (nat_beq j i)) [
        | inl same ↦ rw same (
            subst (Pending y k n (view s.server k))
              (sym (ap s.threads ((nat_beq_iff j i).0 same)) ∙ a) h)
        | inr other ↦ moved-Pending k n _ s.threads i j (woken block_id b) other h
      ]
  Step-Pending {s} i k n revision bytes (recheck j {block_id} {revision = b} a) spares now grown on
        h =
      wake_all-Pending y k n _ (check_wait y s.server block_id b).broadcast
        (with_thread s.threads j (after (check_wait y s.server block_id b).reply)) i
        (elim (Bool-cases (nat_beq j i)) [
          | inl same ↦ rw same (
              rechecked block_id b (
                subst (Pending y k n (view s.server k))
                  (sym (ap s.threads ((nat_beq_iff j i).0 same)) ∙ a) h))
          | inr other ↦
              moved-Pending k n _ s.threads i j _ other (Pending-later y k n _ _ (s.threads i) on h)
        ])
    where
      rechecked :
          (i' b' : ℤ)
          → (i' ≡ k) × (b' ≡ pos n)
          → Pending y k n
              (view (check_wait y s.server i' b').server k)
              (after (check_wait y s.server i' b').reply)
      rechecked i' b' (p, q) =
          rw (p, q) (recheck-Pending s (client_id i) i k n revision bytes now grown)
  Step-Pending {s} i k n revision bytes (reply j a) spares now grown on h =
      moved-Pending k n _ s.threads i j reading (other_thread i j spares) h
  Step-Pending {s} i k n revision bytes (leave j a b c) spares now grown on h =
      moved-Pending k n _ s.threads i j finished (other_thread i j spares) h

  -- While the other threads run, a thread that waits for a block to leave a revision waits on, or is about
  -- to answer by ACK since the block has a greater one.
  pub Meanwhile-Pending :
      (i : ℕ) (k : ℤ) (n : ℕ) (bytes : Option (List ℕ)) {s : System} {m : ℕ} {t : System}
      → Meanwhile i s m t
      → Inv s
      → view s.server k ≡ some (pos n, bytes)
      → n + m ≤ int_max
      → Pending y k n (view s.server k) (s.threads i)
      → Pending y k n (view t.server k) (t.threads i)
  Meanwhile-Pending i k n bytes stays inv e room h = h
  Meanwhile-Pending i k n bytes (goes {m} {t} p st spares) inv e room h =
      let l = Steps-Later y client_id k n bytes (Meanwhile-Steps p) inv e (omega (arith, room)) in
      Step-Pending i k n l.revision l.contents st spares l.now l.grown
        (IsPast-Advances n n m bytes _ _ l (omega (arith, room))
          (Step-Advances y client_id k st (Steps-Inv y client_id (Meanwhile-Steps p) inv)))
        (Meanwhile-Pending i k n bytes p inv e (omega (arith, room)) h)
