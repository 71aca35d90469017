-- ===== src/Server/Threads/Serial.antt =====
-- The threads of src/server.cpp seen from outside: a history of requests, one after the other, to the
-- store that the server keeps.
use distributed_memory.Prelude.{
  ℕ, suc, ◌≡◌, refl, sym, subst, ℤ, int_key, Option, none, some, List, [], ◌∷◌, Text, ◌==◌,
  Bool-cases, inl, inr, nat_beq, nat_beq_iff, if◌then◌else◌,
}
use distributed_memory.Yaml.{Yaml}
use distributed_memory.BlockServer.{BlockServer}
use distributed_memory.Message.{MessageType, wait}
use distributed_memory.Server.{Server, answer, Reaction}
use distributed_memory.Server.Store.{
  Store, Verdict, accepted, refused, full, shallow, blocked, store, said, promised,
}
use distributed_memory.Server.Store.Requests.{Asks}
use distributed_memory.Server.Threads.{
  Thread, absent, reading, replying, asleep, woken, finished, System, with_thread, after, wake,
  wake_all, reacted, reply, Reach, here, next,
}

-- A request of the client of a thread, and its verdict.
pub record Call : Type 0 where
  pub thread : ℕ
  pub type : MessageType
  pub block : BlockServer
  pub verdict : Verdict

-- The verdict of the latest call of a thread.
abbrev pub latest : ℕ → List Call → Option Verdict
latest i [] = none
latest i (c ∷ h) = if nat_beq c.thread i then some c.verdict else latest i h

-- The request that a thread makes again when it is woken.
abbrev pub again_for : ℤ → ℤ → BlockServer
again_for i revision = record {
  block = record { id = i; revision = revision; bytes = none };
  mapped_clients = [];
}

-- The call of thread `i` on a store.
abbrev pub call : Store → ℕ → Text → MessageType → BlockServer → Call
call a i client ty r = record {
  thread = i;
  type = ty;
  block = r;
  verdict = (promised a client ty r).1;
}

module _ (y : Yaml) (client_id : ℕ → Text) where
  -- The calls, the latest first, that lead from one store to another: each is a message of the client, or
  -- a wait that was blocked, made again.
  pub data Serial (start : Store) : List Call → Store → Type 0 where
    untouched : Serial start [] start
    called :
        {h : List Call} {a : Store} (i : ℕ) (message : Text) (ty : MessageType) (r : BlockServer)
        → Serial start h a
        → Asks y message ty r
        → Serial start (call a i (client_id i) ty r ∷ h) (promised a (client_id i) ty r).0
    again :
        {h : List Call} {a : Store} (i : ℕ) (k revision : ℤ)
        → Serial start h a
        → latest i h ≡ some (blocked k revision)
        → Serial start
            (call a i (client_id i) wait (again_for k revision) ∷ h)
            (promised a (client_id i) wait (again_for k revision)).0

-- A thread is about to tell its client a verdict, or sleeps because of it.
abbrev pub Tells : Yaml → Thread → Option Verdict → Type 0
Tells y absent o = Unit {0}
Tells y reading o = Unit {0}
Tells y (replying t) o = (v : Verdict) × (o ≡ some v) × (said y v ≡ answer t)
Tells y (asleep k revision) o = o ≡ some (blocked k revision)
Tells y (woken k revision) o = o ≡ some (blocked k revision)
Tells y finished o = Unit {0}

after-Tells : (y : Yaml) (v : Verdict) → Tells y (after (said y v)) (some v)
after-Tells y accepted = (accepted, refl, refl)
after-Tells y refused = (refused, refl, refl)
after-Tells y (full k v) = (full k v, refl, refl)
after-Tells y (shallow k v) = (shallow k v, refl, refl)
after-Tells y (blocked k revision) = refl

wake-Tells :
    (y : Yaml) (i : ℤ) (t : Thread) (o : Option Verdict) → Tells y t o → Tells y (wake i t) o
wake-Tells y i absent o h = h
wake-Tells y i reading o h = h
wake-Tells y i (replying t) o h = h
wake-Tells y i (woken k revision) o h = h
wake-Tells y i finished o h = h
wake-Tells y i (asleep k revision) o h = elim (Bool-cases (i == k)) [
  | inl same ↦ rw same h
  | inr other ↦ rw other h
]

wake_all-Tells :
    (y : Yaml) (b : Option ℤ) (threads : ℕ → Thread) (j : ℕ) (o : Option Verdict)
    → Tells y (threads j) o
    → Tells y (wake_all b threads j) o
wake_all-Tells y none threads j o h = h
wake_all-Tells y (some i) threads j o h = wake-Tells y i (threads j) o h

module _ (y : Yaml) (client_id : ℕ → Text) where
  -- Calls that explain a state of the threads: they lead to the store that the server keeps, and what a
  -- thread is about to tell its client, or sleeps for, is the verdict of its latest call.
  pub record History (start : Store) (calls : List Call) (s : System) : Type 0 where
    pub serial : Serial y client_id start calls (store s.server)
    pub tells : (j : ℕ) → Tells y (s.threads j) (latest j calls)

  pub moved-History :
      {start : Store} {calls : List Call} {s : System} (i : ℕ) (t : Thread)
      → History start calls s
      → Tells y t (latest i calls)
      → History start calls (record s { threads = with_thread s.threads i t })
  moved-History {calls} {s} i t g h = record { serial = g.serial; tells = tells' }
    where
      tells' : (j : ℕ) → Tells y (if nat_beq i j then t else s.threads j) (latest j calls)
      tells' j = elim (Bool-cases (nat_beq i j)) [
        | inl own ↦ rw own (subst (λ k. Tells y t (latest k calls)) ((nat_beq_iff i j).0 own) h)
        | inr other ↦ rw other (g.tells j)
      ]

  pub reacted-History :
      {start : Store} {calls : List Call} {s : System} (c : Call) (a : Reaction)
      → History start calls s
      → Serial y client_id start (c ∷ calls) (store a.server)
      → a.reply ≡ said y c.verdict
      → History start (c ∷ calls) (reacted s c.thread a)
  reacted-History {calls} {s} c a g p told = record {
    serial = p;
    tells = λ j.
        wake_all-Tells y a.broadcast (with_thread s.threads c.thread (after a.reply)) j _
          (tells' j);
  }
    where
      tells' :
          (j : ℕ)
          → Tells y
              (if nat_beq c.thread j then after a.reply else s.threads j)
              (latest j (c ∷ calls))
      tells' j = elim (Bool-cases (nat_beq c.thread j)) [
        | inl same ↦
            rw same
              (subst (λ q. Tells y (after q) (some c.verdict)) (sym told) (after-Tells y c.verdict))
        | inr other ↦ rw other (g.tells j)
      ]

  -- How many steps have led to a state.
  abbrev pub steps : {start : Server} {s : System} → Reach y client_id start s → ℕ
  steps here = 0
  steps (next r st) = suc (steps r)
