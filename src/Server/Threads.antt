-- ===== src/Server/Threads.antt =====
-- The threads of a server: one for each connection, which run `client_handler` of src/server.cpp
-- over the same blocks. A step is what a thread does while it has the mutex, or an event of its
-- connection; threads take turns in any order. A message is parsed in the same step, though the
-- program does that outside the mutex. `pthread_cond_wait` may also return unasked.
pub mod Signals
pub mod Waits
pub mod History
pub mod Wakeups
pub mod Serial
pub mod Writes
pub mod Pending
pub mod Meanwhile
use distributed_memory.Prelude.{
  ℕ, ◌≡◌, refl, ◌≢◌, ℤ, int_key, Option, none, some, List, [], ◌∷◌, Text, ◌==◌, Outcome, returns,
  nat_beq, if◌then◌else◌,
}
use distributed_memory.Prelude.Assoc.{find}
use distributed_memory.Yaml.{Yaml}
use distributed_memory.BlockServer.{BlockServer}
use distributed_memory.Server.{Server, Reply, answer, sleep, Reaction, check_wait, handle}

-- Where a thread stands.
pub data Thread : Type 0 where
  absent : Thread  -- no connection yet
  reading : Thread  -- before `(*socket) >> message`
  replying : Text → Thread  -- before `(*socket) << ack`
  asleep : (block_id revision : ℤ) → Thread  -- in `pthread_cond_wait`
  woken : (block_id revision : ℤ) → Thread  -- to test the loop of `WAIT` again
  finished : Thread  -- past the loop

pub record System : Type 0 where
  pub server : Server
  pub threads : ℕ → Thread

abbrev pub with_thread {ℓ} : {A : Type ℓ} → (ℕ → A) → ℕ → A → ℕ → A
with_thread f i a j = if nat_beq i j then a else f j

-- Where a thread goes with a reply.
abbrev pub after : Reply → Thread
after (answer t) = replying t
after (sleep block_id revision) = asleep block_id revision

abbrev pub wake : ℤ → Thread → Thread
wake i (asleep j revision) = if i == j then woken j revision else asleep j revision
wake i t = t

-- `pthread_cond_broadcast`
abbrev pub wake_all : Option ℤ → (ℕ → Thread) → ℕ → Thread
wake_all none threads j = threads j
wake_all (some i) threads j = wake i (threads j)

-- The system after thread `i` has run a request.
abbrev pub reacted : System → ℕ → Reaction → System
reacted s i r = record {
  server = r.server;
  threads = wake_all r.broadcast (with_thread s.threads i (after r.reply));
}

module _ (y : Yaml) (client_id : ℕ → Text) where
  pub data Step (s : System) : System → Type 0 where
    connect :
        (i : ℕ)
        → s.threads i ≡ absent
        → Step s (record s { threads = with_thread s.threads i reading })
    request :
        (i : ℕ) (message : Text) {r : Reaction}
        → s.threads i ≡ reading
        → message ≢ []
        → handle y s.server (client_id i) message ≡ returns r
        → Step s (reacted s i r)
    spurious :
        (i : ℕ) {block_id revision : ℤ}
        → s.threads i ≡ asleep block_id revision
        → Step s (record s { threads = with_thread s.threads i (woken block_id revision) })
    recheck :
        (i : ℕ) {block_id revision : ℤ}
        → s.threads i ≡ woken block_id revision
        → Step s (reacted s i (check_wait y s.server block_id revision))
    reply :
        (i : ℕ) {t : Text}
        → s.threads i ≡ replying t
        → Step s (record s { threads = with_thread s.threads i reading })
    leave :
        (i : ℕ)
        → s.threads i ≢ absent
        → ((block_id revision : ℤ) → s.threads i ≢ asleep block_id revision)
        → ((block_id revision : ℤ) → s.threads i ≢ woken block_id revision)
        → Step s (record s { threads = with_thread s.threads i finished })

  -- The states that a server which starts as `start` can get to.
  pub data Reach (start : Server) : System → Type 0 where
    here : Reach start (record { server = start; threads = λ i. absent })
    next : {s t : System} → Reach start s → Step s t → Reach start t
