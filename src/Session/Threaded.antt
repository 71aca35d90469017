-- ===== src/Session/Threaded.antt =====
-- The connection of a client of src/client.cpp to a server of src/server.cpp whose threads run on while
-- the client waits for an answer.
use distributed_memory.Prelude.{ℕ, pos, int_key, Text, Outcome, returns, throws, undefined}
use distributed_memory.Yaml.{Yaml}
use distributed_memory.Socket
use distributed_memory.Network.{Network}
use distributed_memory.Server.{Reaction, handle}
use distributed_memory.Server.Threads.{
  Thread, absent, reading, replying, asleep, woken, finished, System, with_thread, reacted,
}

-- What a request leaves of the threads, once the thread of the connection has it.
abbrev pub deliver : System → ℕ → Outcome Reaction → Outcome (Unit {0}) × System
deliver s i (returns r) = (returns tt, reacted s i r)
deliver s i throws = (returns tt, record s { threads = with_thread s.threads i finished })
deliver s i undefined = (throws, s)

-- The answer of the thread of the connection, or none before the time is out.
abbrev pub fetch : System → ℕ → Thread → Outcome Text × System
fetch s i (replying t) = (returns t, record s { threads = with_thread s.threads i reading })
fetch s i absent = (throws, s)
fetch s i reading = (throws, s)
fetch s i (asleep block_id revision) = (throws, s)
fetch s i (woken block_id revision) = (throws, s)
fetch s i finished = (throws, s)

-- The connection of a client to thread `i` of a server. `meanwhile` is what the threads do while the
-- client waits for its answer, until it comes or the time is out.
unfoldable pub threaded : Yaml → (ℕ → Text) → ℕ → (System → System) → Network System
threaded y client_id i meanwhile = record {
  connect = λ conf s. (returns (record Socket.create { sockfd = pos 3 }), s);
  send = λ server_id t s. deliver s i (handle y s.server (client_id i) t);
  receive = λ server_id s. fetch (meanwhile s) i ((meanwhile s).threads i);
}
