-- ===== src/Server/Life.antt =====
-- Server::start, Server::stop and the destructor of src/server.cpp: the listening socket and the
-- connections that are handed to threads.
use distributed_memory.Prelude.{
  ℕ, zero, suc, Option, none, some, List, [], ◌∷◌, Outcome, returns, throws, undefined, ◌>>=◌,
}
use distributed_memory.Config
use distributed_memory.Config.{ServerConf}
use distributed_memory.Socket.Opening
use distributed_memory.Socket.Opening.{Kernel}
use distributed_memory.Secure.Endpoints
use distributed_memory.Secure.Endpoints.{Ssl, SecureSocket, Made, make_server, accept_or_throw}
use distributed_memory.Server.{Server}

-- The pointer `listen_socket`, which no constructor sets.
pub data Pointer (E : Type 0) : Type 0 where
  indeterminate : Pointer E
  dangling : Pointer E
  live : SecureSocket E → Pointer E

-- `threads` are the sockets that were handed to threads, the latest first.
pub record Running (E K : Type 0) : Type 0 where
  pub server : Server
  pub listen_socket : Pointer E
  pub threads : List (SecureSocket E)
  pub kernel : K

-- A server that was constructed and is not started.
abbrev pub constructed : {E K : Type 0} → Server → K → Running E K
constructed s k = record { server = s; listen_socket = indeterminate; threads = []; kernel = k }

pub record HandlerWrapperArgs (E K : Type 0) : Type 0 where
  pub obj : Running E K
  pub socket : SecureSocket E

-- Server::client_handler_wrapper: a thread begins to run `client_handler` on the socket.
abbrev pub client_handler_wrapper : {E K : Type 0} → HandlerWrapperArgs E K → Running E K
client_handler_wrapper args = record args.obj { threads = args.socket ∷ args.obj.threads }

-- A round of the loop, with the nonce that `accept` draws; or the end of the thread with a number.
pub data Event : Type 0 where
  accepts : List ℕ → Event
  leaves : ℕ → Event

-- The socket with a number, and the others.
unfoldable pub take_out :
    {E : Type 0} → ℕ → List (SecureSocket E) → Option (SecureSocket E × List (SecureSocket E))
take_out i [] = none
take_out zero (s ∷ ss) = some (s, ss)
take_out (suc i) (s ∷ ss) = elim (take_out i ss) [ none ↦ none | some r ↦ some (r.0, s ∷ r.1) ]

module _ {E : Type 0} (ssl : Ssl E) {K : Type 0} (kernel : Kernel K) where
  -- `delete listen_socket`
  unfoldable pub delete : Running E K → Outcome (Running E K)
  unfolding Opening.destroy
  delete r = elim r.listen_socket [
    | indeterminate ↦ undefined
    | dangling ↦ undefined
    | live s ↦
        returns
          (record r { listen_socket = dangling; kernel = Opening.destroy kernel s.socket r.kernel })
  ]

  -- Server::stop
  unfoldable pub stop : Running E K → Outcome (Running E K)
  unfolding delete
  stop r = delete r

  -- Server::~Server, which finds no null pointer.
  unfoldable pub destroy : Running E K → Outcome (Running E K)
  unfolding delete
  destroy r = delete r

  -- What a round of the loop of `start` does once `accept` has returned or thrown: the socket goes to
  -- a new thread, or is deleted.
  abbrev pub hand_over : Running E K → Outcome (Unit {0}) × Made E K → Running E K
  hand_over r (returns u, m) =
      client_handler_wrapper (record { obj = record r { kernel = m.kernel }; socket = m.secure })
  hand_over r (throws, m) = record r { kernel = Opening.destroy kernel m.secure.socket m.kernel }
  hand_over r (undefined, m) = r

  -- The end of `client_handler` in a thread, which deletes its socket.
  abbrev pub without : Running E K → Option (SecureSocket E × List (SecureSocket E)) → Running E K
  without r none = r
  without r (some (s, rest)) = record r {
    threads = rest;
    kernel = Opening.destroy kernel s.socket r.kernel;
  }

  unfoldable pub leave : ℕ → Running E K → Running E K
  unfolding Opening.destroy take_out
  leave i r = without r (take_out i r.threads)

  -- The loop of `start`, together with the threads that end meanwhile. It does not end by itself: this is
  -- what it has done after certain events.
  unfoldable pub accept_loop : SecureSocket E → List Event → Running E K → Outcome (Running E K)
  unfolding leave
  accept_loop listener [] r = returns r
  accept_loop listener (accepts nonce ∷ events) r =
      accept_or_throw ssl kernel listener nonce Endpoints.create r.kernel >>= λ a.
      accept_loop listener events (hand_over r a)
  accept_loop listener (leaves i ∷ events) r = accept_loop listener events (leave i r)

  unfoldable pub listen :
      List Event → Running E K → Outcome (SecureSocket E) × K → Outcome (Running E K)
  unfolding stop accept_loop
  listen events r (returns s, k) =
      accept_loop s events (record r { listen_socket = live s; kernel = k })
  listen events r (throws, k) = stop (record r { kernel = k })
  listen events r (undefined, k) = undefined

  -- Server::start, with what it has done after certain events where its loop is entered.
  unfoldable pub start : List Event → Running E K → Outcome (Running E K)
  unfolding listen
  start events r = elim (Config.find r.server.config r.server.id) [
    | none ↦ undefined
    | some conf ↦
        make_server ssl kernel conf.port conf.privkey conf.pass r.kernel >>= listen events r
  ]
