-- ===== src/Server/Starting.antt =====
-- Server::start of src/server.cpp as a whole, where it can listen and where it cannot.
use distributed_memory.Server.Serving.{IsServing}
use distributed_memory.Prelude.{◌≡◌, int_key, true, List, returns, throws, undefined}
use distributed_memory.Config
use distributed_memory.Config.{ServerConf}
use distributed_memory.Socket.Opening.{Kernel}
use distributed_memory.Socket.Resources.{Descriptors, Balanced}
use distributed_memory.Secure.Endpoints.{Ssl, SecureSocket, make_server}
use distributed_memory.Server.{Server}
use distributed_memory.Server.Life.{Event, live, Running, constructed, start}

module _ {E K : Type 0} (ssl : Ssl E) (kernel : Kernel K) (d : Descriptors kernel)
    (events : List Event) (server : Server) (conf : ServerConf) (k : K) where
  -- The server listens, and serves the clients that it has accepted.
  abbrev pub Listens : Type 0
  Listens =
      (s : SecureSocket E) × (k' : K) × (r : Running E K) × (make_server ssl kernel conf.port
          conf.privkey conf.pass k
        ≡ returns (returns s, k'))
      × Balanced kernel d k true s.socket k'
      × (start ssl kernel events (constructed server k) ≡ returns r)
      × (r.listen_socket ≡ live s)
      × (r.server ≡ server)
      × IsServing d k' r

  abbrev pub CannotListen : Type 0
  CannotListen =
      (k' : K) × (make_server ssl kernel conf.port conf.privkey conf.pass k ≡ returns (throws, k'))
      × (start ssl kernel events (constructed server k) ≡ undefined)
