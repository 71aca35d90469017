-- ===== src/Session/Loopback.antt =====
-- A network with the servers of src/server.cpp at its other end, for one client: what the interface
-- of src/client.cpp to its connections can be.
use distributed_memory.Prelude.{
  ◌≡◌, ◌≢◌, refl, sym, pos, Option, none, some, Text, text_key, ◌==◌, ==_refl, ==_false, Outcome,
  returns, throws, undefined, if◌then◌else◌,
}
use distributed_memory.Yaml.{Yaml}
use distributed_memory.Socket
use distributed_memory.Socket.{Socket}
use distributed_memory.Network.{Network, exchange}
use distributed_memory.Server.{Server, Reply, answer, sleep, Reaction, handle}
use distributed_memory.Session.{Delivers}

-- The servers, and the answer that waits to be received.
pub record World : Type 0 where
  pub servers : Text → Server
  pub pending : Option Text

abbrev answer_of : Reply → Option Text
answer_of (answer t) = some t
answer_of (sleep i revision) = none

abbrev pub with_server : (Text → Server) → Text → Server → Text → Server
with_server servers i s j = if i == j then s else servers j

-- What a request leaves.
abbrev deliver : World → Text → Outcome Reaction → Outcome (Unit {0}) × World
deliver w server_id (returns r) = (
  returns tt,
  record { servers = with_server w.servers server_id r.server; pending = answer_of r.reply },
)
deliver w server_id throws = (throws, w)
deliver w server_id undefined = (throws, w)

abbrev fetch : World → Option Text → Outcome Text × World
fetch w none = (throws, w)
fetch w (some t) = (returns t, record w { pending = none })

unfoldable pub loopback : Yaml → Text → Network World
loopback y client_id = record {
  connect = λ conf w. (returns (record Socket.create { sockfd = pos 3 }), w);
  send = λ server_id t w. deliver w server_id (handle y (w.servers server_id) client_id t);
  receive = λ server_id w. fetch w w.pending;
}

pub exchange-loopback :
    (y : Yaml) (client_id server_id t a : Text) (w : World) {r : Reaction}
    → handle y (w.servers server_id) client_id t ≡ returns r
    → r.reply ≡ answer a
    → (w' : World) × (exchange (loopback y client_id) server_id t w ≡ returns (some a, w'))
      × (w'.servers server_id ≡ r.server)
      × ((other : Text) → other ≢ server_id → w'.servers other ≡ w.servers other)
unfolding exchange loopback
exchange-loopback y client_id server_id t a w {r} h p = (
  record { servers = with_server w.servers server_id r.server; pending = none },
  rw h (rw p refl),
  rw (==_refl server_id) refl,
  λ other q. rw (==_false server_id other (λ e. q (sym e))) refl,
)

-- Every text passes.
abbrev pub loopback-Delivers :
    (y : Yaml) (client_id : Text) → Delivers y (loopback y client_id) (λ w. w.servers) client_id
loopback-Delivers y client_id = record {
  Passes = λ w server_id t a. Unit {0};
  delivered = λ server_id t a w passes h p. exchange-loopback y client_id server_id t a w h p;
}
