-- ===== src/Network.antt =====
-- The connections of a client, as src/client.cpp uses SocketClient: opening one, sending a text and
-- receiving one. What the other end and the network do is the state `W`, of which the program sees
-- what these operations return.
use distributed_memory.Prelude.{Option, none, some, Text, Outcome, returns, throws, undefined}
use distributed_memory.Config.{ServerConf}
use distributed_memory.Socket.{Socket}

pub record Network (W : Type 0) : Type 0 where
  -- `new SocketClient(...)`, which throws if the connection fails
  pub connect : ServerConf → W → Outcome Socket × W
  -- `sock << req` on the connection to a server, and `sock >> req`
  pub send : Text → Text → W → Outcome (Unit {0}) × W
  pub receive : Text → W → Outcome Text × W

module _ {W : Type 0} (n : Network W) where
  unfoldable pub received : Outcome Text × W → Outcome (Option Text × W)
  received (returns t, w) = returns (some t, w)
  received (throws, w) = returns (none, w)
  received (undefined, w) = undefined

  unfoldable pub sent : Text → Outcome (Unit {0}) × W → Outcome (Option Text × W)
  unfolding received
  sent server_id (returns u, w) = received (n.receive server_id w)
  sent server_id (throws, w) = returns (none, w)
  sent server_id (undefined, w) = undefined

  -- `try { sock << req; sock >> req; }`: the answer, or `none` where the handler catches.
  unfoldable pub exchange : Text → Text → W → Outcome (Option Text × W)
  unfolding sent
  exchange server_id request w = sent server_id (n.send server_id request w)
