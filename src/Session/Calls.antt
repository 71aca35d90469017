-- ===== src/Session/Calls.antt =====
-- The common course of the calls of src/client.cpp: the tests at their beginning, and the request.
use distributed_memory.Prelude.{
  ◌≡◌, refl, ap, ◌∙◌, ℤ, true, false, some, Text, text_key, int_key, returns,
}
use distributed_memory.Prelude.Assoc.{find}
use distributed_memory.Yaml.{Yaml}
use distributed_memory.BlockServer.{BlockServer}
use distributed_memory.BlockLocal.{BlockLocal}
use distributed_memory.Config.{find_server_id_by_block_id}
use distributed_memory.Message
use distributed_memory.Message.{Message, MessageType, ack, nack}
use distributed_memory.Message.Types.{type_of}
use distributed_memory.Message.RoundTrip.{Carries}
use distributed_memory.Network.{Network, exchange}
use distributed_memory.Socket.{Socket, is_valid}
use distributed_memory.Server.{Server}
use distributed_memory.Client.{
  State, Result, rejected, is_empty, with_world, on_socket, on_owned, on_mapped, ask, answered,
}
use distributed_memory.Session.{Ready}

module _ (y : Yaml) {W : Type 0} (n : Network W) where
  pub on_socket_live :
      (s : State W) (server_id : Text) (socket : Socket) (rest : Result W)
      → find server_id s.client.sockets ≡ some socket
      → is_valid socket ≡ true
      → on_socket y n s server_id rest ≡ rest
  unfolding on_socket
  on_socket_live s server_id socket rest p q = rw (p, on_socket) (rw q refl)

  on_mapped_held :
      (s : State W) (id : ℤ) (rest : Text → BlockLocal → Result W) (server_id : Text)
      (block : BlockLocal)
      → find_server_id_by_block_id s.client.config id ≡ server_id
      → is_empty server_id ≡ false
      → find id s.client.blocks ≡ some block
      → on_mapped y n s id rest ≡ on_socket y n s server_id (rest server_id block)
  unfolding on_mapped on_owned
  on_mapped_held s id rest server_id block p q h =
      ap (on_owned y n s id rest) p ∙ rw (q, on_owned) (rw h refl)

  pub on_mapped_ready :
      {servers : W → Text → Server} (s : State W) (id : ℤ) (rest : Text → BlockLocal → Result W)
      (r : Ready servers s id)
      → on_mapped y n s id rest ≡ rest r.server_id r.block
  on_mapped_ready s id rest r =
      on_mapped_held s id rest r.server_id r.block r.owner r.named r.held
      ∙ on_socket_live s r.server_id r.socket _ r.connected r.live

  pub ask_nacked :
      (s nacked : State W) (server_id request t : Text) (w : W)
      (rest : Message → State W → Result W)
      → exchange n server_id request s.world ≡ returns (some t, w)
      → type_of (Message.create y t) ≡ nack
      → ask y n s server_id request nacked rest ≡ returns (rejected, with_world nacked w)
  unfolding ask
  ask_nacked s nacked server_id request t w rest e h = rw (e, ask) (rw h refl)

  pub ask_acked :
      (s nacked : State W) (server_id request t : Text) (w : W)
      (rest : Message → State W → Result W)
      → exchange n server_id request s.world ≡ returns (some t, w)
      → type_of (Message.create y t) ≡ ack
      → ask y n s server_id request nacked rest ≡ rest (Message.create y t) (with_world s w)
  unfolding ask
  ask_acked s nacked server_id request t w rest e h = rw (e, ask) (rw h refl)

  pub answered-Carries :
      {t : Text} {ty : MessageType} {b : BlockServer}
      → Carries y t ty b
      → answered y n (Message.create y t) ≡ returns b
  unfolding answered
  answered-Carries c = rw (c.carried, answered)
