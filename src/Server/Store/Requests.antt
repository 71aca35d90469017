-- ===== src/Server/Store/Requests.antt =====
-- Every message to src/server.cpp does what the store promises for a request.
use distributed_memory.Prelude.{
  ◌≡◌, refl, ◌∙◌, pos, Bool, true, false, Text, Outcome, returns, Ensures, Ensures-weaken,
  Ensures-itself, ensured, ◌>>=◌, Ensures-bind,
}
use distributed_memory.Yaml.{Yaml}
use distributed_memory.Block.{IsWhole}
use distributed_memory.BlockServer
use distributed_memory.BlockServer.{BlockServer}
use distributed_memory.BlockServer.Print.{IsTerminated}
use distributed_memory.Message
use distributed_memory.Message.{
  Message, MessageType, map, unmap, update, write, wait, ack, nack, undef,
}
use distributed_memory.Message.Types.{type_of}
use distributed_memory.Message.RoundTrip.{Carries}
use distributed_memory.Server.{
  Server, Reaction, answers, nack_text, requested, dispatch, handle, handle_wait,
}
use distributed_memory.Server.Invariant.{IsValid}
use distributed_memory.Server.Requests.{requested-IsWhole}
use distributed_memory.Server.Answers.{handle-Carries, requested-Carries}
use distributed_memory.Server.Versions.{handle_write_lem}
use distributed_memory.Server.Store.{store, promised, said}
use distributed_memory.Server.Store.Follows.{Follows}
use distributed_memory.Server.Store.Clients.{handle_map-Follows, handle_unmap-Follows}
use distributed_memory.Server.Store.Blocks.{
  handle_update-Follows, handle_write-Follows, check_wait-Follows,
}

-- The types of the messages that name a block.
unfoldable pub names_block : MessageType → Bool
names_block map = true
names_block unmap = true
names_block update = true
names_block write = true
names_block wait = true
names_block ack = false
names_block nack = false
names_block undef = false

module _ (y : Yaml) where
  -- A text is a message of a type, and carries a block if the type asks for one.
  pub record Asks (t : Text) (ty : MessageType) (r : BlockServer) : Type 0 where
    pub typed : type_of (Message.create y t) ≡ ty
    pub carried : names_block ty ≡ true → requested y (Message.create y t) ≡ returns r

  -- A reaction to a message, by the request that the message is.
  abbrev Answers : Server → Text → Text → MessageType → Reaction → Type 0
  Answers s client t ty a =
      (r : BlockServer) × (names_block ty ≡ true → requested y (Message.create y t) ≡ returns r)
      × Follows y s client ty r a

  asked-rule :
      (s : Server) (client t : Text) (ty : MessageType) (f : BlockServer → Outcome Reaction)
      → ((r : BlockServer) → IsWhole r.block → Ensures (Follows y s client ty r) (f r))
      → Ensures (Answers s client t ty) (requested y (Message.create y t) >>= f)
  asked-rule s client t ty f h =
      Ensures-bind (λ r. (requested y (Message.create y t) ≡ returns r) × IsWhole r.block)
        (Answers s client t ty) (requested y (Message.create y t)) f
        (Ensures-itself (λ r. IsWhole r.block) _ (requested-IsWhole y t))
        (λ r w. Ensures-weaken {Q = Answers s client t ty} _ (λ a g. (r, (λ p. w.0), g)) (h r w.1))

  unanswered :
      (s : Server) (client t : Text) (ty : MessageType)
      → names_block ty ≡ false
      → Follows y s client ty (BlockServer.create (pos 0)) (answers s (nack_text y))
      → Answers s client t ty (answers s (nack_text y))
  unanswered s client t ty n f = (BlockServer.create (pos 0), λ p. cc, f)

  -- What a type of message does with the block that the message carries.
  dispatch-Answers :
      (s : Server) (client t : Text) (ty : MessageType)
      → IsValid s
      → Ensures (Answers s client t ty) (dispatch y s client (Message.create y t) ty)
  unfolding dispatch handle_wait names_block
  dispatch-Answers s client t map v =
      asked-rule s client t map _ (λ r w. handle_map-Follows y s client r v)
  dispatch-Answers s client t unmap v =
      asked-rule s client t unmap _ (λ r w. handle_unmap-Follows y s client r v)
  dispatch-Answers s client t update v =
      asked-rule s client t update _ (λ r w. handle_update-Follows y s client r v)
  dispatch-Answers s client t write v =
      asked-rule s client t write _ (λ r w. handle_write-Follows y s client r v w)
  dispatch-Answers s client t wait v =
      asked-rule s client t wait _ (λ r w. check_wait-Follows y s client r)
  dispatch-Answers s client t ack v =
      unanswered s client t ack refl (record { kept = refl; told = refl })
  dispatch-Answers s client t nack v =
      unanswered s client t nack refl (record { kept = refl; told = refl })
  dispatch-Answers s client t undef v =
      unanswered s client t undef refl (record { kept = refl; told = refl })

  -- A message of whatever form, if it is handled, does what the store promises for the request that it
  -- is.
  pub handle-Follows :
      {s : Server} (client t : Text) {a : Reaction}
      → IsValid s
      → handle y s client t ≡ returns a
      → (ty : MessageType) × (r : BlockServer) × Asks t ty r × Follows y s client ty r a
  unfolding handle
  handle-Follows {s} client t {a} v e =
      let ty = type_of (Message.create y t) in
      let (r, carried, f) =
        ensured (Answers s client t ty) _ a e (dispatch-Answers s client t ty v) in
      (ty, r, record { typed = refl; carried = carried }, f)

  carried-Follows :
      (s : Server) (client t : Text) (ty : MessageType) (r : BlockServer)
      → IsValid s
      → IsWhole r.block
      → (ty ≡ write → IsTerminated r)
      → requested y (Message.create y t) ≡ returns r
      → (a : Reaction) × (dispatch y s client (Message.create y t) ty ≡ returns a)
        × Follows y s client ty r a
  unfolding dispatch handle_wait
  carried-Follows s client t map r v w z e = (_, rw e refl, handle_map-Follows y s client r v)
  carried-Follows s client t unmap r v w z e = (_, rw e refl, handle_unmap-Follows y s client r v)
  carried-Follows s client t update r v w z e = (_, rw e refl, handle_update-Follows y s client r v)
  carried-Follows s client t write r v w z e =
      let (a, ran, _) = handle_write_lem y r v w (z refl) in
      (
        a,
        rw e ran,
        ensured (Follows y s client write r) _ a ran (handle_write-Follows y s client r v w),
      )
  carried-Follows s client t wait r v w z e = (_, rw e refl, check_wait-Follows y s client r)
  carried-Follows s client t ack r v w z e = (_, refl, record { kept = refl; told = refl })
  carried-Follows s client t nack r v w z e = (_, refl, record { kept = refl; told = refl })
  carried-Follows s client t undef r v w z e = (_, refl, record { kept = refl; told = refl })

  -- A server implements the store. A message with a whole block, of any type, is handled, where the
  -- bytes of a write have a zero among them; the store of the server that it leaves, and what the sender
  -- is told, are those that the store promises.
  pub handle_refines :
      {t : Text} {ty : MessageType} {r : BlockServer} (s : Server) (client : Text)
      → IsValid s
      → Carries y t ty r
      → IsWhole r.block
      → (ty ≡ write → IsTerminated r)
      → (a : Reaction) × (handle y s client t ≡ returns a)
        × (store a.server ≡ (promised (store s) client ty r).0)
        × (a.reply ≡ said y (promised (store s) client ty r).1)
  handle_refines {t} {ty} {r} s client v c w z =
      let (a, ran, f) = carried-Follows s client t ty r v w z (requested-Carries y c) in
      (a, handle-Carries y s client c ∙ ran, f.kept, f.told)
