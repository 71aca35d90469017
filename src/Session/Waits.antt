-- ===== src/Session/Waits.antt =====
-- `dm_block_wait` of src/client.cpp against a server of src/server.cpp whose other threads run meanwhile.
use distributed_memory.Prelude.{
  ℕ, arith, ◌+◌, ◌≤◌, ◌≡◌, ◌≢◌, refl, ap, ◌∙◌, ◌⊎◌, inl, inr, ℤ, pos, int_key, int_max, true, false,
  Option, none, some, List, [], ◌∷◌, Text, ◌++◌, returns, throws, nat_beq_iff,
}
use distributed_memory.Yaml.{Yaml, stop}
use distributed_memory.BlockLocal
use distributed_memory.BlockLocal.{as_block}
use distributed_memory.Message.{Message, wait, ack, emit_block}
use distributed_memory.Message.RoundTrip.{emit_shallow-Carries, emit-type_of}
use distributed_memory.Network.{Network, exchange, sent, received as received_text}
use distributed_memory.Server.{Server, ack_text, handle, handle_wait, check_wait}
use distributed_memory.Server.Invariant.{IsValid}
use distributed_memory.Server.Versions.{view}
use distributed_memory.Server.Answers.{handle-wait, check_wait-view}
use distributed_memory.Server.Threads.{
  Thread, absent, reading, replying, asleep, woken, finished, System, with_thread, after, reacted,
  Reach, request,
}
use distributed_memory.Server.Threads.Waits.{Inv, Step-Inv, Reach-Inv}
use distributed_memory.Server.Threads.Pending.{IsPast, Pending, wake_all-Pending}
use distributed_memory.Server.Threads.Signals.{IsAt}
use distributed_memory.Server.Threads.History.{Steps-Inv}
use distributed_memory.Server.Threads.Meanwhile.{
  Meanwhile, Meanwhile-Steps, recheck-Pending, Meanwhile-Pending,
}
use distributed_memory.Client.{State, Result, done, timed_out, with_block, with_world, ask}
use distributed_memory.Client.Operations.{wait_mapped, dm_block_wait}
use distributed_memory.Session.{Ready}
use distributed_memory.Session.Calls.{on_mapped_ready, ask_acked}
use distributed_memory.Session.Threaded.{fetch, deliver, threaded}

module _ (y : Yaml) {W : Type 0} (n : Network W) {servers : W → Text → Server} (s : State W)
    (id : ℤ) (r : Ready servers s id) where
  abbrev pub wait_text : Text
  wait_text = emit_block y wait (as_block s.memory r.block) true ++ stop

  pub wait_asked :
      r.block.valid ≡ true
      → dm_block_wait y n id s
        ≡ ask y n s r.server_id wait_text s
            (λ a t. returns (done, with_block t id (BlockLocal.set_valid r.block false)))
  unfolding dm_block_wait
  wait_asked h = on_mapped_ready y n s id (wait_mapped y n s id) r ∙ rw (h, wait_mapped) refl

  pub ask_unanswered :
      (w : W) (rest : Message → State W → Result W)
      → exchange n r.server_id wait_text s.world ≡ returns (none, w)
      → ask y n s r.server_id wait_text s rest ≡ returns (timed_out, with_world s w)
  unfolding ask
  ask_unanswered w rest e = rw (e, ask) refl

abbrev pub one_server : System → Text → Server
one_server w server_id = w.server

module _ (y : Yaml) (client_id : ℕ → Text) (i : ℕ) (meanwhile : System → System) {start : Server}
    (s : State System) (id : ℤ) (r : Ready one_server s id) (valid : IsValid start)
    (reach : Reach y client_id start s.world) where
  abbrev server : Server
  server = s.world.server

  -- The threads when the thread of the connection has run the request.
  abbrev pub begun : System
  begun = reacted s.world i (check_wait y server id r.block.revision)

  abbrev text : Text
  text = wait_text y (threaded y client_id i meanwhile) s id r

  handled : handle y server (client_id i) text ≡ returns (check_wait y server id r.block.revision)
  unfolding as_block
  handled =
      handle-wait y server (client_id i) (emit_shallow-Carries y wait (as_block s.memory r.block))
      ∙ (unfold handle_wait in ap (λ k. returns (check_wait y server k r.block.revision)) r.keyed)

  begun-Inv : s.world.threads i ≡ reading → Inv begun
  begun-Inv reads =
      Step-Inv y client_id (request i text reads (stopped _) handled)
        (Reach-Inv y client_id valid reach)
    where
      stopped : (t : Text) → (t ++ stop) ≢ []
      stopped [] e = cc
      stopped (b ∷ t) e = cc

  exchanged :
      exchange (threaded y client_id i meanwhile) r.server_id text s.world
      ≡ received_text
          (threaded y client_id i meanwhile)
          (fetch (meanwhile begun) i ((meanwhile begun).threads i))
  unfolding exchange sent threaded
  exchanged =
      ap (λ o. sent (threaded y client_id i meanwhile) r.server_id (deliver s.world i o)) handled

  -- How a wait ends that leaves the threads at `w`.
  abbrev pub Ends : ℕ → System → Type 0
  Ends n w =
      ((dm_block_wait y (threaded y client_id i meanwhile) id s
          ≡ returns (done, with_block (with_world s w) id (BlockLocal.set_valid r.block false)))
        × IsPast n (view w.server id))
      ⊎ ((dm_block_wait y (threaded y client_id i meanwhile) id s
            ≡ returns (timed_out, with_world s w))
          × (((w.threads i ≡ asleep id (pos n)) × IsAt w.server id (pos n))
              ⊎ (w.threads i ≡ woken id (pos n))))

  fetched :
      (t : Thread)
      → (meanwhile begun).threads i ≡ t
      → exchange (threaded y client_id i meanwhile) r.server_id text s.world
        ≡ received_text (threaded y client_id i meanwhile) (fetch (meanwhile begun) i t)
  fetched t e =
      exchanged
      ∙ ap (λ t'. received_text (threaded y client_id i meanwhile) (fetch (meanwhile begun) i t')) e

  -- No answer has come.
  late :
      (t : Thread)
      → r.block.valid ≡ true
      → (meanwhile begun).threads i ≡ t
      → fetch (meanwhile begun) i t ≡ (throws, meanwhile begun)
      → dm_block_wait y (threaded y client_id i meanwhile) id s
        ≡ returns (timed_out, with_world s (meanwhile begun))
  late t usable e f =
      wait_asked y _ s id r usable
      ∙ ask_unanswered y _ s id r (meanwhile begun) _ (
          fetched t e
          ∙ ap (received_text (threaded y client_id i meanwhile)) f
          ∙ (unfold received_text in refl))

  -- The threads when the client has its answer.
  abbrev answered_system : System
  answered_system = record (meanwhile begun) {
    threads = with_thread (meanwhile begun).threads i reading;
  }

  acknowledged :
      (t : Text)
      → r.block.valid ≡ true
      → (meanwhile begun).threads i ≡ replying t
      → t ≡ ack_text y
      → dm_block_wait y (threaded y client_id i meanwhile) id s
        ≡ returns (
          done,
          with_block (with_world s answered_system) id (BlockLocal.set_valid r.block false),
        )
  acknowledged t usable e told =
      wait_asked y _ s id r usable
      ∙ ask_acked y _ s s r.server_id text (ack_text y) answered_system _
          (fetched (replying t) e ∙ got ∙ ap (λ t'. returns (some t', answered_system)) told)
          (emit-type_of y ack)
    where
      got :
          received_text (threaded y client_id i meanwhile) (fetch (meanwhile begun) i (replying t))
          ≡ returns (some t, answered_system)
      got = unfold received_text in refl

  ends :
      (n : ℕ) (t : Thread)
      → r.block.valid ≡ true
      → (meanwhile begun).threads i ≡ t
      → Pending y id n (view (meanwhile begun).server id) t
      → Inv (meanwhile begun)
      → (w : System) × Ends n w
  ends n absent usable e h inv = absurd h
  ends n reading usable e h inv = absurd h
  ends n finished usable e h inv = absurd h
  ends n (asleep k revision) usable e h inv =
      let here : (meanwhile begun).threads i ≡ asleep id (pos n) = rw (h.0, h.1) at e in
      (meanwhile begun, inr (late _ usable e refl, inl (here, inv.waits i id (pos n) here)))
  ends n (woken k revision) usable e h inv =
      (meanwhile begun, inr (late _ usable e refl, inr (rw (h.0, h.1) at e)))
  ends n (replying t) usable e h inv = (answered_system, inl (acknowledged t usable e h.0, h.1))

  -- A wait for a block at the server's revision, while other threads of the server run in any order. It
  -- returns 0, and the local block is invalid, only once the server has a greater revision of the block;
  -- otherwise the time is out and it returns -4: then the thread of the connection still sleeps, and the
  -- server still has the block at the old revision, or it was woken and has not had the mutex since.
  -- This holds while the revision cannot have reached INT_MAX.
  pub dm_block_wait_lem :
      {m : ℕ} (n : ℕ) (bytes : Option (List ℕ))
      → s.world.threads i ≡ reading
      → r.block.valid ≡ true
      → r.block.revision ≡ pos n
      → view server id ≡ some (pos n, bytes)
      → Meanwhile y client_id i begun m (meanwhile begun)
      → n + m ≤ int_max
      → (w : System) × Ends n w
  dm_block_wait_lem n bytes reads usable at now others room =
      ends n ((meanwhile begun).threads i) usable refl
        (Meanwhile-Pending y client_id i id n bytes others (begun-Inv reads) begun-view room
          begun-Pending)
        (Steps-Inv y client_id (Meanwhile-Steps y client_id others) (begun-Inv reads))
    where
      begun-view : view begun.server id ≡ some (pos n, bytes)
      begun-view = check_wait-view y server id r.block.revision id ∙ now

      begun-Pending : Pending y id n (view begun.server id) (begun.threads i)
      begun-Pending =
          wake_all-Pending y id n _ (check_wait y server id r.block.revision).broadcast
            (with_thread s.world.threads i (after (check_wait y server id r.block.revision).reply))
            i
            (rw ((nat_beq_iff i i).1 refl) (
              rw at (
                recheck-Pending y client_id s.world (client_id i) i id n n bytes now
                  (omega arith))))
