-- ===== src/Tests/Secured.antt =====
-- The theorems on encrypted connections at requests to a server, and a client that unmaps and
-- writes a block over one.
use distributed_memory.Prelude.{
  ◌<◌, ◌≡◌, ◌≢◌, refl, ◌∙◌, arith, ℤ, pos, add_one, int_key, text_key, true, none, some, [], ◌∷◌,
  ◌++◌, Text, length, length-append, returns, if◌then◌else◌, not, ◌&&◌, ◌==◌,
}
use mathlib.Core.List.{append-nil}
use distributed_memory.Prelude.Assoc.{find}
use distributed_memory.Yaml.{stop}
use distributed_memory.Yaml.Codec.{codec}
use distributed_memory.Secure.{cipher}
use distributed_memory.BlockServer
use distributed_memory.Server.{Reaction, answer, handle, handle_unmap, ack_text, nack_text}
use distributed_memory.Server.Answers.{handle-unmap}
use distributed_memory.Message.RoundTrip.{received, zeros, emit_shallow-Carries}
use distributed_memory.Network.{Network, exchange}
use distributed_memory.Message.{emit_data, unmap, ack, type_to_string, emit, emit_block}
use distributed_memory.Session.Loopback.{with_server}
use distributed_memory.Session.Secured.{Line, secured, secured-Delivers, exchange_in_order}
use distributed_memory.Session.Secured.Queues.{Fits, packets}
use distributed_memory.BlockLocal.{as_block}
use distributed_memory.BlockServer.{find_mapped_client}
use distributed_memory.Server.Store.{maps_block}
use distributed_memory.Server.Versions.{view}
use distributed_memory.Client.{State, done, with_block, with_world}
use distributed_memory.Client.Operations.{dm_block_unmap, dm_block_write}
use distributed_memory.Session.{Delivers, Ready}
use distributed_memory.Session.Unmaps
use distributed_memory.Session.Writes
use distributed_memory.Session.Writes.{OthersKeep, dm_block_write_current}
use distributed_memory.Memory.{read}
use distributed_memory.Block.{block_size}
use distributed_memory.BlockLocal
use distributed_memory.Server.Invariant.{IsValid}
use distributed_memory.Session.Unmaps.{dropped, dm_block_unmap_lem}
use distributed_memory.Tests.{
  home, nine_memory, nine_memory-HasZero, server_with, stored, stored-IsValid, alice, bob, local_at,
  client_with, ready,
}
use distributed_memory.Tests.Handshakes.{toy}
use distributed_memory.Tests.Sessions.{held, alice_mapped}

toy-Fits : (t : Text) → t ≢ [] → length t < 1000 → Fits toy (5 ∷ []) t
unfolding toy cipher
toy-Fits t some_text short = record {
  some_text = some_text;
  inverse = append-nil (t ++ []) ∙ append-nil t;
  some_bytes = omega arith;
  short = omega (arith, short, length-append t []);
}

-- A request of Bob's to unmap a block that he does not map, which is refused.
abbrev unmap_text : Text
unmap_text = emit_block codec unmap stored.block true ++ stop

abbrev refused : Reaction
refused = handle_unmap codec (server_with stored) bob (received stored.block zeros)

unmaps : handle codec (server_with stored) bob unmap_text ≡ returns refused
unmaps = handle-unmap codec (server_with stored) bob (emit_shallow-Carries codec unmap stored.block)

stopped_text : (t : Text) → (t ++ stop) ≢ []
stopped_text [] e = cc
stopped_text (b ∷ t) e = cc

unmap_text-short : length unmap_text < 1000
unfolding emit_block codec type_to_string
unmap_text-short = omega arith

nack_text-short : length (nack_text codec) < 1000
unfolding emit codec type_to_string
nack_text-short = omega arith

refused-reply : refused.reply ≡ answer (nack_text codec)
unfolding handle_unmap find emit BlockServer.unmap codec BlockServer.find_mapped_client
refused-reply = refl

-- Nothing is under way.
abbrev quiet : Line
quiet = record { servers = λ id. server_with stored; bytes = λ id. [] }

-- The answer A to an earlier request is under way.
abbrev late : Line
late = record {
  servers = λ id. server_with stored;
  bytes = λ id. packets toy (5 ∷ []) ((65 ∷ []) ∷ []);
}

exchange_in_order_example :
    (l : Line) × (exchange (secured codec bob toy (5 ∷ [])) home unmap_text late
      ≡ returns (some (65 ∷ []), l))
    × (l.servers ≡ with_server late.servers home refused.server)
    × (l.bytes home ≡ packets toy (5 ∷ []) (nack_text codec ∷ []))
    × ((other : Text) → other ≢ home → l.bytes other ≡ late.bytes other)
exchange_in_order_example =
    exchange_in_order codec bob toy (5 ∷ []) late home unmap_text (nack_text codec) refused
      ((65 ∷ []) ∷ []) refl
      (toy-Fits unmap_text (stopped_text (emit_block codec unmap stored.block true))
        unmap_text-short)
      (toy-Fits (65 ∷ []) (λ e. cc) (omega arith)) unmaps refused-reply

-- Alice, who maps block 1, at her encrypted connection.
abbrev alices : Network Line
alices = secured codec alice toy (5 ∷ [])

abbrev alices-Delivers : Delivers codec alices (λ l. l.servers) alice
alices-Delivers = secured-Delivers codec alice toy (5 ∷ [])

abbrev alice_mapping : State Line
alice_mapping = client_with ((pos 1, local_at (pos 3)) ∷ []) quiet

abbrev alice_ready : Ready (λ l. l.servers) alice_mapping (pos 1)
alice_ready = ready (pos 3) quiet stored-IsValid

alices_unmap-short :
    length (Unmaps.unmap_text codec alices alices-Delivers alice_mapping (pos 1) alice_ready) < 1000
unfolding emit_block codec type_to_string as_block
alices_unmap-short = omega arith

ack_text-short : length (ack_text codec) < 1000
unfolding emit codec type_to_string
ack_text-short = omega arith

abbrev alice_dropped : Line → State Line
alice_dropped l =
    dropped codec alices alices-Delivers alice_mapping (pos 1) alice_ready stored held l

dm_block_unmap_lem_example :
    (l : Line) × (dm_block_unmap codec alices (pos 1) alice_mapping
      ≡ returns (done, alice_dropped l))
    × ((k : ℤ)
        → find k (alice_dropped l).client.blocks
          ≡ (if pos 1 == k then none else find k alice_mapping.client.blocks))
    × ((c : Text) (k : ℤ)
        → maps_block (l.servers home) c k
          ≡ (not (pos 1 == k && alice == c) && maps_block (server_with stored) c k))
    × ((k : ℤ) → view (l.servers home) k ≡ view (server_with stored) k)
dm_block_unmap_lem_example =
    dm_block_unmap_lem codec alices alices-Delivers alice_mapping (pos 1) alice_ready stored held
      alice_mapped
      (
        refl,
        toy-Fits _ (stopped_text _) alices_unmap-short,
        toy-Fits _ (stopped_text (emit codec ack)) ack_text-short,
      )

alices_write-short :
    length (Writes.write_text codec alices alices-Delivers alice_mapping (pos 1) alice_ready) < 1000
unfolding emit_block codec type_to_string as_block emit_data read
alices_write-short = omega arith

dm_block_write_current_example :
    (l : Line) × (dm_block_write codec alices (pos 1) alice_mapping
      ≡ returns (
        done,
        with_block
            (with_world alice_mapping l)
            (pos 1)
            (BlockLocal.add_revision (local_at (pos 3))),
      ))
    × ((k : ℤ)
        → view (l.servers home) k ≡ (
            if pos 1 == k
            then some (add_one (pos 3), some (read nine_memory 0 block_size))
            else view (server_with stored) k))
    × OthersKeep (λ l'. l'.servers) home quiet l
    × IsValid (l.servers home)
dm_block_write_current_example =
    dm_block_write_current codec alices alices-Delivers alice_mapping (pos 1) alice_ready stored
      held refl refl nine_memory-HasZero
      (
        refl,
        toy-Fits _ (stopped_text _) alices_write-short,
        toy-Fits _ (stopped_text (emit codec ack)) ack_text-short,
      )
