-- ===== src/Tests/Servers.antt =====
-- The theorems on the server at a server with one block, and at runs of its threads.
use distributed_memory.Prelude.{
  ℕ, zero, suc, replicate, inl, inr, ◌≡◌, refl, false, ap, ℤ, pos, int_key, text_key, true, arith,
  none, some, [], ◌∷◌, ◌++◌, Text, codes, returns, undefined, if◌then◌else◌,
}
use distributed_memory.Prelude.Assoc.{find, put}
use distributed_memory.Yaml.{
  scalar, mapping, end, field, serialize, flow, stop, as_int, as_binary, find_value, field_at,
  as_text,
}
use distributed_memory.Yaml.Codec.{codec}
use distributed_memory.BlockServer
use distributed_memory.BlockServer.{BlockServer}
use distributed_memory.BlockServer.Print.{HasZero}
use distributed_memory.Config
use distributed_memory.Config.{Config}
use distributed_memory.Message.{
  ack, map, write, emit_block, emit, create, parse, type_text, maps_initializer, type_to_string,
  block_id_of, block_value, ◌>>?◌,
}
use distributed_memory.Message.Types.{type_of}
use distributed_memory.Message.RoundTrip.{
  received, zeros, emit_block-Carries, emit_shallow-Carries, emit-type_of,
}
use distributed_memory.Server
use distributed_memory.Server.{
  Server, Reaction, answer, answers, ack_text, nack_text, handle, handle_map, handle_write,
  handle_wait, check_wait,
}
use distributed_memory.Server.Invariant.{IsValid, create_lem}
use distributed_memory.Server.Requests.{handle-IsValid}
use distributed_memory.Server.Versions.{is_current, handle_write_lem}
use distributed_memory.Server.Answers.{handle-map}
use distributed_memory.Server.Failures.{
  is_request, handle_unnamed, handle_short_data, handle_unterminated,
}
use distributed_memory.Server.Replies.{IsReadable, wants_block, handle-IsReadable}
use distributed_memory.Tests.{
  stored, nines, nines-IsWhole, nines-IsTerminated, stored-IsValid, server_with, sevens,
  sevens-IsWhole, alice, bob, config, home, home_conf, block_at,
}

create_lem_example :
    (s : Server) × (Server.create config home ≡ returns s)
    × ((k : ℤ)
        → find k s.blocks
          ≡ (if Config.has_block home_conf.blocks_id k then some (BlockServer.create k) else none))
    × IsValid s
create_lem_example =
    create_lem config home home_conf (unfold Config.is_valid in refl)
      (unfold Config.find find in refl)

-- A write of nines at the revision that the server has.
abbrev pub nine_write : BlockServer
nine_write = block_at (pos 3) nines []

pub current : is_current (server_with stored) nine_write ≡ true
unfolding is_current find
current = refl

pub first_write :
    (reaction : Reaction) × (handle_write codec (server_with stored) nine_write ≡ returns reaction)
first_write =
    let (reaction, ran, _) =
      handle_write_lem codec nine_write stored-IsValid (nines-IsWhole (pos 3) [])
        (nines-IsTerminated (pos 3) []) in
    (reaction, ran)

-- A request of Bob's to map the block.
map_text : Text
map_text = emit_block codec map stored.block true ++ stop

abbrev mapped : Reaction
mapped = handle_map codec (server_with stored) bob (received stored.block zeros)

maps : handle codec (server_with stored) bob map_text ≡ returns mapped
unfolding map_text
maps = handle-map codec (server_with stored) bob (emit_shallow-Carries codec map stored.block)

handle-IsValid_example : IsValid mapped.server
handle-IsValid_example = handle-IsValid codec bob map_text stored-IsValid maps

-- The answer to Bob is the block with its bytes.
map_answer : Text
map_answer = emit_block codec ack stored.block false ++ stop

mapped-reply : mapped.reply ≡ answer map_answer
unfolding map_answer handle_map find BlockServer.map BlockServer.find_mapped_client
mapped-reply = refl

handle-IsReadable_example :
    IsReadable codec (wants_block (type_of (create codec map_text))) map_answer
handle-IsReadable_example =
    handle-IsReadable codec bob map_text map_answer stored-IsValid maps mapped-reply

-- A request without a block.
bare_map : Text
bare_map = emit codec map ++ stop

bare_map-type_of : type_of (create codec bare_map) ≡ map
unfolding bare_map
bare_map-type_of = emit-type_of codec map

bare_map-block : block_id_of codec (create codec bare_map) ≡ none
unfolding bare_map emit codec create parse type_to_string block_id_of find_value field_at
bare_map-block = refl

handle_unnamed_example : handle codec (server_with stored) bob bare_map ≡ undefined
unfolding is_request
handle_unnamed_example =
    handle_unnamed codec (server_with stored) bob bare_map (ap is_request bare_map-type_of)
      bare_map-block

-- A write of two bytes.
short_write : Text
short_write =
    codec.dump (
      flow
      ∷ serialize
          (mapping (
            field (codes "type") (scalar (codes "WRITE")) (
              field (codes "block")
                (mapping (
                  field (codes "id") (scalar (codec.write_int (pos 1))) (
                    field (codes "revision") (scalar (codec.write_int (pos 3)))
                      (field (codes "data") (scalar (codec.write_binary (1 ∷ 2 ∷ []))) end))))
                end)))
          [])
    ++ stop

short_write-is_request : is_request (type_of (create codec short_write)) ≡ true
unfolding short_write codec create parse serialize type_of maps_initializer type_text find_value
    field_at as_text find is_request type_to_string put
short_write-is_request = refl

short_write-block : block_id_of codec (create codec short_write) ≡ some (pos 1)
unfolding short_write codec create parse serialize block_id_of find_value field_at as_int
short_write-block = refl

short_write-revision :
    block_value (create codec short_write) (codes "revision")
    ≡ some (scalar (codec.write_int (pos 3)))
unfolding short_write codec create parse serialize block_value find_value field_at
short_write-revision = refl

short_write-data :
    (block_value (create codec short_write) (codes "data") >>? as_binary codec) ≡ some (1 ∷ 2 ∷ [])
unfolding short_write codec create parse serialize block_value find_value field_at as_binary
short_write-data = refl

handle_short_data_example : handle codec (server_with stored) bob short_write ≡ undefined
unfolding as_int codec
handle_short_data_example =
    handle_short_data codec (server_with stored) bob short_write (pos 1) (pos 3)
      (scalar (codec.write_int (pos 3))) (1 ∷ 2 ∷ []) short_write-is_request short_write-block
      short_write-revision (codec.read_int-write_int (pos 3)) short_write-data (omega arith)

-- A write of sevens only.
abbrev seven_write : BlockServer
seven_write = block_at (pos 3) sevens []

abbrev seven_text : Text
seven_text = emit_block codec write seven_write.block false ++ stop

sevens-unterminated : (n : ℕ) → ¬ HasZero (replicate n 7)
sevens-unterminated zero h = h
sevens-unterminated (suc n) (inl e) = absurd (omega (arith, e))
sevens-unterminated (suc n) (inr h) = sevens-unterminated n h

held : find (pos 1) (server_with stored).blocks ≡ some stored
unfolding find
held = refl

handle_unterminated_example : handle codec (server_with stored) alice seven_text ≡ undefined
handle_unterminated_example =
    handle_unterminated codec (server_with stored) alice
      (emit_block-Carries codec write seven_write.block sevens refl
        (sevens-IsWhole (pos 3) []).sized)
      held refl (sevens-unterminated 128)
