-- ===== src/Tests/Blocks.antt =====
-- The theorems on blocks, messages and configurations at concrete blocks, texts and servers.
use distributed_memory.Prelude.{
  ℕ, ◌≡◌, refl, pos, int_key, text_key, true, false, some, [], ◌∷◌, ◌++◌, ◌⊎◌, ◌↔◌, ◌≤◌, zero, suc,
  arith, replicate, undefined,
}
use distributed_memory.Yaml.{stop, flow, serialize, sequence}
use distributed_memory.Yaml.Codec.{codec}
use distributed_memory.Block.{set_data}
use distributed_memory.Block.Dump.{AllBytes}
use distributed_memory.Block.Areas.{set_data_short}
use distributed_memory.Config.{find_server_id_by_block_id}
use distributed_memory.Config
use distributed_memory.Config.Documents.{create-server_nodes, server_nodes, added}
use distributed_memory.Config.Owners.{find_server_id_by_block_id_lem, NoneHas, LastOwner}
use distributed_memory.Message.{
  Message, map, ack, type, type_text, type_to_string, create, emit_block,
}
use distributed_memory.Message.Types.{type_lem, types_after}
use distributed_memory.Message.RoundTrip.{Carries, received, emit_block-Carries}
use distributed_memory.Tests.{home_conf, stored, sevens, sevens-IsWhole, alice, config}

replicate-AllBytes : (b n : ℕ) → b ≤ 255 → AllBytes (replicate n b)
replicate-AllBytes b zero h = tt
replicate-AllBytes b (suc n) h = (h, replicate-AllBytes b n h)

set_data_short_example : set_data stored.block (1 ∷ 2 ∷ []) ≡ undefined
set_data_short_example = set_data_short stored.block (1 ∷ 2 ∷ []) (omega arith)

find_server_id_by_block_id_lem_example :
    ((find_server_id_by_block_id config (pos 1) ≡ []) × NoneHas (pos 1) config.servers)
    ⊎ LastOwner (pos 1) config.servers (find_server_id_by_block_id config (pos 1))
find_server_id_by_block_id_lem_example = find_server_id_by_block_id_lem config (pos 1)

emit_block-Carries_example :
    Carries codec
      (emit_block codec ack stored.block false ++ stop)
      ack
      (received stored.block sevens)
emit_block-Carries_example =
    emit_block-Carries codec ack stored.block sevens refl
      (sevens-IsWhole (pos 3) (alice ∷ [])).sized

map_request : Message
map_request = create codec (emit_block codec map stored.block true ++ stop)

type_lem_example :
    ((type map_request (types_after [])).0 ≡ map)
    ↔ (type_text map_request ≡ some (type_to_string map))
type_lem_example = type_lem [] map_request map (λ e. cc)

create-server_nodes_example :
    Config.create codec
      (codec.dump (flow ∷ serialize (sequence (server_nodes codec (home_conf ∷ []))) []) ++ stop)
    ≡ record { servers = added (home_conf ∷ []) [] }
create-server_nodes_example = create-server_nodes codec (home_conf ∷ [])
