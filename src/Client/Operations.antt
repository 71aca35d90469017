-- ===== src/Client/Operations.antt =====
-- The operations of src/client.cpp on blocks.
use distributed_memory.Prelude.{
  ℕ, ℤ, int_key, true, false, Option, none, some, ◌++◌, Text, text_key, ◌==◌, returns, ◌>>=◌,
  if◌then◌else◌,
}
use distributed_memory.Prelude.Assoc.{find, insert, erase}
use distributed_memory.Yaml.{Yaml, stop}
use distributed_memory.Network.{Network}
use distributed_memory.BlockServer.{BlockServer}
use distributed_memory.BlockLocal
use distributed_memory.BlockLocal.{BlockLocal, as_block}
use distributed_memory.Config.{find_server_id_by_block_id}
use distributed_memory.Message.{map, unmap, update, write, wait, emit_block}
use distributed_memory.Client.{
  State, Result, done, bad_id, bad_mapping, rejected, is_empty, with_block, on_socket, on_mapped,
  ask, answered,
}

module _ (y : Yaml) {W : Type 0} (n : Network W) where
  -- What `dm_block_map` does with the block of the answer.
  unfoldable pub fill : ℤ → BlockLocal → BlockServer → State W → Result W
  fill id block source t = BlockLocal.assign t.memory block source.block >>= λ r.
      returns (done, with_block (record t { memory = r.1 }) id r.0)

  -- `dm_block_map` for a block that is not mapped, from the test of the socket on. The block stays
  -- in `blocks` also where the request fails.
  unfoldable pub map_new : ℤ → BlockLocal → State W → Text → Result W
  unfolding on_socket ask answered fill
  map_new id block s server_id =
      let s' = record s { client = record s.client { blocks = insert id block s.client.blocks } } in
      on_socket y n s server_id (
        ask y n s' server_id (emit_block y map (as_block s.memory block) true ++ stop) s'
          (λ ack t. answered y n ack >>= λ source. fill id block source t))

  -- The tests on a block that is to be mapped, whose server is known.
  unfoldable pub map_owned : ℤ → Option ℕ → State W → Text → Result W
  unfolding map_new
  map_owned id address s server_id =
      if is_empty server_id then returns (bad_id, s) else elim (find id s.client.blocks) [
        | some _ ↦ returns (bad_mapping, s)
        | none ↦ map_new id (BlockLocal.create id address) s server_id
      ]

  -- Client::dm_block_map
  unfoldable pub dm_block_map : ℤ → Option ℕ → State W → Result W
  unfolding map_owned
  dm_block_map id address s = map_owned id address s (find_server_id_by_block_id s.client.config id)

  -- The rest of each call, for a block that is mapped and whose socket is valid.
  unfoldable pub unmap_mapped : State W → ℤ → Text → BlockLocal → Result W
  unfolding ask
  unmap_mapped s id server_id block =
      ask y n s server_id (emit_block y unmap (as_block s.memory block) true ++ stop) s (λ ack t.
        returns (done, record t { client = record t.client { blocks = erase id t.client.blocks } }))

  -- What `dm_block_update` does with the block of the answer.
  unfoldable pub refresh : ℤ → BlockLocal → BlockServer → State W → Result W
  refresh id block source t =
      if block.revision == source.revision
      then returns (done, t)
      else (BlockLocal.assign t.memory block source.block >>= λ r.
          returns (done, with_block (record t { memory = r.1 }) id (BlockLocal.set_valid r.0 true)))

  unfoldable pub update_mapped : State W → ℤ → Text → BlockLocal → Result W
  unfolding ask answered refresh
  update_mapped s id server_id block =
      ask y n s server_id (emit_block y update (as_block s.memory block) true ++ stop) s
        (λ ack t. answered y n ack >>= λ source. refresh id block source t)

  unfoldable pub write_mapped : State W → ℤ → Text → BlockLocal → Result W
  unfolding ask
  write_mapped s id server_id block =
      if block.valid
      then ask y n s server_id (emit_block y write (as_block s.memory block) false ++ stop)
          (with_block s id (BlockLocal.set_valid block false))
          (λ ack t. returns (done, with_block t id (BlockLocal.add_revision block)))
      else returns (rejected, s)

  unfoldable pub wait_mapped : State W → ℤ → Text → BlockLocal → Result W
  unfolding ask
  wait_mapped s id server_id block =
      if block.valid
      then ask y n s server_id (emit_block y wait (as_block s.memory block) true ++ stop) s
          (λ ack t. returns (done, with_block t id (BlockLocal.set_valid block false)))
      else returns (done, s)

  -- Client::dm_block_unmap
  unfoldable pub dm_block_unmap : ℤ → State W → Result W
  unfolding on_mapped unmap_mapped
  dm_block_unmap id s = on_mapped y n s id (unmap_mapped s id)

  -- Client::dm_block_update
  unfoldable pub dm_block_update : ℤ → State W → Result W
  unfolding on_mapped update_mapped
  dm_block_update id s = on_mapped y n s id (update_mapped s id)

  -- Client::dm_block_write
  unfoldable pub dm_block_write : ℤ → State W → Result W
  unfolding on_mapped write_mapped
  dm_block_write id s = on_mapped y n s id (write_mapped s id)

  -- Client::dm_block_wait
  unfoldable pub dm_block_wait : ℤ → State W → Result W
  unfolding on_mapped wait_mapped
  dm_block_wait id s = on_mapped y n s id (wait_mapped s id)
