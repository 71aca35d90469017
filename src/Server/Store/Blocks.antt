-- ===== src/Server/Store/Blocks.antt =====
-- `UPDATE`, `WRITE` and `WAIT` of src/server.cpp do what the store promises.
use distributed_memory.Prelude.{
  ◌≡◌, refl, ap, ℤ, int_key, text_key, ltb_ℤ, Bool, true, false, some, Text, ◌==◌, ==_iff, ◌++◌,
  Bool-cases, Option-cases, inl, inr, arith, if◌then◌else◌, Ensures, Ensures-after,
}
use distributed_memory.Prelude.Assoc.{find, find-put}
use distributed_memory.Yaml.{Yaml, stop}
use distributed_memory.Block.{IsWhole, add_revision}
use distributed_memory.BlockServer.{BlockServer}
use distributed_memory.BlockServer.Clients.{is_mapped}
use distributed_memory.Message.{update, write, wait, ack, emit_block}
use distributed_memory.Server.{
  Server, answer, with_block, with_condition, handle_update, logged_data, handle_write, check_wait,
}
use distributed_memory.Server.Invariant.{IsValid}
use distributed_memory.Server.Requests.{written_lem}
use distributed_memory.Server.Versions.{view, version, view-with_block}
use distributed_memory.Server.Store.{
  Verdict, store, Store-ext, maps_block, said, promised, block_of,
}
use distributed_memory.Server.Store.Follows.{Follows, view-found, view-missing, block-block_of}

module _ (y : Yaml) where
  pub handle_update-Follows :
      (s : Server) (client : Text) (r : BlockServer)
      → IsValid s
      → Follows y s client update r (handle_update y s r)
  unfolding handle_update
  handle_update-Follows s client r v = elim (Option-cases (find r.id s.blocks)) [
    | inl e ↦ record {
      kept = rw (e, handle_update, view-missing s r.id e, promised) refl;
      told = rw (e, handle_update, view-missing s r.id e, promised) refl;
    }
    | inr (b, e) ↦ record {
      kept = rw (e, handle_update, view-found s r.id b e, promised) refl;
      told =
          rw (e, handle_update, view-found s r.id b e, promised)
            (by_test b (block-block_of r.id b (v.good r.id b e)) (ltb_ℤ r.revision b.revision));
    }
  ]
    where
      by_test :
          (b : BlockServer)
          → b.block ≡ block_of r.id (version b)
          → (newer : Bool)
          → answer (
              if newer
              then emit_block y ack b.block false ++ stop
              else emit_block y ack b.block true ++ stop)
            ≡ said y
                (if newer then Verdict.full r.id (version b) else Verdict.shallow r.id (version b))
      by_test b same true = ap (λ b'. answer (emit_block y ack b' false ++ stop)) same
      by_test b same false = ap (λ b'. answer (emit_block y ack b' true ++ stop)) same

  pub handle_write-Follows :
      (s : Server) (client : Text) (r : BlockServer)
      → IsValid s
      → IsWhole r.block
      → Ensures (Follows y s client write r) (handle_write y s r)
  unfolding handle_write
  handle_write-Follows s client r v w = elim (Option-cases (find r.id s.blocks)) [
    | inl e ↦
        rw (e, handle_write)
          (record {
            kept = rw (view-missing s r.id e, promised) (conditioned s);
            told = rw (view-missing s r.id e, promised) refl;
          })
    | inr (b, e) ↦
        rw (e, handle_write)
          (Ensures-after (Follows y s client write r) (logged_data y r) _ (λ shown.
            elim (Bool-cases (b.revision == r.revision)) [
              | inl same ↦
                  rw (same, written_lem y b r (v.good r.id b e).whole w)
                    (record {
                      kept =
                          rw (view-found s r.id b e, promised, same)
                            (Store-ext
                              (λ k.
                                unfold add_revision view in
                                view-with_block s r.id k (written_block b))
                              (λ c k. written-maps b c k e));
                      told = rw (view-found s r.id b e, promised, same) refl;
                    })
              | inr other ↦ rw other (record {
                kept = rw (view-found s r.id b e, promised, other) (conditioned s);
                told = rw (view-found s r.id b e, promised, other) refl;
              })
            ]))
  ]
    where
      written_block : BlockServer → BlockServer
      written_block b = record b { block = add_revision r.block }

      conditioned : (s' : Server) → store (with_condition s' r.id) ≡ store s'
      conditioned s' = unfold view maps_block in refl

      written-maps :
          (b : BlockServer) (c : Text) (k : ℤ)
          → find r.id s.blocks ≡ some b
          → maps_block (with_condition (with_block s r.id (written_block b)) r.id) c k
            ≡ maps_block s c k
      written-maps b c k e =
          unfold maps_block is_mapped in
          ground (arith, find-put r.id k (written_block b) s.blocks, e, ==_iff r.id k)

  pub check_wait-Follows :
      (s : Server) (client : Text) (r : BlockServer)
      → Follows y s client wait r (check_wait y s r.id r.revision)
  unfolding check_wait
  check_wait-Follows s client r = elim (Option-cases (find r.id s.blocks)) [
    | inl e ↦ record {
      kept = rw (e, check_wait, view-missing s r.id e, promised) refl;
      told = rw (e, check_wait, view-missing s r.id e, promised) refl;
    }
    | inr (b, e) ↦ elim (Bool-cases (b.revision == r.revision)) [
      | inl same ↦ record {
        kept =
            rw (e, check_wait, same, view-found s r.id b e, promised)
              (unfold view maps_block in refl);
        told = rw (e, check_wait, same) (rw (view-found s r.id b e, promised, same) refl);
      }
      | inr other ↦ record {
        kept = rw (e, check_wait, other, view-found s r.id b e, promised) refl;
        told = rw (e, check_wait, other) (rw (view-found s r.id b e, promised, other) refl);
      }
    ]
  ]
