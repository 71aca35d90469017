-- ===== src/Server/Requests.antt =====
-- Every request keeps the invariant of the blocks of src/server.cpp.
use distributed_memory.Prelude.{
  ◌≡◌, refl, sym, subst, ℤ, int_key, Option, none, some, Text, ◌==◌, Bool-cases, Option-cases, inl,
  inr, Outcome, returns, ◌>>=◌, Ensures, Ensures-bind, Ensures-after, ensured, arith, [], ◌∷◌,
}
use distributed_memory.Prelude.Assoc.{find}
use distributed_memory.Yaml.{Yaml}
use distributed_memory.Block.{Block, IsWhole, add_revision}
use distributed_memory.BlockServer
use distributed_memory.BlockServer.{BlockServer}
use distributed_memory.BlockServer.Clients.{map-Distinct, unmap-Distinct, map_lem, unmap_lem}
use distributed_memory.BlockServer.Copies.{assign_lem}
use distributed_memory.Message
use distributed_memory.Message.{
  Message, MessageType, map, unmap, update, write, wait, ack, nack, undef,
}
use distributed_memory.Message.Areas.{RefersWhole, block-IsWhole}
use distributed_memory.Message.Types.{type_of}
use distributed_memory.Server.{
  Server, Reaction, deref, with_condition, requested, handle_map, handle_unmap, handle_update,
  logged_data, written, handle_write, check_wait, handle_wait, dispatch, handle,
}
use distributed_memory.Server.Invariant.{GoodBlock, IsValid, with_block-IsValid}

map-GoodBlock :
    (k : ℤ) (c : Text) (b : BlockServer) → GoodBlock k b → GoodBlock k (BlockServer.map c b).1
map-GoodBlock k c b g = record {
  keyed = subst (λ x. Block.id x ≡ k) (sym same) g.keyed;
  whole = subst IsWhole (sym same) g.whole;
  distinct = map-Distinct c b g.distinct;
}
  where
    same : (BlockServer.map c b).1.block ≡ b.block
    same = (map_lem c c b).2

unmap-GoodBlock :
    (k : ℤ) (c : Text) (b : BlockServer) → GoodBlock k b → GoodBlock k (BlockServer.unmap c b).1
unmap-GoodBlock k c b g = record {
  keyed = subst (λ x. Block.id x ≡ k) (sym same) g.keyed;
  whole = subst IsWhole (sym same) g.whole;
  distinct = unmap-Distinct c b g.distinct;
}
  where
    same : (BlockServer.unmap c b).1.block ≡ b.block
    same = (unmap_lem c c b g.distinct).2

with_condition-IsValid : {s : Server} (i : ℤ) → IsValid s → IsValid (with_condition s i)
with_condition-IsValid i v = record { good = v.good }

module _ (y : Yaml) where
  -- A write that is let through leaves the request's id and bytes, and its revision plus one.
  pub written_lem :
      (b request : BlockServer)
      → IsWhole b.block
      → IsWhole request.block
      → written y b request ≡ returns (record b { block = add_revision request.block })
  unfolding written
  written_lem b request w v = rw (assign_lem b request w v) refl

  written-GoodBlock :
      (b r : BlockServer)
      → IsWhole r.block
      → GoodBlock r.id b
      → GoodBlock r.id (record b { block = add_revision r.block })
  unfolding add_revision
  written-GoodBlock b r w g = record {
    keyed = refl;
    whole = record { area = w.area; bytes = w.bytes; sized = w.sized };
    distinct = g.distinct;
  }

  pub fresh : (t : Text) → (Message.create y t).m_block ≡ none
  unfolding Message.create
  fresh [] = refl
  fresh (c ∷ t) = ground arith

  through :
      (r : Option BlockServer × Message)
      → RefersWhole r
      → Ensures (λ b. IsWhole b.block) (deref r.0)
  through (none, m) w = tt
  through (some b, m) w = w

  pub requested-IsWhole :
      (t : Text) → Ensures (λ r. IsWhole r.block) (requested y (Message.create y t))
  unfolding requested
  requested-IsWhole t =
      Ensures-bind RefersWhole (λ r. IsWhole r.block) (Message.block y (Message.create y t)) _
        (block-IsWhole y (Message.create y t) (fresh t)) through

  pub check_wait-IsValid :
      {s : Server} (i revision : ℤ) → IsValid s → IsValid (check_wait y s i revision).server
  unfolding check_wait
  check_wait-IsValid {s} i revision v = elim (Option-cases (find i s.blocks)) [
    | inl e ↦ rw (e, check_wait) v
    | inr (b, e) ↦ elim (Bool-cases (b.revision == revision)) [
      | inl same ↦ rw (e, check_wait, same) (with_condition-IsValid i v)
      | inr other ↦ rw (e, check_wait, other) v
    ]
  ]

  pub handle_map-IsValid :
      {s : Server} (c : Text) (r : BlockServer) → IsValid s → IsValid (handle_map y s c r).server
  unfolding handle_map
  handle_map-IsValid {s} c r v = elim (Option-cases (find r.id s.blocks)) [
    | inl e ↦ rw (e, handle_map) v
    | inr (b, e) ↦
        rw (e, handle_map) (with_block-IsValid r.id _ v (map-GoodBlock r.id c b (v.good r.id b e)))
  ]

  handle_unmap-IsValid :
      {s : Server} (c : Text) (r : BlockServer) → IsValid s → IsValid (handle_unmap y s c r).server
  unfolding handle_unmap
  handle_unmap-IsValid {s} c r v = elim (Option-cases (find r.id s.blocks)) [
    | inl e ↦ rw (e, handle_unmap) v
    | inr (b, e) ↦
        rw (e, handle_unmap)
          (with_block-IsValid r.id _ v (unmap-GoodBlock r.id c b (v.good r.id b e)))
  ]

  pub handle_update-server : (s : Server) (r : BlockServer) → (handle_update y s r).server ≡ s
  unfolding handle_update
  handle_update-server s r = elim (Option-cases (find r.id s.blocks)) [
    | inl e ↦ rw (e, handle_update)
    | inr (b, e) ↦ rw (e, handle_update)
  ]

  pub handle_write-IsValid :
      {s : Server} (r : BlockServer)
      → IsValid s
      → IsWhole r.block
      → Ensures (λ reaction. IsValid reaction.server) (handle_write y s r)
  unfolding handle_write
  handle_write-IsValid {s} r v w = elim (Option-cases (find r.id s.blocks)) [
    | inl e ↦ rw (e, handle_write) (with_condition-IsValid r.id v)
    | inr (b, e) ↦
        rw (e, handle_write)
          (Ensures-after (λ reaction. IsValid reaction.server) (logged_data y r) _
            (λ shown. elim (Bool-cases (b.revision == r.revision)) [
              | inl same ↦
                  rw (same, written_lem b r (v.good r.id b e).whole w)
                    (with_condition-IsValid r.id
                      (with_block-IsValid r.id _ v (written-GoodBlock b r w (v.good r.id b e))))
              | inr other ↦ rw other (with_condition-IsValid r.id v)
            ]))
  ]

  -- What a request on the block of a message ensures, once it ensures it for every whole block.
  pub request-rule :
      (P : Reaction → Type 0) (t : Text) (f : BlockServer → Outcome Reaction)
      → ((r : BlockServer) → IsWhole r.block → Ensures P (f r))
      → Ensures P (requested y (Message.create y t) >>= f)
  request-rule P t f h = Ensures-bind (λ r. IsWhole r.block) P _ f (requested-IsWhole t) h

  dispatch-IsValid :
      {s : Server} (c t : Text) (ty : MessageType)
      → IsValid s
      → Ensures (λ reaction. IsValid reaction.server) (dispatch y s c (Message.create y t) ty)
  unfolding dispatch handle_wait
  dispatch-IsValid c t map v =
      request-rule (λ reaction. IsValid reaction.server) t _ (λ r w. handle_map-IsValid c r v)
  dispatch-IsValid c t unmap v =
      request-rule (λ reaction. IsValid reaction.server) t _ (λ r w. handle_unmap-IsValid c r v)
  dispatch-IsValid {s} c t update v =
      request-rule (λ reaction. IsValid reaction.server) t _
        (λ r w. subst IsValid (sym (handle_update-server s r)) v)
  dispatch-IsValid c t write v =
      request-rule (λ reaction. IsValid reaction.server) t _ (λ r w. handle_write-IsValid r v w)
  dispatch-IsValid c t wait v =
      request-rule (λ reaction. IsValid reaction.server) t _
        (λ r w. check_wait-IsValid r.id r.revision v)
  dispatch-IsValid c t ack v = v
  dispatch-IsValid c t nack v = v
  dispatch-IsValid c t undef v = v

  -- Every message, of whatever form, leaves a valid server valid, if it is handled at all.
  pub handle-IsValid :
      {s : Server} (c t : Text) {reaction : Reaction}
      → IsValid s
      → handle y s c t ≡ returns reaction
      → IsValid reaction.server
  unfolding handle
  handle-IsValid c t {reaction} v e =
      ensured (λ r. IsValid r.server) _ reaction e
        (dispatch-IsValid c t (type_of (Message.create y t)) v)
