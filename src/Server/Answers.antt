-- ===== src/Server/Answers.antt =====
-- The requests of src/server.cpp by the messages that carry them: what the sender is answered, and
-- what becomes of the versions of the blocks.
use distributed_memory.Prelude.{
  ◌≡◌, refl, subst, ap, ◌∙◌, ◌⊎◌, ℕ, ℤ, int_key, add_one, ltb_ℤ, Bool, true, false, ◌&&◌, Option,
  some, List, Text, ◌==◌, ◌++◌, ==_iff, Bool-cases, Option-cases, inl, inr, returns, arith,
  if◌then◌else◌, Ensures, Ensures-weaken, ensured,
}
use distributed_memory.Prelude.Assoc.{find}
use distributed_memory.Yaml.{Yaml, stop}
use distributed_memory.Block.{IsWhole}
use distributed_memory.BlockServer.{BlockServer}
use distributed_memory.BlockServer.Clients.{map_lem, unmap_lem}
use distributed_memory.Message
use distributed_memory.Message.{
  Message, MessageType, map, unmap, update, write, wait, ack, nack, undef, emit_block,
}
use distributed_memory.Message.Types.{type_of}
use distributed_memory.Message.RoundTrip.{Carries}
use distributed_memory.Server.{
  Server, Reaction, answer, requested, handle_map, handle_unmap, handle_update, handle_write,
  check_wait, handle_wait, dispatch, handle,
}
use distributed_memory.Server.Invariant.{IsValid}
use distributed_memory.Server.Requests.{request-rule, handle_update-server}
use distributed_memory.Server.Versions.{
  Version, view, is_current, view-with_block_same, handle_write-Writes,
}

-- What one request may do to the version of a block: nothing, or replace its bytes and raise its
-- revision by one.
abbrev pub Advances : Option Version → Option Version → Type 0
Advances old new =
    (new ≡ old)
    ⊎ ((revision : ℤ) × (bytes : Option (List ℕ)) × (bytes' : Option (List ℕ)) × (old
          ≡ some (revision, bytes))
        × (new ≡ some (add_one revision, bytes')))

current_revision :
    (s : Server) (r : BlockServer)
    → is_current s r ≡ true
    → (bytes : Option (List ℕ)) × (view s r.id ≡ some (r.revision, bytes))
unfolding is_current view
current_revision s r h = elim (Option-cases (find r.id s.blocks)) [
  | inl e ↦ cc (rw (e, is_current) at h)
  | inr (b, e) ↦
      let same : b.revision ≡ r.revision =
        (==_iff b.revision r.revision).0 (rw (e, is_current) at h) in
      (b.bytes, rw (e, view, same) refl)
]

and_true : (a b : Bool) → (a && b) ≡ true → (a ≡ true) × (b ≡ true)
and_true a b h = ground arith

module _ (y : Yaml) where
  pub requested-Carries :
      {t : Text} {ty : MessageType} {r : BlockServer}
      → Carries y t ty r
      → requested y (Message.create y t) ≡ returns r
  unfolding requested
  requested-Carries c = rw (c.carried, requested)

  pub handle-Carries :
      (s : Server) (client : Text) {t : Text} {ty : MessageType} {r : BlockServer}
      → Carries y t ty r
      → handle y s client t ≡ dispatch y s client (Message.create y t) ty
  unfolding handle
  handle-Carries s client {t} c = ap (dispatch y s client (Message.create y t)) c.typed

  pub handle-write :
      (s : Server) (client : Text) {t : Text} {r : BlockServer}
      → Carries y t write r
      → handle y s client t ≡ handle_write y s r
  handle-write s client c =
      handle-Carries s client c ∙ (unfold dispatch in rw (requested-Carries c))

  pub handle-update :
      (s : Server) (client : Text) {t : Text} {r : BlockServer}
      → Carries y t update r
      → handle y s client t ≡ returns (handle_update y s r)
  handle-update s client c =
      handle-Carries s client c ∙ (unfold dispatch in rw (requested-Carries c))

  pub handle-map :
      (s : Server) (client : Text) {t : Text} {r : BlockServer}
      → Carries y t map r
      → handle y s client t ≡ returns (handle_map y s client r)
  handle-map s client c = handle-Carries s client c ∙ (unfold dispatch in rw (requested-Carries c))

  pub handle-unmap :
      (s : Server) (client : Text) {t : Text} {r : BlockServer}
      → Carries y t unmap r
      → handle y s client t ≡ returns (handle_unmap y s client r)
  handle-unmap s client c =
      handle-Carries s client c ∙ (unfold dispatch in rw (requested-Carries c))

  pub handle-wait :
      (s : Server) (client : Text) {t : Text} {r : BlockServer}
      → Carries y t wait r
      → handle y s client t ≡ returns (handle_wait y s r)
  handle-wait s client c = handle-Carries s client c ∙ (unfold dispatch in rw (requested-Carries c))

  pub handle_map-view :
      (s : Server) (client : Text) (r : BlockServer) (k : ℤ)
      → view (handle_map y s client r).server k ≡ view s k
  unfolding handle_map
  handle_map-view s client r k = elim (Option-cases (find r.id s.blocks)) [
    | inl e ↦ rw (e, handle_map)
    | inr (b, e) ↦
        rw (e, handle_map) (view-with_block_same s r.id k b _ e (map_lem client client b).2)
  ]

  pub handle_unmap-view :
      (s : Server) (client : Text) (r : BlockServer) (k : ℤ)
      → IsValid s
      → view (handle_unmap y s client r).server k ≡ view s k
  unfolding handle_unmap
  handle_unmap-view s client r k v = elim (Option-cases (find r.id s.blocks)) [
    | inl e ↦ rw (e, handle_unmap)
    | inr (b, e) ↦
        rw (e, handle_unmap)
          (view-with_block_same s r.id k b _ e
            (unmap_lem client client b (v.good r.id b e).distinct).2)
  ]

  pub check_wait-view :
      (s : Server) (i revision k : ℤ) → view (check_wait y s i revision).server k ≡ view s k
  unfolding check_wait view
  check_wait-view s i revision k = elim (Option-cases (find i s.blocks)) [
    | inl e ↦ rw (e, check_wait)
    | inr (b, e) ↦ elim (Bool-cases (b.revision == revision)) [
      | inl same ↦ rw (e, check_wait, same)
      | inr other ↦ rw (e, check_wait, other)
    ]
  ]

  -- An update is answered by the block with its bytes where the server has a greater revision than
  -- the request, and without them otherwise.
  pub handle_update_found :
      (s : Server) (request b : BlockServer)
      → find request.id s.blocks ≡ some b
      → (handle_update y s request).reply
        ≡ answer (
            if ltb_ℤ request.revision b.revision
            then emit_block y ack b.block false ++ stop
            else emit_block y ack b.block true ++ stop)
  unfolding handle_update
  handle_update_found s request b e = rw (e, handle_update) refl

  handle_write-Advances :
      (s : Server) (r : BlockServer) (k : ℤ)
      → IsValid s
      → IsWhole r.block
      → Ensures (λ reaction. Advances (view s k) (view reaction.server k)) (handle_write y s r)
  handle_write-Advances s r k v w =
      Ensures-weaken (handle_write y s r) (λ reaction did. advance reaction (did.seen k))
        (handle_write-Writes y r v w)
    where
      advance :
          (reaction : Reaction)
          → view reaction.server k
            ≡ (if is_current s r && r.id == k then some (add_one r.revision, r.bytes) else view s k)
          → Advances (view s k) (view reaction.server k)
      advance reaction h = elim (Bool-cases (is_current s r && r.id == k)) [
        | inl here ↦
            let (bytes, old) = current_revision s r (and_true (is_current s r) _ here).0 in
            inr (
              r.revision,
              bytes,
              r.bytes,
              subst (λ j. view s j ≡ some (r.revision, bytes))
                  ((==_iff r.id k).0 (and_true (is_current s r) _ here).1) old,
              rw here at h,
            )
        | inr other ↦ inl (rw other at h)
      ]

  dispatch-Advances :
      (s : Server) (client t : Text) (ty : MessageType) (k : ℤ)
      → IsValid s
      → Ensures
          (λ reaction. Advances (view s k) (view reaction.server k))
          (dispatch y s client (Message.create y t) ty)
  unfolding dispatch handle_wait
  dispatch-Advances s client t map k v =
      request-rule y (λ reaction. Advances (view s k) (view reaction.server k)) t _
        (λ r w. inl (handle_map-view s client r k))
  dispatch-Advances s client t unmap k v =
      request-rule y (λ reaction. Advances (view s k) (view reaction.server k)) t _
        (λ r w. inl (handle_unmap-view s client r k v))
  dispatch-Advances s client t update k v =
      request-rule y (λ reaction. Advances (view s k) (view reaction.server k)) t _
        (λ r w. inl (ap (λ s'. view s' k) (handle_update-server y s r)))
  dispatch-Advances s client t write k v =
      request-rule y (λ reaction. Advances (view s k) (view reaction.server k)) t _
        (λ r w. handle_write-Advances s r k v w)
  dispatch-Advances s client t wait k v =
      request-rule y (λ reaction. Advances (view s k) (view reaction.server k)) t _
        (λ r w. inl (check_wait-view s r.id r.revision k))
  dispatch-Advances s client t ack k v = inl refl
  dispatch-Advances s client t nack k v = inl refl
  dispatch-Advances s client t undef k v = inl refl

  -- A message of whatever form changes the bytes of a block only together with its revision, which
  -- it raises by one, and adds or drops no block.
  pub handle-Advances :
      {s : Server} (client t : Text) {reaction : Reaction} (k : ℤ)
      → IsValid s
      → handle y s client t ≡ returns reaction
      → Advances (view s k) (view reaction.server k)
  unfolding handle
  handle-Advances {s} client t {reaction} k v e =
      ensured (λ r. Advances (view s k) (view r.server k)) _ reaction e
        (dispatch-Advances s client t (type_of (Message.create y t)) k v)
