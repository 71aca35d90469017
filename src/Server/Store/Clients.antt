-- ===== src/Server/Store/Clients.antt =====
-- `MAP` and `UNMAP` of src/server.cpp do what the store promises.
use distributed_memory.Prelude.{
  ◌≡◌, refl, ap, ◌∙◌, ℤ, int_key, text_key, true, false, not, ◌&&◌, ◌||◌, some, Text, ◌==◌, ==_iff,
  ◌++◌, Bool-cases, Option-cases, inl, inr, arith, if◌then◌else◌,
}
use distributed_memory.Prelude.Assoc.{find}
use distributed_memory.Yaml.{Yaml, stop}
use distributed_memory.BlockServer
use distributed_memory.BlockServer.{BlockServer}
use distributed_memory.BlockServer.Clients.{is_mapped, map_lem, unmap_lem}
use distributed_memory.Message.{map, unmap, ack, emit_block}
use distributed_memory.Server.{Server, answer, ack_text, nack_text, handle_map, handle_unmap}
use distributed_memory.Server.Invariant.{IsValid, GoodBlock}
use distributed_memory.Server.Versions.{version}
use distributed_memory.Server.Answers.{handle_map-view, handle_unmap-view}
use distributed_memory.Server.Store.{
  Verdict, store, Store-ext, maps_block, said, promised, with_client, without_client,
}
use distributed_memory.Server.Store.Follows.{
  Follows, view-found, view-missing, maps_block-found, maps_block-with_block, block-block_of,
}

module _ (y : Yaml) where
  handle_map-maps :
      (s : Server) (client : Text) (r : BlockServer) (b : BlockServer)
      → find r.id s.blocks ≡ some b
      → (c : Text) (k : ℤ)
      → maps_block (handle_map y s client r).server c k
        ≡ (r.id == k && client == c || maps_block s c k)
  unfolding handle_map
  handle_map-maps s client r b e c k =
      let (_, others, _) = map_lem client c b in
      rw (e, handle_map)
        (ground (
          arith,
          maps_block-with_block s r.id (BlockServer.map client b).1 c k,
          maps_block-found s c r.id b e,
          others,
          ==_iff r.id k,
        ))

  handle_map-told :
      (s : Server) (client : Text) (r : BlockServer) (b : BlockServer)
      → GoodBlock r.id b
      → find r.id s.blocks ≡ some b
      → (handle_map y s client r).reply
        ≡ said y (if is_mapped b client then Verdict.refused else Verdict.full r.id (version b))
  unfolding handle_map
  handle_map-told s client r b g e =
      let (code, _, same) = map_lem client client b in
      elim (Bool-cases (is_mapped b client)) [
        | inl mapped ↦ rw (e, handle_map) (rw (code, mapped) refl)
        | inr other ↦
            rw (e, handle_map)
              (rw (code, other)
                (ap (λ b'. answer (emit_block y ack b' false ++ stop))
                  (same ∙ block-block_of r.id b g)))
      ]

  -- What the store promises for a block that the server has.
  promised-map :
      (s : Server) (client : Text) (r b : BlockServer)
      → find r.id s.blocks ≡ some b
      → promised (store s) client map r ≡ (
          if is_mapped b client
          then (store s, Verdict.refused)
          else (with_client (store s) client r.id, Verdict.full r.id (version b)))
  promised-map s client r b e =
      rw (view-found s r.id b e, promised, maps_block-found s client r.id b e) refl

  same_maps :
      (s : Server) (client : Text) (i : ℤ)
      → maps_block s client i ≡ true
      → (c : Text) (k : ℤ) → (i == k && client == c || maps_block s c k) ≡ maps_block s c k
  same_maps s client i h c k = ground (arith, ==_iff i k, ==_iff client c)

  pub handle_map-Follows :
      (s : Server) (client : Text) (r : BlockServer)
      → IsValid s
      → Follows y s client map r (handle_map y s client r)
  unfolding handle_map
  handle_map-Follows s client r v = elim (Option-cases (find r.id s.blocks)) [
    | inl e ↦ record {
      kept = rw (e, handle_map, view-missing s r.id e, promised) refl;
      told = rw (e, handle_map, view-missing s r.id e, promised) refl;
    }
    | inr (b, e) ↦ elim (Bool-cases (is_mapped b client)) [
      | inl mapped ↦ record {
        kept =
            rw (promised-map s client r b e, mapped)
              (Store-ext (handle_map-view y s client r) (λ c k.
                handle_map-maps s client r b e c k
                ∙ same_maps s client r.id (maps_block-found s client r.id b e ∙ mapped) c k));
        told =
            rw (promised-map s client r b e, mapped)
              (rw mapped at (handle_map-told s client r b (v.good r.id b e) e));
      }
      | inr other ↦ record {
        kept =
            rw (promised-map s client r b e, other)
              (Store-ext (handle_map-view y s client r) (handle_map-maps s client r b e));
        told =
            rw (promised-map s client r b e, other)
              (rw other at (handle_map-told s client r b (v.good r.id b e) e));
      }
    ]
  ]

  pub handle_unmap-maps :
      (s : Server) (client : Text) (r b : BlockServer)
      → GoodBlock r.id b
      → find r.id s.blocks ≡ some b
      → (c : Text) (k : ℤ)
      → maps_block (handle_unmap y s client r).server c k
        ≡ (not (r.id == k && client == c) && maps_block s c k)
  unfolding handle_unmap
  handle_unmap-maps s client r b g e c k =
      let (_, others, _) = unmap_lem client c b g.distinct in
      rw (e, handle_unmap)
        (ground (
          arith,
          maps_block-with_block s r.id (BlockServer.unmap client b).1 c k,
          maps_block-found s c r.id b e,
          others,
          ==_iff r.id k,
        ))

  pub handle_unmap-told :
      (s : Server) (client : Text) (r b : BlockServer)
      → GoodBlock r.id b
      → find r.id s.blocks ≡ some b
      → (handle_unmap y s client r).reply
        ≡ answer (if is_mapped b client then ack_text y else nack_text y)
  unfolding handle_unmap
  handle_unmap-told s client r b g e =
      let (code, _, _) = unmap_lem client client b g.distinct in
      elim (Bool-cases (is_mapped b client)) [
        | inl mapped ↦ rw (e, handle_unmap) (rw (code, mapped) refl)
        | inr other ↦ rw (e, handle_unmap) (rw (code, other) refl)
      ]

  promised-unmap :
      (s : Server) (client : Text) (r b : BlockServer)
      → find r.id s.blocks ≡ some b
      → promised (store s) client unmap r ≡ (
          if is_mapped b client
          then (without_client (store s) client r.id, Verdict.accepted)
          else (store s, Verdict.refused))
  promised-unmap s client r b e =
      rw (view-found s r.id b e, promised, maps_block-found s client r.id b e) refl

  same_unmaps :
      (s : Server) (client : Text) (i : ℤ)
      → maps_block s client i ≡ false
      → (c : Text) (k : ℤ) → (not (i == k && client == c) && maps_block s c k) ≡ maps_block s c k
  same_unmaps s client i h c k = ground (arith, ==_iff i k, ==_iff client c)

  pub handle_unmap-Follows :
      (s : Server) (client : Text) (r : BlockServer)
      → IsValid s
      → Follows y s client unmap r (handle_unmap y s client r)
  unfolding handle_unmap
  handle_unmap-Follows s client r v = elim (Option-cases (find r.id s.blocks)) [
    | inl e ↦ record {
      kept = rw (e, handle_unmap, view-missing s r.id e, promised) refl;
      told = rw (e, handle_unmap, view-missing s r.id e, promised) refl;
    }
    | inr (b, e) ↦
        let g = v.good r.id b e in
        elim (Bool-cases (is_mapped b client)) [
          | inl mapped ↦ record {
            kept =
                rw (promised-unmap s client r b e, mapped)
                  (Store-ext (λ k. handle_unmap-view y s client r k v)
                    (handle_unmap-maps s client r b g e));
            told =
                rw (promised-unmap s client r b e, mapped)
                  (rw mapped at (handle_unmap-told s client r b g e));
          }
          | inr other ↦ record {
            kept =
                rw (promised-unmap s client r b e, other)
                  (Store-ext (λ k. handle_unmap-view y s client r k v)
                    (λ c k.
                      handle_unmap-maps s client r b g e c k
                      ∙ same_unmaps s client r.id (maps_block-found s client r.id b e ∙ other) c
                          k));
            told =
                rw (promised-unmap s client r b e, other)
                  (rw other at (handle_unmap-told s client r b g e));
          }
        ]
  ]
