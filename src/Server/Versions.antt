-- ===== src/Server/Versions.antt =====
-- A server of src/server.cpp seen as a store of versions: each block has a revision and bytes, and
-- a write is a compare-and-swap on the revision.
use distributed_memory.Prelude.{
  ◌≡◌, refl, ap, ◌∙◌, ℕ, ℤ, int_key, Text, add_one, Bool, false, ◌&&◌, Option, none, some, List,
  ◌==◌, ==_iff, Bool-cases, Option-cases, inl, inr, returns, ensured, Ensures, Ensures-after, arith,
  if◌then◌else◌,
}
use distributed_memory.Prelude.Assoc.{find, find-put}
use distributed_memory.Yaml.{Yaml}
use distributed_memory.Block.{Block, IsWhole, add_revision}
use distributed_memory.BlockServer.{BlockServer}
use distributed_memory.BlockServer.Print.{IsTerminated, c_string-HasZero}
use distributed_memory.Server.{
  Server, Reaction, answer, ack_text, nack_text, with_block, logged_data, handle_write,
}
use distributed_memory.Server.Invariant.{IsValid}
use distributed_memory.Server.Requests.{written_lem}

abbrev pub Version : Type 0
Version = ℤ × Option (List ℕ)

abbrev pub version : BlockServer → Version
version b = (b.revision, b.bytes)

unfoldable pub view : Server → ℤ → Option Version
view s k = elim (find k s.blocks) [ none ↦ none | some b ↦ some (version b) ]

pub some-injective_lem : {A : Type 0} {a b : A} → some a ≡ some b → a ≡ b
some-injective_lem e = cc

pub found_of_view :
    (s : Server) (k : ℤ) (v : Version)
    → view s k ≡ some v
    → (b : BlockServer) × (find k s.blocks ≡ some b) × (version b ≡ v)
unfolding view
found_of_view s k v e = elim (Option-cases (find k s.blocks)) [
  | inl p ↦ cc (rw (p, view) at e)
  | inr (b, p) ↦ (b, p, some-injective_lem (rw (p, view) at e))
]

-- A block of a server, at another server with the same view of it.
pub view-version :
    (s s' : Server) (k : ℤ) (b : BlockServer)
    → view s' k ≡ view s k
    → find k s.blocks ≡ some b
    → (b' : BlockServer) × (find k s'.blocks ≡ some b') × (version b' ≡ version b)
view-version s s' k b h e = found_of_view s' k (version b) (h ∙ (unfold view in rw (e, view) refl))

-- The server has the block of the request at the request's revision.
unfoldable pub is_current : Server → BlockServer → Bool
is_current s r = elim (find r.id s.blocks) [ none ↦ false | some b ↦ b.revision == r.revision ]

pub view-with_block :
    (s : Server) (i k : ℤ) (b : BlockServer)
    → view (with_block s i b) k ≡ (if i == k then some (version b) else view s k)
unfolding view
view-with_block s i k b = ground (arith, find-put i k b s.blocks)

pub view-with_block_same :
    (s : Server) (i k : ℤ) (b b' : BlockServer)
    → find i s.blocks ≡ some b
    → b'.block ≡ b.block
    → view (with_block s i b') k ≡ view s k
unfolding view
view-with_block_same s i k b b' e p =
    ground (arith, view-with_block s i k b', ==_iff i k, ap Block.revision p, ap Block.bytes p)

module _ (y : Yaml) where
  -- What a write does, if it is handled: the answer is ACK exactly when the server has the block at the
  -- request's revision; then the block has the request's bytes and the next revision, and otherwise no
  -- block changes. In both cases all who wait for the block are woken.
  pub record Writes (s : Server) (r : BlockServer) (reaction : Reaction) : Type 0 where
    pub replied : reaction.reply ≡ answer (if is_current s r then ack_text y else nack_text y)
    pub woke : reaction.broadcast ≡ some r.id
    pub seen :
        (k : ℤ)
        → view reaction.server k
          ≡ (if is_current s r && r.id == k then some (add_one r.revision, r.bytes) else view s k)

  pub handle_write-Writes :
      {s : Server} (r : BlockServer)
      → IsValid s
      → IsWhole r.block
      → Ensures (Writes s r) (handle_write y s r)
  unfolding handle_write is_current view
  handle_write-Writes {s} r v w = elim (Option-cases (find r.id s.blocks)) [
    | inl e ↦
        rw (e, handle_write)
          (record {
            replied = rw (e, is_current) refl;
            woke = refl;
            seen = λ k. rw (e, is_current) refl;
          })
    | inr (b, e) ↦
        rw (e, handle_write)
          (Ensures-after (Writes s r) (logged_data y r) _ (λ shown.
            elim (Bool-cases (b.revision == r.revision)) [
              | inl same ↦
                  rw (same, written_lem y b r (v.good r.id b e).whole w)
                    (record {
                      replied = rw (e, is_current, same) refl;
                      woke = refl;
                      seen = λ k.
                          rw (e, is_current, same)
                            (unfold add_revision in
                              view-with_block s r.id k (record b { block = add_revision r.block }));
                    })
              | inr other ↦ rw other (record {
                replied = rw (e, is_current, other) refl;
                woke = refl;
                seen = λ k. rw (e, is_current, other) refl;
              })
            ]))
  ]

  logged_data-IsTerminated :
      (r : BlockServer) → IsTerminated r → (t : Text) × (logged_data y r ≡ returns t)
  unfolding logged_data
  logged_data-IsTerminated r z =
      let (t, e) = c_string-HasZero z.area z.zero_in in (t, rw (z.bytes, logged_data) e)

  -- The data of the request is logged as a C string, so that a write is handled if it has a zero.
  handle_write_returns :
      {s : Server} (r : BlockServer)
      → IsValid s
      → IsWhole r.block
      → IsTerminated r
      → (reaction : Reaction) × (handle_write y s r ≡ returns reaction)
  unfolding handle_write
  handle_write_returns {s} r v w z = elim (Option-cases (find r.id s.blocks)) [
    | inl e ↦ rw (e, handle_write) (_, refl)
    | inr (b, e) ↦
        let (shown, logged) = logged_data-IsTerminated r z in
        elim (Bool-cases (b.revision == r.revision)) [
          | inl same ↦
              rw (e, handle_write)
                (rw (logged, same, written_lem y b r (v.good r.id b e).whole w) (_, refl))
          | inr other ↦ rw (e, handle_write) (rw (logged, other) (_, refl))
        ]
  ]

  pub handle_write_lem :
      {s : Server} (r : BlockServer)
      → IsValid s
      → IsWhole r.block
      → IsTerminated r
      → (reaction : Reaction) × (handle_write y s r ≡ returns reaction) × Writes s r reaction
  handle_write_lem {s} r v w z =
      let (reaction, ran) = handle_write_returns r v w z in
      (reaction, ran, ensured (Writes s r) _ reaction ran (handle_write-Writes r v w))
