-- ===== src/Server/Replies.antt =====
-- What src/server.cpp answers, as messages that src/client.cpp reads.
use distributed_memory.Prelude.{
  ◌≡◌, refl, sym, ap, subst, ◌∙◌, ◌⊎◌, ℤ, ltb_ℤ, int_key, Bool, true, false, some, Text, ◌==◌,
  Option-cases, Bool-cases, inl, inr, returns, length-replicate, ℕ,
}
use distributed_memory.Yaml.{Yaml}
use distributed_memory.Block.{IsWhole, block_size}
use distributed_memory.BlockServer.{BlockServer}
use distributed_memory.Message
use distributed_memory.Message.{MessageType, map, unmap, update, write, wait, ack, nack, undef}
use distributed_memory.Message.Types.{type_of}
use distributed_memory.Message.RoundTrip.{
  Carries, received, zeros, emit_block-Carries, emit_shallow-Carries, emit-type_of,
}
use distributed_memory.Server.{Server, Reaction, answer, handle}
use distributed_memory.Server.Invariant.{IsValid}
use distributed_memory.Server.Versions.{Version, view, found_of_view}
use distributed_memory.Server.Store.{
  Verdict, accepted, refused, full, shallow, blocked, store, said, promised, block_of,
}
use distributed_memory.Server.Store.Requests.{handle-Follows}

-- The types of the requests whose answer the client reads a block from.
abbrev pub wants_block : MessageType → Bool
wants_block map = true
wants_block unmap = false
wants_block update = true
wants_block write = false
wants_block wait = false
wants_block ack = false
wants_block nack = false
wants_block undef = false

-- A text is read as NACK, or as ACK, and then with a whole block where one is wanted.
abbrev pub IsReadable : Yaml → Bool → Text → Type 0
IsReadable y wanted t =
    (type_of (Message.create y t) ≡ nack)
    ⊎ ((type_of (Message.create y t) ≡ ack)
        × (wanted ≡ true → (b : BlockServer) × Carries y t ack b × IsWhole b.block))

-- A verdict that is told readably.
abbrev IsTold : Bool → Verdict → Type 0
IsTold wanted accepted = wanted ≡ false
IsTold wanted refused = Unit {0}
IsTold wanted (full k v) = IsWhole (block_of k v)
IsTold wanted (shallow k v) = Unit {0}
IsTold wanted (blocked k revision) = Unit {0}

view-IsWhole :
    (s : Server) (k : ℤ) (v : Version) → IsValid s → view s k ≡ some v → IsWhole (block_of k v)
view-IsWhole s k v good e =
    let (b, found, same) = found_of_view s k v e in
    let whole = (good.good k b found).whole in
    record {
      area = whole.area;
      bytes = sym (ap (λ u. u.1) same) ∙ whole.bytes;
      sized = whole.sized;
    }

answer-injective : {t u : Text} → answer t ≡ answer u → t ≡ u
answer-injective e = cc

promised-IsTold :
    (s : Server) (client : Text) (ty : MessageType) (r : BlockServer)
    → IsValid s
    → IsTold (wants_block ty) (promised (store s) client ty r).1
promised-IsTold s client map r good = elim (Option-cases (view s r.id)) [
  | inl e ↦ rw (e, promised) tt
  | inr (v, e) ↦ elim (Bool-cases ((store s).maps client r.id)) [
    | inl mapped ↦ rw (e, promised, mapped) tt
    | inr other ↦ rw (e, promised, other) (view-IsWhole s r.id v good e)
  ]
]
promised-IsTold s client unmap r good = elim (Option-cases (view s r.id)) [
  | inl e ↦ rw (e, promised) tt
  | inr (v, e) ↦ elim (Bool-cases ((store s).maps client r.id)) [
    | inl mapped ↦ rw (e, promised, mapped) refl
    | inr other ↦ rw (e, promised, other) tt
  ]
]
promised-IsTold s client update r good = elim (Option-cases (view s r.id)) [
  | inl e ↦ rw (e, promised) tt
  | inr (v, e) ↦ elim (Bool-cases (ltb_ℤ r.revision v.0)) [
    | inl newer ↦ rw (e, promised) (rw newer (view-IsWhole s r.id v good e))
    | inr other ↦ rw (e, promised) (rw other tt)
  ]
]
promised-IsTold s client write r good = elim (Option-cases (view s r.id)) [
  | inl e ↦ rw (e, promised) tt
  | inr (v, e) ↦ elim (Bool-cases (v.0 == r.revision)) [
    | inl current ↦ rw (e, promised) (rw current refl)
    | inr other ↦ rw (e, promised) (rw other tt)
  ]
]
promised-IsTold s client wait r good = elim (Option-cases (view s r.id)) [
  | inl e ↦ rw (e, promised) refl
  | inr (v, e) ↦ elim (Bool-cases (v.0 == r.revision)) [
    | inl current ↦ rw (e, promised) (rw current tt)
    | inr other ↦ rw (e, promised) (rw other refl)
  ]
]
promised-IsTold s client ack r good = tt
promised-IsTold s client nack r good = tt
promised-IsTold s client undef r good = tt

zeros-IsWhole : (b : BlockServer) → b.bytes ≡ some zeros → IsWhole b.block
zeros-IsWhole b e = record {
  area = zeros;
  bytes = e;
  sized = length-replicate {A = ℕ} block_size 0;
}

module _ (y : Yaml) where
  said-IsReadable :
      (wanted : Bool) (v : Verdict) (t : Text)
      → IsTold wanted v
      → said y v ≡ answer t
      → IsReadable y wanted t
  said-IsReadable wanted accepted t told e =
      subst (IsReadable y wanted) (answer-injective e) (inr (emit-type_of y ack, λ p. cc (told, p)))
  said-IsReadable wanted refused t told e =
      subst (IsReadable y wanted) (answer-injective e) (inl (emit-type_of y nack))
  said-IsReadable wanted (full k v) t told e =
      let c = emit_block-Carries y ack (block_of k v) told.area told.bytes told.sized in
      subst (IsReadable y wanted) (answer-injective e)
        (inr (c.typed, λ p. (_, c, record { area = told.area; bytes = refl; sized = told.sized })))
  said-IsReadable wanted (shallow k v) t told e =
      let c = emit_shallow-Carries y ack (block_of k v) in
      subst (IsReadable y wanted) (answer-injective e)
        (inr (c.typed, λ p. (_, c, zeros-IsWhole (received (block_of k v) zeros) refl)))
  said-IsReadable wanted (blocked k revision) t told e = cc

  -- Whatever a valid server answers, a client can read: it is NACK, or ACK, and where the client reads a
  -- block from the answer, as from that to MAP or UPDATE, an ACK carries one with an area of the full
  -- size.
  pub handle-IsReadable :
      {s : Server} {a : Reaction} (client t u : Text)
      → IsValid s
      → handle y s client t ≡ returns a
      → a.reply ≡ answer u
      → IsReadable y (wants_block (type_of (Message.create y t))) u
  handle-IsReadable {s} client t u v e p =
      let (ty, r, asks, f) = handle-Follows y client t v e in
      subst (λ ty'. IsReadable y (wants_block ty') u) (sym asks.typed)
        (said-IsReadable (wants_block ty) (promised (store s) client ty r).1 u
          (promised-IsTold s client ty r v) (sym f.told ∙ p))
