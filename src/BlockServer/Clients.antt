-- ===== src/BlockServer/Clients.antt =====
-- The clients of a block as a set: what `map` and `unmap` of src/block_server.cpp do to it.
use distributed_memory.Prelude.{
  ℕ, zero, suc, ◌≡◌, refl, Bool, true, false, not, ◌&&◌, ◌||◌, pos, negsuc, none, some, List, [],
  ◌∷◌, ◌++◌, arith, Text, text_key, ◌==◌, ==_iff, inl, inr, Option-cases, if◌then◌else◌,
}
use distributed_memory.BlockServer
use distributed_memory.BlockServer.{BlockServer, find_mapped_client, erase_at}

abbrev found : Text → List Text → Bool
found c cs = elim (find_mapped_client c cs) [ none ↦ false | some _ ↦ true ]

-- Whether a client maps the block.
unfoldable pub is_mapped : BlockServer → Text → Bool
is_mapped b c = found c b.mapped_clients

-- No client stands in the list twice.
abbrev pub Distinct : List Text → Type 0
Distinct [] = Unit {0}
Distinct (c ∷ cs) = (find_mapped_client c cs ≡ none) × Distinct cs

find-append :
    (c d : Text) (cs : List Text)
    → find_mapped_client d cs ≡ none
    → c == d ≡ false
    → find_mapped_client d (cs ++ c ∷ []) ≡ none
unfolding find_mapped_client
find-append c d [] p q = ground arith
find-append c d (x ∷ cs) p q = ground (arith, find-append c d cs)

found-append : (c d : Text) (cs : List Text) → found d (cs ++ c ∷ []) ≡ (found d cs || c == d)
unfolding find_mapped_client
found-append c d [] = ground arith
found-append c d (x ∷ cs) = ground (arith, found-append c d cs)

append-Distinct :
    (c : Text) (cs : List Text)
    → find_mapped_client c cs ≡ none
    → Distinct cs
    → Distinct (cs ++ c ∷ [])
unfolding find_mapped_client
append-Distinct c [] p h = (refl, tt)
append-Distinct c (x ∷ cs) p h =
    ground (arith, append-Distinct c cs, find-append c x cs, ==_iff x c, ==_iff c x)

found-erase_at :
    (c d : Text) (i : ℕ) (cs : List Text)
    → Distinct cs
    → find_mapped_client c cs ≡ some i
    → found d (erase_at i cs) ≡ (not (c == d) && found d cs)
unfolding find_mapped_client erase_at
found-erase_at c d i [] h p = cc
found-erase_at c d zero (x ∷ cs) h p = ground (arith, ==_iff x c, ==_iff x d, ==_iff c d)
found-erase_at c d (suc i) (x ∷ cs) h p =
    ground (arith, found-erase_at c d i cs, ==_iff x c, ==_iff x d, ==_iff c d)

absent-erase_at :
    (d : Text) (i : ℕ) (cs : List Text)
    → find_mapped_client d cs ≡ none
    → find_mapped_client d (erase_at i cs) ≡ none
unfolding find_mapped_client erase_at
absent-erase_at d i [] p = refl
absent-erase_at d zero (x ∷ cs) p = ground arith
absent-erase_at d (suc i) (x ∷ cs) p = ground (arith, absent-erase_at d i cs)

erase_at-Distinct : (i : ℕ) (cs : List Text) → Distinct cs → Distinct (erase_at i cs)
unfolding erase_at
erase_at-Distinct i [] h = tt
erase_at-Distinct zero (x ∷ cs) h = h.1
erase_at-Distinct (suc i) (x ∷ cs) h = (absent-erase_at x i cs h.0, erase_at-Distinct i cs h.1)

-- What `map` does: it succeeds exactly when the client does not map the block, and afterwards the
-- clients of the block are those before and the caller. Nothing else of the block changes.
pub map_lem :
    (c d : Text) (b : BlockServer)
    → ((BlockServer.map c b).0 ≡ (if is_mapped b c then negsuc 0 else pos 0))
      × (is_mapped (BlockServer.map c b).1 d ≡ (is_mapped b d || c == d))
      × ((BlockServer.map c b).1.block ≡ b.block)
unfolding BlockServer.map is_mapped
map_lem c d b =
    (ground arith, ground (arith, found-append c d b.mapped_clients, ==_iff c d), ground arith)

-- What `unmap` does where no client is listed twice: it succeeds exactly when the client maps the
-- block, and afterwards the clients of the block are those before without the caller.
pub unmap_lem :
    (c d : Text) (b : BlockServer)
    → Distinct b.mapped_clients
    → ((BlockServer.unmap c b).0 ≡ (if is_mapped b c then pos 0 else negsuc 0))
      × (is_mapped (BlockServer.unmap c b).1 d ≡ (not (c == d) && is_mapped b d))
      × ((BlockServer.unmap c b).1.block ≡ b.block)
unfolding BlockServer.unmap is_mapped
unmap_lem c d b h = elim (Option-cases (find_mapped_client c b.mapped_clients)) [
  | inl e ↦ (ground arith, ground (arith, ==_iff c d), ground arith)
  | inr (i, e) ↦
      (ground arith, ground (arith, found-erase_at c d i b.mapped_clients h e), ground arith)
]

pub map-Distinct :
    (c : Text) (b : BlockServer)
    → Distinct b.mapped_clients
    → Distinct (BlockServer.map c b).1.mapped_clients
unfolding BlockServer.map
map-Distinct c b h = ground (arith, append-Distinct c b.mapped_clients)

pub unmap-Distinct :
    (c : Text) (b : BlockServer)
    → Distinct b.mapped_clients
    → Distinct (BlockServer.unmap c b).1.mapped_clients
unfolding BlockServer.unmap
unmap-Distinct c b h = elim (Option-cases (find_mapped_client c b.mapped_clients)) [
  | inl e ↦ ground arith
  | inr (i, e) ↦ ground (arith, erase_at-Distinct i b.mapped_clients h)
]
