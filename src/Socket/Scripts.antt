-- ===== src/Socket/Scripts.antt =====
-- A concrete connection for the calls of src/socket/: what one side sends, and what it receives.
use distributed_memory.Prelude.{
  ℕ, ◌≡◌, refl, pos, int_key, ==_refl, true, List, [], ◌∷◌, ◌++◌, length, take,
}
use distributed_memory.Socket.{Os, Received, bytes, send}

-- A connection whose peer has sent certain messages, each of which one `recv` returns; and what has
-- been sent to the peer.
pub record Script : Type 0 where
  pub incoming : List (List ℕ)
  pub outgoing : List (List ℕ)

abbrev receive_next : ℕ → Script → Received × Script
receive_next n s = elim s.incoming [
  | [] ↦ (bytes [], s)
  | m ∷ ms ↦ (bytes (take n m), record s { incoming = ms })
]

unfoldable pub script : Os Script
script = record {
  send_bytes = λ bs s. (pos (length bs), record s { outgoing = s.outgoing ++ bs ∷ [] });
  recv_bytes = receive_next;
}

pub send_script :
    (bs : List ℕ) (s : Script)
    → send script bs s ≡ (true, record s { outgoing = s.outgoing ++ bs ∷ [] })
unfolding send script
send_script bs s = rw (==_refl (pos (length bs))) refl
