-- ===== src/Secure/Packets.antt =====
-- The encrypted packets of src/socket/secure_socket.cpp on a connection that keeps what is sent in
-- order.
use distributed_memory.Prelude.{
  ℕ, ◌<◌, ◌≡◌, refl, ap, ◌∙◌, arith, pos, int_key, ==_refl, true, List, [], ◌∷◌, ◌++◌, length, take,
  drop, ltb, nat_beq_iff, take-append_of_length, drop-append_of_length,
}
use mathlib.Core.List.{append_assoc}
use distributed_memory.Prelude.Words.{word_bytes, word_of}
use distributed_memory.Socket.{Os, bytes, send, recv}
use distributed_memory.Secure.{
  Crypto, encipher, decipher, plain, send_secure, send_second, recv_secure, recv_size, recv_sized,
  recv_body,
}

-- The bytes under way on a connection whose `recv` returns as many as it is asked for, as long as
-- there are so many.
unfoldable pub pipe : Os (List ℕ)
pipe = record {
  send_bytes = λ bs queue. (pos (length bs), queue ++ bs);
  recv_bytes = λ n queue. (bytes (take n queue), drop n queue);
}

pub lt→ltb : (a b : ℕ) → a < b → ltb a b ≡ true
lt→ltb a b h = ground arith

pub word_of-word_bytes : (n : ℕ) → n < 4294967296 → word_of (word_bytes n) ≡ n
unfolding word_of word_bytes
word_of-word_bytes n h = omega (arith, h)

-- The bytes of a packet.
abbrev pub frame : Crypto → List ℕ → List ℕ → List ℕ
frame c session_key input =
    let encrypted = encipher c session_key input in word_bytes (length encrypted) ++ encrypted

module _ (c : Crypto) where
  pub send_frame :
      (session_key input queue : List ℕ)
      → send_secure c pipe session_key input queue ≡ (true, queue ++ frame c session_key input)
  unfolding send_secure send_second send pipe word_bytes
  send_frame session_key input queue =
      let encrypted = encipher c session_key input in
      rw (==_refl (pos (length encrypted)))
        (ap (λ bs. (true, bs)) (append_assoc queue (word_bytes (length encrypted)) encrypted))

  recv_whole :
      (session_key encrypted rest : List ℕ)
      → 0 < length encrypted
      → length encrypted < 2147483648
      → recv_sized c pipe session_key (length encrypted) (encrypted ++ rest)
        ≡ (plain (decipher c session_key encrypted), rest)
  unfolding recv_sized recv_body recv pipe
  recv_whole session_key [] rest some_bytes fits = absurd (omega (arith, some_bytes))
  recv_whole session_key (b ∷ bs) rest some_bytes fits =
      rw
        (
          lt→ltb (length (b ∷ bs)) 2147483648 fits,
          take-append_of_length (length bs) bs rest refl,
          drop-append_of_length (length bs) bs rest refl,
          (nat_beq_iff (length (b ∷ bs)) (length (b ∷ bs))).1 refl,
        )
        refl

  pub recv_frame :
      (session_key input rest : List ℕ)
      → 0 < length (encipher c session_key input)
      → length (encipher c session_key input) < 2147483648
      → recv_secure c pipe session_key (frame c session_key input ++ rest)
        ≡ (plain (decipher c session_key (encipher c session_key input)), rest)
  unfolding recv_secure recv_size recv pipe word_bytes word_of
  recv_frame session_key input rest some_bytes fits =
      let encrypted = encipher c session_key input in
      ap (λ n. recv_sized c pipe session_key n (encrypted ++ rest))
        (word_of-word_bytes (length encrypted) (omega (arith, fits)))
      ∙ recv_whole session_key encrypted rest some_bytes fits

  -- A packet that is sent after others, and received when those have been, holds what was sent: over a
  -- connection that keeps bytes in order and on which `recv` returns as many as it is asked for, and for
  -- what is enciphered to at least one and less than 2^31 bytes that decipher to it.
  pub packet_lem :
      (session_key input queue rest : List ℕ)
      → decipher c session_key (encipher c session_key input) ≡ input
      → 0 < length (encipher c session_key input)
      → length (encipher c session_key input) < 2147483648
      → (sent : List ℕ) × (send_secure c pipe session_key input queue ≡ (true, queue ++ sent))
        × (recv_secure c pipe session_key (sent ++ rest) ≡ (plain input, rest))
  packet_lem session_key input queue rest inverse some_bytes fits = (
    frame c session_key input,
    send_frame session_key input queue,
    recv_frame session_key input rest some_bytes fits ∙ ap (λ m. (plain m, rest)) inverse,
  )
