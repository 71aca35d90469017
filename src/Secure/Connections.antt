-- ===== src/Secure/Connections.antt =====
-- The handshake of src/socket/secure_socket.cpp only sends and receives: what these two keep, it keeps.
use distributed_memory.Prelude.{
  ℕ, ◌+◌, ◌*◌, Bool, true, false, Bool-cases, Option-cases, inl, inr, List, [], ◌∷◌, ◌++◌, length,
  ltb, nat_beq, take,
}
use distributed_memory.Socket.{Os, Received, failed, bytes, send, recv}
use distributed_memory.Secure.{
  Crypto, encipher, Packet, disconnected, broken, plain, overrun, send_secure, send_second,
  recv_secure, recv_size, recv_sized, recv_body, is_m2, send_m3, receive_m2, sent_m1, accept,
  check_m3, sent_m2, send_m2, receive_m1, open_client,
}
use distributed_memory.Prelude.Words.{word_bytes, word_of}

module _ {W : Type 0} (os : Os W) (P : W → Type 0)
    (sends : (bs : List ℕ) (w : W) → P w → P (os.send_bytes bs w).1)
    (receives : (n : ℕ) (w : W) → P w → P (os.recv_bytes n w).1) (c : Crypto) where
  send-keeps : (bs : List ℕ) (w : W) → P w → P (send os bs w).1
  unfolding send
  send-keeps bs w p = sends bs w p

  recv-keeps : (n : ℕ) (w : W) → P w → P (recv os n w).1
  unfolding recv
  recv-keeps n w p = receives n w p

  send_second-keeps : (e : List ℕ) (r : Bool × W) → P r.1 → P (send_second c os e r).1
  unfolding send_second
  send_second-keeps e (true, w) p = send-keeps e w p
  send_second-keeps e (false, w) p = p

  pub send_secure-keeps : (key input : List ℕ) (w : W) → P w → P (send_secure c os key input w).1
  unfolding send_secure
  send_secure-keeps key input w p =
      let e = encipher c key input in
      send_second-keeps e (send os (word_bytes (length e)) w)
        (send-keeps (word_bytes (length e)) w p)

  recv_body-keeps : (key : List ℕ) (n : ℕ) (r : Received × W) → P r.1 → P (recv_body c os key n r).1
  unfolding recv_body
  recv_body-keeps key n (failed, w) p = p
  recv_body-keeps key n (bytes [], w) p = p
  recv_body-keeps key n (bytes (b ∷ bs), w) p = p

  recv_sized-keeps : (key : List ℕ) (n : ℕ) (w : W) → P w → P (recv_sized c os key n w).1
  unfolding recv_sized
  recv_sized-keeps key n w p = elim (Bool-cases (ltb n 2147483648)) [
    | inl e ↦ rw e (recv_body-keeps key n (recv os n w) (recv-keeps n w p))
    | inr e ↦ rw e p
  ]

  recv_size-keeps : (key : List ℕ) (r : Received × W) → P r.1 → P (recv_size c os key r).1
  unfolding recv_size
  recv_size-keeps key (failed, w) p = p
  recv_size-keeps key (bytes [], w) p = p
  recv_size-keeps key (bytes (b ∷ bs), w) p = elim (Bool-cases (nat_beq (length (b ∷ bs)) 4)) [
    | inl e ↦ rw e (recv_sized-keeps key (word_of (b ∷ bs)) w p)
    | inr e ↦ rw e p
  ]

  pub recv_secure-keeps : (key : List ℕ) (w : W) → P w → P (recv_secure c os key w).1
  unfolding recv_secure
  recv_secure-keeps key w p = recv_size-keeps key (recv os 4 w) (recv-keeps 4 w p)

  check_m3-keeps : (key nonce : List ℕ) (r : Packet × W) → P r.1 → P (check_m3 c os key nonce r).1
  unfolding check_m3
  check_m3-keeps key nonce (plain m, w) p = p
  check_m3-keeps key nonce (overrun, w) p = p
  check_m3-keeps key nonce (disconnected, w) p = p
  check_m3-keeps key nonce (broken, w) p = p

  sent_m2-keeps : (key nonce : List ℕ) (r : Bool × W) → P r.1 → P (sent_m2 c os key nonce r).1
  unfolding sent_m2
  sent_m2-keeps key nonce (true, w) p =
      check_m3-keeps key nonce (recv_secure c os key w) (recv_secure-keeps key w p)
  sent_m2-keeps key nonce (false, w) p = p

  send_m2-keeps :
      (pass padding key nonce_a nonce_b : List ℕ) (w : W)
      → P w
      → P (send_m2 c os pass padding key nonce_a nonce_b w).1
  unfolding send_m2
  send_m2-keeps pass padding key nonce_a nonce_b w p =
      elim (Bool-cases (ltb c.rsa_size (3 * c.key_length + length pass))) [
        | inl e ↦ rw e p
        | inr e ↦
            elim (Option-cases (c.public_encrypt padding (key ++ (nonce_a ++ (nonce_b ++ pass))))) [
              | inl q ↦ rw (e, q, send_m2) p
              | inr (m, q) ↦ elim (Bool-cases (nat_beq (length m) c.rsa_size)) [
                | inl f ↦
                    rw (e, q, send_m2)
                      (rw f (sent_m2-keeps key nonce_a (send os m w) (send-keeps m w p)))
                | inr f ↦ rw (e, q, send_m2) (rw f p)
              ]
            ]
      ]

  receive_m1-keeps :
      (pass padding key nonce_a : List ℕ) (r : Received × W)
      → P r.1
      → P (receive_m1 c os pass padding key nonce_a r).1
  unfolding receive_m1
  receive_m1-keeps pass padding key nonce_a (failed, w) p = p
  receive_m1-keeps pass padding key nonce_a (bytes nonce_b, w) p =
      elim (Bool-cases (nat_beq (length nonce_b) c.key_length)) [
        | inl e ↦ rw e (send_m2-keeps pass padding key nonce_a nonce_b w p)
        | inr e ↦ rw e p
      ]

  pub open_client-keeps :
      (pass nonce salt padding : List ℕ) (w : W)
      → P w
      → P (open_client c os pass nonce salt padding w).1
  unfolding open_client
  open_client-keeps pass nonce salt padding w p =
      elim (Option-cases (c.bytes_to_key salt pass nonce)) [
        | inl e ↦ rw (e, open_client) p
        | inr (q, e) ↦
            rw (e, open_client)
              (receive_m1-keeps pass padding q.0 q.1 (recv os c.key_length w)
                (recv-keeps c.key_length w p))
      ]

  send_m3-keeps : (m : List ℕ) (w : W) → P w → P (send_m3 c os m w).1
  unfolding send_m3
  send_m3-keeps m w p = send_secure-keeps (take c.key_length m) (take (2 * c.key_length) m) w p

  receive_m2-keeps :
      (pass nonce_b : List ℕ) (r : Received × W) → P r.1 → P (receive_m2 c os pass nonce_b r).1
  unfolding receive_m2
  receive_m2-keeps pass nonce_b (failed, w) p = p
  receive_m2-keeps pass nonce_b (bytes encrypted, w) p =
      elim (Bool-cases (nat_beq (length encrypted) c.rsa_size)) [
        | inr e ↦ rw e p
        | inl e ↦ elim (Option-cases (c.private_decrypt encrypted)) [
          | inl q ↦ rw (e, q, receive_m2) p
          | inr (m, q) ↦ elim (Bool-cases (is_m2 c os pass nonce_b m)) [
            | inl f ↦ rw (e, q, receive_m2) (rw f (send_m3-keeps m w p))
            | inr f ↦ rw (e, q, receive_m2) (rw f p)
          ]
        ]
      ]

  pub accept-keeps : (pass nonce_b : List ℕ) (w : W) → P w → P (accept c os pass nonce_b w).1
  unfolding accept
  accept-keeps pass nonce_b w p = go (send os nonce_b w) (send-keeps nonce_b w p)
    where
      go : (r : Bool × W) → P r.1 → P (sent_m1 c os pass nonce_b r).1
      go (true, w') p =
          unfold sent_m1 in
          receive_m2-keeps pass nonce_b (recv os c.rsa_size w') (recv-keeps c.rsa_size w' p)
      go (false, w') p = unfold sent_m1 in p
