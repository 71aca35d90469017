-- ===== src/Secure/BothSides.antt =====
-- The two sides of the handshake of src/socket/secure_socket.cpp, each on what the other has sent.
use distributed_memory.Prelude.{
  ℕ, ◌+◌, ◌*◌, ◌<◌, ◌≡◌, refl, sym, ap, ◌∙◌, arith, int_key, text_key, ==_refl, true, false, some,
  List, [], ◌∷◌, ◌++◌, length, take, drop, ltb, nat_beq_iff, length-append, take_of_length,
  take-append_of_length, drop-append_of_length, returns,
}
use mathlib.Core.List.{append_assoc}
use distributed_memory.Prelude.Words.{word_bytes, word_of}
use distributed_memory.Socket.{send, recv}
use distributed_memory.Socket.Scripts.{Script, script, send_script}
use distributed_memory.Secure.{
  Crypto, encipher, decipher, plain, send_secure, send_second, recv_secure, recv_size, recv_sized,
  recv_body, is_m2, send_m3, receive_m2, sent_m1, accept, check_m3, sent_m2, send_m2, receive_m1,
  open_client,
}
use distributed_memory.Secure.Packets.{lt→ltb, word_of-word_bytes}

-- OpenSSL does what the handshake relies on, for the data of one run of it: M2 fits into an RSA
-- packet, is encrypted, and is decrypted to what it was; and so is the content of M3.
pub record Works (c : Crypto) (pass nonce salt padding nonce_b : List ℕ) : Type 0 where
  pub session_key : List ℕ
  pub nonce_a : List ℕ
  pub derived : c.bytes_to_key salt pass nonce ≡ some (session_key, nonce_a)
  pub key_sized : length session_key ≡ c.key_length
  pub nonce_a_sized : length nonce_a ≡ c.key_length
  pub nonce_b_sized : length nonce_b ≡ c.key_length
  pub room : ltb c.rsa_size (3 * c.key_length + length pass) ≡ false
  pub m2 : List ℕ
  pub encrypted : c.public_encrypt padding (session_key ++ (nonce_a ++ (nonce_b ++ pass))) ≡ some m2
  pub m2_sized : length m2 ≡ c.rsa_size
  pub decrypted : c.private_decrypt m2 ≡ some (session_key ++ (nonce_a ++ (nonce_b ++ pass)))
  pub deciphered :
      decipher c session_key (encipher c session_key (session_key ++ nonce_a))
      ≡ session_key ++ nonce_a
  pub some_bytes : 0 < length (encipher c session_key (session_key ++ nonce_a))
  pub fits : length (encipher c session_key (session_key ++ nonce_a)) < 2147483648

module _ (c : Crypto) (pass nonce salt padding nonce_b : List ℕ)
    (h : Works c pass nonce salt padding nonce_b) where
  abbrev message : List ℕ
  message = h.session_key ++ (h.nonce_a ++ (nonce_b ++ pass))

  abbrev enciphered : List ℕ
  enciphered = encipher c h.session_key (h.session_key ++ h.nonce_a)

  two_sized : length (h.session_key ++ h.nonce_a) ≡ 2 * c.key_length
  two_sized = omega (arith, length-append h.session_key h.nonce_a, h.key_sized, h.nonce_a_sized)

  three_sized : length ((h.session_key ++ h.nonce_a) ++ nonce_b) ≡ 3 * c.key_length
  three_sized =
      omega (arith, length-append (h.session_key ++ h.nonce_a) nonce_b, two_sized, h.nonce_b_sized)

  in_two : message ≡ (h.session_key ++ h.nonce_a) ++ (nonce_b ++ pass)
  in_two = sym (append_assoc h.session_key h.nonce_a (nonce_b ++ pass))

  in_three : message ≡ ((h.session_key ++ h.nonce_a) ++ nonce_b) ++ pass
  in_three = in_two ∙ sym (append_assoc (h.session_key ++ h.nonce_a) nonce_b pass)

  message-key : take c.key_length message ≡ h.session_key
  message-key =
      take-append_of_length c.key_length h.session_key (h.nonce_a ++ (nonce_b ++ pass)) h.key_sized

  message-two : take (2 * c.key_length) message ≡ h.session_key ++ h.nonce_a
  message-two =
      ap (take (2 * c.key_length)) in_two
      ∙ take-append_of_length (2 * c.key_length) (h.session_key ++ h.nonce_a) (nonce_b ++ pass)
          two_sized

  message-challenge : take c.key_length (drop (2 * c.key_length) message) ≡ nonce_b
  message-challenge =
      ap (λ m. take c.key_length (drop (2 * c.key_length) m)) in_two
      ∙ ap (take c.key_length) (
          drop-append_of_length (2 * c.key_length) (h.session_key ++ h.nonce_a) (nonce_b ++ pass)
            two_sized)
      ∙ take-append_of_length c.key_length nonce_b pass h.nonce_b_sized

  message-secret : drop (3 * c.key_length) message ≡ pass
  message-secret =
      ap (drop (3 * c.key_length)) in_three
      ∙ drop-append_of_length (3 * c.key_length) ((h.session_key ++ h.nonce_a) ++ nonce_b) pass
          three_sized

  message_sized : length message ≡ 3 * c.key_length + length pass
  message_sized =
      ap length in_three
      ∙ length-append ((h.session_key ++ h.nonce_a) ++ nonce_b) pass
      ∙ ap (λ n. n + length pass) three_sized

  message-is_m2 : is_m2 c script pass nonce_b message ≡ true
  unfolding is_m2
  message-is_m2 =
      rw
        (
          message-challenge,
          message-secret,
          (nat_beq_iff (length message) (3 * c.key_length + length pass)).1 message_sized,
          ==_refl nonce_b,
          ==_refl pass,
        )
        refl

  abbrev pub to_client : List (List ℕ)
  to_client = nonce_b ∷ word_bytes (length enciphered) ∷ enciphered ∷ []

  sends_m3 :
      send_m3 c script message (record { incoming = []; outgoing = nonce_b ∷ [] })
      ≡ (some h.session_key, record { incoming = []; outgoing = to_client })
  unfolding send_m3 send_secure send_second
  sends_m3 =
      rw (message-key, message-two)
        (rw
          (
            send_script (word_bytes (length enciphered))
                (record { incoming = []; outgoing = nonce_b ∷ [] }),
            send_script enciphered (record {
              incoming = [];
              outgoing = nonce_b ∷ word_bytes (length enciphered) ∷ [];
            }),
          )
          refl)

  receives_m2 :
      receive_m2 c script pass nonce_b
        (recv script c.rsa_size (record { incoming = h.m2 ∷ []; outgoing = nonce_b ∷ [] }))
      ≡ (some h.session_key, record { incoming = []; outgoing = to_client })
  unfolding receive_m2 recv script
  receives_m2 =
      rw (take_of_length c.rsa_size h.m2 h.m2_sized, receive_m2)
        (rw ((nat_beq_iff (length h.m2) c.rsa_size).1 h.m2_sized, h.decrypted, message-is_m2)
          sends_m3)

  pub accepts :
      accept c script pass nonce_b (record { incoming = h.m2 ∷ []; outgoing = [] })
      ≡ (some h.session_key, record { incoming = []; outgoing = to_client })
  unfolding accept sent_m1
  accepts =
      ap (sent_m1 c script pass nonce_b)
        (send_script nonce_b (record { incoming = h.m2 ∷ []; outgoing = [] }))
      ∙ receives_m2

  -- The client before it receives M3.
  abbrev answered : Script
  answered = record {
    incoming = word_bytes (length enciphered) ∷ enciphered ∷ [];
    outgoing = h.m2 ∷ [];
  }

  abbrev finished : Script
  finished = record { incoming = []; outgoing = h.m2 ∷ [] }

  receives_sized :
      (e : List ℕ)
      → 0 < length e
      → length e < 2147483648
      → recv_sized c script h.session_key (length e) (record finished { incoming = e ∷ [] })
        ≡ (plain (decipher c h.session_key e), finished)
  unfolding recv_sized recv_body recv script
  receives_sized [] some_bytes fits = absurd (omega (arith, some_bytes))
  receives_sized (b ∷ bs) some_bytes fits =
      rw
        (
          lt→ltb (length (b ∷ bs)) 2147483648 fits,
          take_of_length (length bs) bs refl,
          (nat_beq_iff (length (b ∷ bs)) (length (b ∷ bs))).1 refl,
        )
        refl

  receives_m3 :
      recv_secure c script h.session_key answered ≡ (plain (h.session_key ++ h.nonce_a), finished)
  unfolding recv_secure recv_size recv script word_bytes word_of
  receives_m3 =
      ap (λ n. recv_sized c script h.session_key n (record finished { incoming = enciphered ∷ [] }))
        (word_of-word_bytes (length enciphered) (omega (arith, h.fits)))
      ∙ receives_sized enciphered h.some_bytes h.fits
      ∙ ap (λ m. (plain m, finished)) h.deciphered

  sends_m2 :
      sent_m2 c script h.session_key h.nonce_a
        (send script h.m2 (record answered { outgoing = [] }))
      ≡ (returns (some h.session_key), finished)
  unfolding sent_m2 check_m3
  sends_m2 =
      ap (sent_m2 c script h.session_key h.nonce_a)
        (send_script h.m2 (record answered { outgoing = [] }))
      ∙ ap (check_m3 c script h.session_key h.nonce_a) receives_m3
      ∙ rw (==_refl (h.session_key ++ h.nonce_a)) refl

  receives_m1 :
      receive_m1 c script pass padding h.session_key h.nonce_a
        (recv script c.key_length (record { incoming = to_client; outgoing = [] }))
      ≡ (returns (some h.session_key), finished)
  unfolding receive_m1 send_m2 recv script
  receives_m1 =
      rw (take_of_length c.key_length nonce_b h.nonce_b_sized, receive_m1)
        (rw
          (
            (nat_beq_iff (length nonce_b) c.key_length).1 h.nonce_b_sized,
            h.room,
            h.encrypted,
            (nat_beq_iff (length h.m2) c.rsa_size).1 h.m2_sized,
          )
          sends_m2)

  pub opens :
      open_client c script pass nonce salt padding (record { incoming = to_client; outgoing = [] })
      ≡ (returns (some h.session_key), finished)
  unfolding open_client
  opens = rw (h.derived, open_client) receives_m1

  -- A client and a server with the same passphrase end the handshake with the same session key, and
  -- nothing that was sent is left, where each receives what the other sends, a whole message with each
  -- `recv`, and where OpenSSL does what the handshake relies on: a session key is derived; it and both
  -- nonces have the length of a key; M2 is no longer than a packet of the server's key, is encrypted to
  -- one packet, and is decrypted to what it was; and what M3 holds is enciphered to at least one and
  -- less than 2^31 bytes that decipher to it.
  pub agreement_lem :
      (to_server : List (List ℕ)) × (answers : List (List ℕ)) × (accept c script pass nonce_b
          (record { incoming = to_server; outgoing = [] })
        ≡ (some h.session_key, record { incoming = []; outgoing = answers }))
      × (open_client c script pass nonce salt padding (record { incoming = answers; outgoing = [] })
          ≡ (returns (some h.session_key), record { incoming = []; outgoing = to_server }))
  agreement_lem = (h.m2 ∷ [], to_client, accepts, opens)
