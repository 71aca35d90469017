-- ===== src/Secure/Clients.antt =====
-- The handshake of src/socket/secure_socket.cpp at a client: which server it trusts.
use distributed_memory.Prelude.{
  ℕ, ◌+◌, ◌*◌, ◌≡◌, ◌↔◌, refl, ap, subst, ◌∙◌, int_key, text_key, ==_iff, ==_refl, Bool, true,
  false, Option, none, some, List, ◌++◌, ◌==◌, ltb, length, nat_beq, nat_beq_iff, if◌then◌else◌,
  Bool-cases, Option-cases, inl, inr, Outcome, returns, undefined,
}
use distributed_memory.Socket.{Os, Received, failed, bytes, send, recv}
use distributed_memory.Secure.{
  Crypto, Packet, plain, disconnected, broken, overrun, recv_secure, check_m3, sent_m2, send_m2,
  receive_m1, open_client,
}

-- An end of the handshake that gives the session key, and its first part.
abbrev Ends : {W : Type 0} → Outcome (Option (List ℕ)) × W → List ℕ → Type 0
Ends r session_key = r.0 ≡ returns (some session_key)

returned_none :
    {x : List ℕ} → ¬ (◌≡◌ {A = Outcome (Option (List ℕ))} (returns none) (returns (some x)))
returned_none e = cc

undefined_some : {x : List ℕ} → ¬ (◌≡◌ {A = Outcome (Option (List ℕ))} undefined (returns (some x)))
undefined_some e = cc

if_returned :
    (b : Bool) {x z : List ℕ}
    → ◌≡◌ {A = Outcome (Option (List ℕ))} (returns (if b then some x else none)) (returns (some z))
    → (b ≡ true) × (x ≡ z)
if_returned true e = (refl, cc)
if_returned false e = cc

module _ (c : Crypto) {W : Type 0} (os : Os W) where
  -- What a client that ends the handshake with a session key has sent and received after the server's
  -- nonce.
  pub record Answered (key pass padding nonce_a nonce_b session_key : List ℕ) (w : W) : Type 0 where
    pub room : ltb c.rsa_size (3 * c.key_length + length pass) ≡ false
    pub m2 : List ℕ
    pub encrypted : c.public_encrypt padding (key ++ (nonce_a ++ (nonce_b ++ pass))) ≡ some m2
    pub m2_sized : length m2 ≡ c.rsa_size
    pub sent : (send os m2 w).0 ≡ true
    pub answer : (recv_secure c os key (send os m2 w).1).0 ≡ plain (key ++ nonce_a)
    pub own : key ≡ session_key

  -- And in the whole handshake.
  pub record Trusted (pass nonce salt padding session_key : List ℕ) (w : W) : Type 0 where
    pub nonce_a : List ℕ
    pub derived : c.bytes_to_key salt pass nonce ≡ some (session_key, nonce_a)
    pub nonce_b : List ℕ
    pub challenge : (recv os c.key_length w).0 ≡ bytes nonce_b
    pub challenge_sized : length nonce_b ≡ c.key_length
    pub answered :
        Answered session_key pass padding nonce_a nonce_b session_key (recv os c.key_length w).1

  check_m3_lem :
      (key nonce_a session_key : List ℕ) (p : Packet) (w : W)
      → Ends (check_m3 c os key nonce_a (p, w)) session_key
      → (p ≡ plain (key ++ nonce_a)) × (key ≡ session_key)
  unfolding check_m3
  check_m3_lem key nonce_a session_key (plain m) w h =
      let (same, own) = if_returned (m == key ++ nonce_a) h in
      (ap plain ((==_iff m (key ++ nonce_a)).0 same), own)
  check_m3_lem key nonce_a session_key disconnected w h = absurd (returned_none h)
  check_m3_lem key nonce_a session_key broken w h = absurd (returned_none h)
  check_m3_lem key nonce_a session_key overrun w h = absurd (undefined_some h)

  sent_m2_lem :
      (key nonce_a session_key : List ℕ) (sent : Bool) (w : W)
      → Ends (sent_m2 c os key nonce_a (sent, w)) session_key
      → (sent ≡ true) × ((recv_secure c os key w).0 ≡ plain (key ++ nonce_a)) × (key ≡ session_key)
  unfolding sent_m2
  sent_m2_lem key nonce_a session_key true w h =
      let (answer, own) = check_m3_lem key nonce_a session_key (recv_secure c os key w).0 _ h in
      (refl, answer, own)
  sent_m2_lem key nonce_a session_key false w h = absurd (returned_none h)

  send_m2_lem :
      (pass padding key nonce_a nonce_b session_key : List ℕ) (w : W)
      → Ends (send_m2 c os pass padding key nonce_a nonce_b w) session_key
      → Answered key pass padding nonce_a nonce_b session_key w
  unfolding send_m2
  send_m2_lem pass padding key nonce_a nonce_b session_key w h =
      elim (Bool-cases (ltb c.rsa_size (3 * c.key_length + length pass))) [
        | inl large ↦ absurd (undefined_some (rw (large, send_m2) at h))
        | inr room ↦
            elim (Option-cases (c.public_encrypt padding (key ++ (nonce_a ++ (nonce_b ++ pass))))) [
              | inl e ↦ absurd (returned_none (rw (room, send_m2, e) at h))
              | inr (m2, e) ↦ elim (Bool-cases (nat_beq (length m2) c.rsa_size)) [
                | inl sized ↦
                    let (sent, answer, own) =
                      sent_m2_lem key nonce_a session_key (send os m2 w).0 (send os m2 w).1
                        (rw (room, send_m2, e, sized) at h) in
                    record {
                      room = room;
                      m2 = m2;
                      encrypted = e;
                      m2_sized = (nat_beq_iff (length m2) c.rsa_size).0 sized;
                      sent = sent;
                      answer = answer;
                      own = own;
                    }
                | inr short ↦ absurd (returned_none (rw (room, send_m2, e, short) at h))
              ]
            ]
      ]

  receive_m1_lem :
      (pass padding key nonce_a session_key : List ℕ) (m1 : Received) (w : W)
      → Ends (receive_m1 c os pass padding key nonce_a (m1, w)) session_key
      → (nonce_b : List ℕ) × (m1 ≡ bytes nonce_b)
        × (length nonce_b ≡ c.key_length)
        × Answered key pass padding nonce_a nonce_b session_key w
  unfolding receive_m1
  receive_m1_lem pass padding key nonce_a session_key failed w h = absurd (returned_none h)
  receive_m1_lem pass padding key nonce_a session_key (bytes nonce_b) w h =
      elim (Bool-cases (nat_beq (length nonce_b) c.key_length)) [
        | inl sized ↦ (
          nonce_b,
          refl,
          (nat_beq_iff (length nonce_b) c.key_length).0 sized,
          send_m2_lem pass padding key nonce_a nonce_b session_key w (rw (sized, receive_m1) at h),
        )
        | inr short ↦ absurd (returned_none (rw (short, receive_m1) at h))
      ]

  Answered-sent_m2 :
      (key nonce_a : List ℕ) (sent : Bool) (w : W)
      → sent ≡ true
      → (recv_secure c os key w).0 ≡ plain (key ++ nonce_a)
      → Ends (sent_m2 c os key nonce_a (sent, w)) key
  unfolding sent_m2 check_m3
  Answered-sent_m2 key nonce_a true w h answer =
      ap (λ p. (check_m3 c os key nonce_a (p, (recv_secure c os key w).1)).0) answer
      ∙ rw (==_refl (key ++ nonce_a)) refl
  Answered-sent_m2 key nonce_a false w h answer = absurd cc

  Trusted-Ends :
      (pass nonce salt padding session_key : List ℕ) (w : W)
      → Trusted pass nonce salt padding session_key w
      → Ends (open_client c os pass nonce salt padding w) session_key
  unfolding open_client receive_m1 send_m2
  Trusted-Ends pass nonce salt padding session_key w t =
      let a = t.answered in
      rw (t.derived, open_client)
        (ap
            (λ m1.
              (receive_m1 c os pass padding session_key t.nonce_a
                (m1, (recv os c.key_length w).1)).0)
            t.challenge
          ∙ rw
              (
                (nat_beq_iff (length t.nonce_b) c.key_length).1 t.challenge_sized,
                a.room,
                a.encrypted,
                (nat_beq_iff (length a.m2) c.rsa_size).1 a.m2_sized,
              )
              (Answered-sent_m2 session_key t.nonce_a (send os a.m2 (recv os c.key_length w).1).0 _
                a.sent a.answer))

  Ends-Trusted :
      (pass nonce salt padding session_key : List ℕ) (w : W)
      → Ends (open_client c os pass nonce salt padding w) session_key
      → Trusted pass nonce salt padding session_key w
  unfolding open_client
  Ends-Trusted pass nonce salt padding session_key w h =
      elim (Option-cases (c.bytes_to_key salt pass nonce)) [
        | inl e ↦ absurd (returned_none (rw (e, open_client) at h))
        | inr ((key, nonce_a), e) ↦
            let (nonce_b, challenge, sized, answered) =
              receive_m1_lem pass padding key nonce_a session_key (recv os c.key_length w).0 _
                (rw (e, open_client) at h) in
            record {
              nonce_a = nonce_a;
              derived = e ∙ ap (λ k. some (k, nonce_a)) answered.own;
              nonce_b = nonce_b;
              challenge = challenge;
              challenge_sized = sized;
              answered =
                  subst
                    (λ k.
                      Answered k pass padding nonce_a nonce_b session_key
                        (recv os c.key_length w).1)
                    answered.own answered;
            }
      ]

  -- A client ends the handshake with a session key just when that is the key that it has derived, it has
  -- received a nonce of the length of a key, M2 with its key, both nonces and the passphrase fits into
  -- an RSA packet, was encrypted to one and was sent, and the packet that it received then deciphers,
  -- under its session key, to that key and its own nonce.
  pub open_client_lem :
      (pass nonce salt padding session_key : List ℕ) (w : W)
      → ((open_client c os pass nonce salt padding w).0 ≡ returns (some session_key))
        ↔ Trusted pass nonce salt padding session_key w
  open_client_lem pass nonce salt padding session_key w = (
    Ends-Trusted pass nonce salt padding session_key w,
    Trusted-Ends pass nonce salt padding session_key w,
  )
