-- ===== src/Secure/Agreement.antt =====
-- The handshake of src/socket/secure_socket.cpp at a server: whom it accepts.
use distributed_memory.Prelude.{
  ℕ, ◌+◌, ◌*◌, ◌≡◌, ◌↔◌, refl, ◌∙◌, ap, arith, int_key, text_key, ==_iff, ==_refl, Bool, true,
  false, ◌&&◌, Option, none, some, List, length, take, drop, nat_beq, nat_beq_iff, if◌then◌else◌,
  Bool-cases, Option-cases, inl, inr,
}
use distributed_memory.Socket.{Os, Received, failed, bytes, send, recv}
use distributed_memory.Secure.{Crypto, send_secure, is_m2, send_m3, receive_m2, sent_m1, accept}

and_true : (a b : Bool) → (a && b) ≡ true → (a ≡ true) × (b ≡ true)
and_true a b h = ground arith

is_m2_lem :
    (c : Crypto) {W : Type 0} (os : Os W) (pass nonce_b m : List ℕ)
    → is_m2 c os pass nonce_b m ≡ true
    → (length m ≡ 3 * c.key_length + length pass)
      × (take c.key_length (drop (2 * c.key_length) m) ≡ nonce_b)
      × (drop (3 * c.key_length) m ≡ pass)
unfolding is_m2
is_m2_lem c os pass nonce_b m h =
    let (sized, others) = and_true _ _ h in
    let (challenge, secret) = and_true _ _ others in
    ((nat_beq_iff _ _).0 sized, (==_iff _ _).0 challenge, (==_iff _ _).0 secret)

if_some : (b : Bool) {x y : List ℕ} → (if b then some x else none) ≡ some y → (b ≡ true) × (x ≡ y)
if_some true h = (refl, cc)
if_some false h = absurd cc

none_ne_some : {x : List ℕ} → ¬ (◌≡◌ {A = Option (List ℕ)} none (some x))
none_ne_some h = cc

module _ (c : Crypto) {W : Type 0} (os : Os W) where
  -- What a server has received, as M2, from a client that it accepts, where `w` is the world after
  -- that, and what it has sent then.
  pub record Authentic (m2 : Received) (pass nonce_b session_key : List ℕ) (w : W) : Type 0 where
    pub encrypted : List ℕ
    pub received : m2 ≡ bytes encrypted
    pub encrypted_sized : length encrypted ≡ c.rsa_size
    pub message : List ℕ
    pub decrypted : c.private_decrypt encrypted ≡ some message
    pub sized : length message ≡ 3 * c.key_length + length pass
    pub challenge : take c.key_length (drop (2 * c.key_length) message) ≡ nonce_b
    pub secret : drop (3 * c.key_length) message ≡ pass
    pub key : take c.key_length message ≡ session_key
    pub answered :
        (send_secure c os (take c.key_length message) (take (2 * c.key_length) message) w).0 ≡ true

  receive_m2-Authentic :
      (pass nonce_b session_key : List ℕ) (m2 : Received) (w : W)
      → (receive_m2 c os pass nonce_b (m2, w)).0 ≡ some session_key
      → Authentic m2 pass nonce_b session_key w
  unfolding receive_m2 send_m3
  receive_m2-Authentic pass nonce_b session_key failed w h = absurd (none_ne_some h)
  receive_m2-Authentic pass nonce_b session_key (bytes encrypted) w h =
      elim (Bool-cases (nat_beq (length encrypted) c.rsa_size)) [
        | inl sized ↦ elim (Option-cases (c.private_decrypt encrypted)) [
          | inl e ↦ absurd (none_ne_some (rw (sized, receive_m2, e) at h))
          | inr (m, e) ↦ elim (Bool-cases (is_m2 c os pass nonce_b m)) [
            | inl good ↦
                let (lengths, challenge, secret) = is_m2_lem c os pass nonce_b m good in
                let (answered, key) = if_some _ (rw (sized, receive_m2, e, good) at h) in
                record {
                  encrypted = encrypted;
                  received = refl;
                  encrypted_sized = (nat_beq_iff (length encrypted) c.rsa_size).0 sized;
                  message = m;
                  decrypted = e;
                  sized = lengths;
                  challenge = challenge;
                  secret = secret;
                  key = key;
                  answered = answered;
                }
            | inr bad ↦ absurd (none_ne_some (rw (sized, receive_m2, e, bad) at h))
          ]
        ]
        | inr short ↦ absurd (none_ne_some (rw (short, receive_m2) at h))
      ]

  Authentic-receive_m2 :
      (pass nonce_b session_key : List ℕ) (m2 : Received) (w : W)
      → Authentic m2 pass nonce_b session_key w
      → (receive_m2 c os pass nonce_b (m2, w)).0 ≡ some session_key
  unfolding receive_m2 send_m3 is_m2
  Authentic-receive_m2 pass nonce_b session_key m2 w a =
      ap (λ m. (receive_m2 c os pass nonce_b (m, w)).0) a.received
      ∙ rw
          (
            (nat_beq_iff (length a.encrypted) c.rsa_size).1 a.encrypted_sized,
            a.decrypted,
            (nat_beq_iff (length a.message) (3 * c.key_length + length pass)).1 a.sized,
            a.challenge,
            a.secret,
            ==_refl nonce_b,
            ==_refl pass,
            a.answered,
          )
          (ap some a.key)

  -- The same from M1 on, which has been sent or not.
  sent_m1_lem :
      (pass nonce_b session_key : List ℕ) (sent : Bool) (w : W)
      → ((sent_m1 c os pass nonce_b (sent, w)).0 ≡ some session_key) ↔ (
          (sent ≡ true)
          × Authentic (recv os c.rsa_size w).0 pass nonce_b session_key (recv os c.rsa_size w).1)
  unfolding sent_m1
  sent_m1_lem pass nonce_b session_key true w = (
    λ h. (refl, receive_m2-Authentic pass nonce_b session_key _ _ h),
    λ a. Authentic-receive_m2 pass nonce_b session_key _ _ a.1,
  )
  sent_m1_lem pass nonce_b session_key false w = (λ h. absurd (none_ne_some h), λ a. absurd cc)

  -- A server accepts a connection, and gives it a session key, just when it has sent its nonce, and has
  -- then received an M2 of the size of an RSA packet that its private key decrypts to a message that
  -- begins with that key, and has that nonce and the passphrase in their places and no more, and the
  -- server has sent the first two parts of that message back under that key.
  pub accept_lem :
      (pass nonce_b session_key : List ℕ) (w : W)
      → ((accept c os pass nonce_b w).0 ≡ some session_key) ↔ (
          ((send os nonce_b w).0 ≡ true)
          × Authentic
              (recv os c.rsa_size (send os nonce_b w).1).0
              pass
              nonce_b
              session_key
              (recv os c.rsa_size (send os nonce_b w).1).1)
  unfolding accept
  accept_lem pass nonce_b session_key w =
      sent_m1_lem pass nonce_b session_key (send os nonce_b w).0 (send os nonce_b w).1
