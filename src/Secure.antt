-- ===== src/Secure.antt =====
-- src/socket/secure_socket.cpp: the encrypted packets and the handshake. OpenSSL is the parameter
-- `Crypto`; random bytes are arguments of the functions that use them.
pub mod Packets
pub mod Agreement
pub mod BothSides
pub mod Clients
pub mod Endpoints
pub mod Connections
pub mod Constructors
pub mod Passphrases
use distributed_memory.Prelude.{
  ℕ, ◌+◌, ◌*◌, ◌/◌, ◌%◌, ℤ, pos, int_key, text_key, Bool, true, false, ◌&&◌, Option, none, some,
  List, [], ◌∷◌, ◌++◌, Text, ◌==◌, ltb, nat_beq, length, take, drop, Outcome, returns, throws,
  undefined, if◌then◌else◌,
}
use distributed_memory.Prelude.Words.{word_bytes, word_of}
use distributed_memory.Socket.{Os, Received, failed, bytes, send, recv}

pub record Crypto : Type 0 where
  -- EVP_MAX_KEY_LENGTH, and the size of an RSA packet
  pub key_length : ℕ
  pub rsa_size : ℕ
  -- EVP_CipherUpdate and EVP_CipherFinal_ex for an operation, true for ENCRYPT, under a key: what they
  -- write
  pub cipher_update : Bool → List ℕ → List ℕ → List ℕ
  pub cipher_final : Bool → List ℕ → List ℕ → List ℕ
  -- EVP_BytesToKey on salt, passphrase and what the buffer of the nonce holds: the session key and
  -- what the buffer holds then, `none` for an error
  pub bytes_to_key : List ℕ → List ℕ → List ℕ → Option (List ℕ × List ℕ)
  -- RSA_public_encrypt with some random RSA_PKCS1_PADDING, and RSA_private_decrypt; `none` for -1, as
  -- for what is too long for a packet with its padding (`IsPadded` of Secure/Passphrases)
  pub public_encrypt : List ℕ → List ℕ → Option (List ℕ)
  pub private_decrypt : List ℕ → Option (List ℕ)

-- SecureSocket::cipher
unfoldable pub cipher : Crypto → Bool → List ℕ → List ℕ → List ℕ
cipher c operation session_key input =
    c.cipher_update operation session_key input ++ c.cipher_final operation session_key input

abbrev pub encipher : Crypto → List ℕ → List ℕ → List ℕ
encipher c = cipher c true

abbrev pub decipher : Crypto → List ℕ → List ℕ → List ℕ
decipher c = cipher c false

-- What `recv_secure` returns: 0, -1, or the number of bytes that it has deciphered. A size of 2^31
-- or more is negative as an `int`, and the buffer is then overrun.
pub data Packet : Type 0 where
  disconnected : Packet
  broken : Packet
  plain : List ℕ → Packet
  overrun : Packet

module _ (c : Crypto) {W : Type 0} (os : Os W) where
  unfoldable pub send_second : List ℕ → Bool × W → Bool × W
  send_second encrypted (true, w) = send os encrypted w
  send_second encrypted (false, w) = (false, w)

  -- SecureSocket::send_secure
  unfoldable pub send_secure : List ℕ → List ℕ → W → Bool × W
  unfolding send_second
  send_secure session_key input w =
      let encrypted = encipher c session_key input in
      send_second encrypted (send os (word_bytes (length encrypted)) w)

  -- The second part of `recv_secure`, with what `recv` gave for a packet of `size` bytes.
  unfoldable pub recv_body : List ℕ → ℕ → Received × W → Packet × W
  recv_body session_key size (failed, w) = (broken, w)
  recv_body session_key size (bytes [], w) = (disconnected, w)
  recv_body session_key size (bytes (b ∷ bs), w) = (
    if nat_beq (length (b ∷ bs)) size then plain (decipher c session_key (b ∷ bs)) else broken,
    w,
  )

  unfoldable pub recv_sized : List ℕ → ℕ → W → Packet × W
  unfolding recv_body
  recv_sized session_key size w =
      if ltb size 2147483648 then recv_body session_key size (recv os size w) else (overrun, w)

  -- The first part, with what `recv` gave for the four bytes of the size.
  unfoldable pub recv_size : List ℕ → Received × W → Packet × W
  unfolding recv_sized
  recv_size session_key (failed, w) = (broken, w)
  recv_size session_key (bytes [], w) = (disconnected, w)
  recv_size session_key (bytes (b ∷ bs), w) =
      if nat_beq (length (b ∷ bs)) 4
      then recv_sized session_key (word_of (b ∷ bs)) w
      else (broken, w)

  -- SecureSocket::recv_secure
  unfoldable pub recv_secure : List ℕ → W → Packet × W
  unfolding recv_size
  recv_secure session_key w = recv_size session_key (recv os 4 w)

  -- SecureSocket::operator<<
  unfoldable pub put_text : List ℕ → Text → W → Outcome (Unit {0}) × W
  unfolding send_secure
  put_text session_key s w =
      let (sent, w') = send_secure session_key s w in (if sent then returns tt else throws, w')

  unfoldable pub text_of : Packet → Outcome Text
  text_of disconnected = throws
  text_of broken = throws
  text_of (plain []) = throws
  text_of (plain (b ∷ bs)) = returns (b ∷ bs)
  text_of overrun = undefined

  -- SecureSocket::operator>>
  unfoldable pub get_text : List ℕ → W → Outcome Text × W
  unfolding recv_secure text_of
  get_text session_key w = let (packet, w') = recv_secure session_key w in (text_of packet, w')

  -- The end of `open_client`: M3 has to be the session key and the client's nonce.
  unfoldable pub check_m3 : List ℕ → List ℕ → Packet × W → Outcome (Option (List ℕ)) × W
  check_m3 session_key nonce_a (plain m, w) =
      (returns (if m == session_key ++ nonce_a then some session_key else none), w)
  check_m3 session_key nonce_a (overrun, w) = (undefined, w)
  check_m3 session_key nonce_a (_, w) = (returns none, w)

  unfoldable pub sent_m2 : List ℕ → List ℕ → Bool × W → Outcome (Option (List ℕ)) × W
  unfolding recv_secure check_m3
  sent_m2 session_key nonce_a (true, w) = check_m3 session_key nonce_a (recv_secure session_key w)
  sent_m2 session_key nonce_a (false, w) = (returns none, w)

  -- M2 is put together in a buffer of the size of an RSA packet, past whose end the behaviour is
  -- undefined; whether it also fits into a packet with its padding is for `public_encrypt` to say.
  unfoldable pub send_m2 :
      List ℕ → List ℕ → List ℕ → List ℕ → List ℕ → W → Outcome (Option (List ℕ)) × W
  unfolding sent_m2
  send_m2 pass padding session_key nonce_a nonce_b w =
      if ltb c.rsa_size (3 * c.key_length + length pass)
      then (undefined, w)
      else elim (c.public_encrypt padding (session_key ++ (nonce_a ++ (nonce_b ++ pass)))) [
        | none ↦ (returns none, w)
        | some encrypted ↦
            if nat_beq (length encrypted) c.rsa_size
            then sent_m2 session_key nonce_a (send os encrypted w)
            else (returns none, w)
      ]

  unfoldable pub receive_m1 :
      List ℕ → List ℕ → List ℕ → List ℕ → Received × W → Outcome (Option (List ℕ)) × W
  unfolding send_m2
  receive_m1 pass padding session_key nonce_a (failed, w) = (returns none, w)
  receive_m1 pass padding session_key nonce_a (bytes nonce_b, w) =
      if nat_beq (length nonce_b) c.key_length
      then send_m2 pass padding session_key nonce_a nonce_b w
      else (returns none, w)

  -- SecureSocket::open_client, from the generation of the session key on: the session key, `none`
  -- for false.
  unfoldable pub open_client :
      (pass nonce salt padding : List ℕ) → W → Outcome (Option (List ℕ)) × W
  unfolding receive_m1
  open_client pass nonce salt padding w = elim (c.bytes_to_key salt pass nonce) [
    | none ↦ (returns none, w)
    | some (session_key, nonce_a) ↦
        receive_m1 pass padding session_key nonce_a (recv os c.key_length w)
  ]

  -- The comparisons of `accept` on the M2 that was decrypted.
  unfoldable pub is_m2 : List ℕ → List ℕ → List ℕ → Bool
  is_m2 pass nonce_b m =
      nat_beq (length m) (3 * c.key_length + length pass)
      && (take c.key_length (drop (2 * c.key_length) m) == nonce_b
          && drop (3 * c.key_length) m == pass)

  unfoldable pub send_m3 : List ℕ → W → Option (List ℕ) × W
  unfolding send_secure
  send_m3 m w =
      let (sent, w') = send_secure (take c.key_length m) (take (2 * c.key_length) m) w in
      (if sent then some (take c.key_length m) else none, w')

  unfoldable pub receive_m2 : List ℕ → List ℕ → Received × W → Option (List ℕ) × W
  unfolding is_m2 send_m3
  receive_m2 pass nonce_b (failed, w) = (none, w)
  receive_m2 pass nonce_b (bytes encrypted, w) =
      if nat_beq (length encrypted) c.rsa_size
      then elim (c.private_decrypt encrypted) [
        | none ↦ (none, w)
        | some m ↦ if is_m2 pass nonce_b m then send_m3 m w else (none, w)
      ]
      else (none, w)

  unfoldable pub sent_m1 : List ℕ → List ℕ → Bool × W → Option (List ℕ) × W
  unfolding receive_m2
  sent_m1 pass nonce_b (true, w) = receive_m2 pass nonce_b (recv os c.rsa_size w)
  sent_m1 pass nonce_b (false, w) = (none, w)

  -- SecureSocket::accept, from the connection on, with the nonce that it draws.
  unfoldable pub accept : (pass nonce_b : List ℕ) → W → Option (List ℕ) × W
  unfolding sent_m1
  accept pass nonce_b w = sent_m1 pass nonce_b (send os nonce_b w)
