-- ===== src/Secure/Passphrases.antt =====
-- Which passphrases the constructor of src/socket/socket_server.cpp takes, and which of them a client of
-- src/socket/secure_socket.cpp can use.
use distributed_memory.Secure.Constructors.{loaded_privkey}
use distributed_memory.Prelude.{
  ℕ, ◌+◌, ◌*◌, ◌≤◌, ◌<◌, ◌≡◌, refl, sym, ◌∙◌, ◌++◌, List, Option, none, length-append, arith,
  int_key, Bool, true, false, ◌⊎◌, inl, inr, some, Text, length, Outcome, returns, throws,
  undefined, Ensures, Ensures-bind, ensured,
}
use distributed_memory.Socket
use distributed_memory.Socket.{Socket, is_valid}
use distributed_memory.Socket.Opening
use distributed_memory.Socket.Opening.{Kernel, Opened, os_of}
use distributed_memory.Secure.{Crypto, open_client}
use distributed_memory.Secure.Clients.{open_client_lem}
use distributed_memory.Socket.{Os}
use distributed_memory.Secure.Endpoints.{
  Ssl, SecureSocket, create, Made, take_pass, with_privkey, open_server, listening, made,
  unless_throws, make_server, to_int, minus,
}

Ensures-nothing : {A : Type 0} (m : Outcome A) → Ensures (λ (a : A). Unit {0}) m
Ensures-nothing (returns a) = tt
Ensures-nothing throws = tt
Ensures-nothing undefined = tt

-- RSA_PKCS1_PADDING takes 11 bytes of a packet, and EVP_BytesToKey gives a key and a nonce of the length
-- of a key.
pub record IsPadded (c : Crypto) : Type 0 where
  pub too_long :
      (padding m : List ℕ) → c.rsa_size < length m + 11 → c.public_encrypt padding m ≡ none
  pub derives :
      (salt pass nonce session_key nonce_a : List ℕ)
      → c.bytes_to_key salt pass nonce ≡ some (session_key, nonce_a)
      → (length session_key ≡ c.key_length) × (length nonce_a ≡ c.key_length)

module _ {E K : Type 0} (ssl : Ssl E) (kernel : Kernel K) where
  -- The test is true of just the passphrases that there is room for.
  takes :
      (pass : Text) (s : SecureSocket E) (size : ℕ)
      → length pass < 2147483648
      → ((take_pass ssl pass s size).0 ≡ false)
        ⊎ ((take_pass ssl pass s size ≡ (true, record s { pass = pass }))
            × (3 * ssl.key_length + length pass ≤ size))
  unfolding take_pass to_int minus
  takes pass s size h = ground (arith, h)

  -- The passphrase was taken, with room for it in a packet of the private key.
  abbrev HasRoom : Text → SecureSocket E → Type 0
  HasRoom pass s =
      (e : E) × (s.rsa_privkey ≡ some e)
      × (s.pass ≡ pass)
      × (3 * ssl.key_length + length pass ≤ (ssl.crypto e).rsa_size)

  abbrev RoomIfMade : Text → Made E K → Type 0
  RoomIfMade pass m = m.result ≡ true → HasRoom pass m.secure

  taken-RoomIfMade :
      (pass : Text) (s : SecureSocket E) (e : E) (k : K)
      → s.rsa_privkey ≡ some e
      → length pass < 2147483648
      → RoomIfMade pass (made ssl kernel k (take_pass ssl pass s (ssl.crypto e).rsa_size))
  taken-RoomIfMade pass s e k key h t = elim (takes pass s (ssl.crypto e).rsa_size h) [
    | inl f ↦ cc
    | inr (q, room) ↦ rw q (e, key, refl, room)
  ]

  listening-RoomIfMade :
      (privkey pass : Text) (s : SecureSocket E) (b : Bool) (k : K)
      → length pass < 2147483648
      → Ensures (RoomIfMade pass) (listening ssl kernel privkey pass s b k)
  unfolding listening with_privkey
  listening-RoomIfMade privkey pass s false k h = λ e. cc
  listening-RoomIfMade privkey pass s true k h = elim (loaded_privkey ssl privkey s) [
    | inl (t, q, same) ↦ rw q (λ e. cc)
    | inr (e, q) ↦ rw q (
        taken-RoomIfMade pass
          (record s { rsa_privkey = some e; rsa_size = some (ssl.crypto e).rsa_size }) e k refl h)
  ]

  abbrev RoomIfReturned : Text → Outcome (SecureSocket E) × K → Type 0
  RoomIfReturned pass (returns s, k) = HasRoom pass s
  RoomIfReturned pass (throws, k) = Unit
  RoomIfReturned pass (undefined, k) = Unit

  returned-room :
      (pass : Text) (b : Bool) (s : SecureSocket E) (k : K)
      → RoomIfMade pass (record { result = b; secure = s; kernel = k })
      → RoomIfReturned pass
          (unless_throws ssl kernel (record { result = b; secure = s; kernel = k }))
  unfolding unless_throws
  returned-room pass true s k h = h refl
  returned-room pass false s k h = tt

  make_server-room :
      (port privkey pass : Text) (k : K)
      → length pass < 2147483648
      → Ensures (RoomIfReturned pass) (make_server ssl kernel port privkey pass k)
  unfolding make_server open_server
  make_server-room port privkey pass k h =
      Ensures-bind (RoomIfMade pass) (RoomIfReturned pass)
        (open_server ssl kernel port privkey pass create k)
        (λ m. returns (unless_throws ssl kernel m))
        (Ensures-bind (λ (o : Opened K). Unit {0}) (RoomIfMade pass)
          (Opening.open_server kernel port Socket.create k)
          (λ o.
            listening ssl kernel privkey pass (record create { socket = o.socket }) o.result
              o.kernel)
          (Ensures-nothing (Opening.open_server kernel port Socket.create k))
          (λ o u.
            listening-RoomIfMade privkey pass (record create { socket = o.socket }) o.result
              o.kernel h))
        (λ m room. returned-room pass m.result m.secure m.kernel room)

  -- A SocketServer that could be made holds a private key, and has taken its passphrase: what a client
  -- encrypts in the handshake, the passphrase behind three times the length of a session key, is no
  -- longer than a packet of that key. This holds for passphrases of less than 2^31 bytes.
  pub make_server_room :
      (port privkey pass : Text) (k k' : K) (s : SecureSocket E)
      → length pass < 2147483648
      → make_server ssl kernel port privkey pass k ≡ returns (returns s, k')
      → (e : E) × (s.rsa_privkey ≡ some e)
        × (s.pass ≡ pass)
        × (3 * ssl.key_length + length pass ≤ (ssl.crypto e).rsa_size)
  make_server_room port privkey pass k k' s h made_it =
      ensured (RoomIfReturned pass) _ (returns s, k') made_it
        (make_server-room port privkey pass k h)

none_ne_some : {m : List ℕ} → ¬ (◌≡◌ {A = Option (List ℕ)} none (some m))
none_ne_some e = cc

-- What a client would encrypt is longer than what the padding leaves room for.
not_encrypted :
    (c : Crypto) (padding session_key nonce_a nonce_b pass m2 : List ℕ)
    → IsPadded c
    → c.rsa_size < 3 * c.key_length + length pass + 11
    → length session_key ≡ c.key_length
    → length nonce_a ≡ c.key_length
    → length nonce_b ≡ c.key_length
    → ¬ (c.public_encrypt padding (session_key ++ (nonce_a ++ (nonce_b ++ pass))) ≡ some m2)
not_encrypted c padding session_key nonce_a nonce_b pass m2 padded long k a b e =
    none_ne_some
      (sym (padded.too_long padding (session_key ++ (nonce_a ++ (nonce_b ++ pass))) larger) ∙ e)
  where
    larger : c.rsa_size < length (session_key ++ (nonce_a ++ (nonce_b ++ pass))) + 11
    larger = omega (
      arith,
      long,
      k,
      a,
      b,
      length-append session_key (nonce_a ++ (nonce_b ++ pass)),
      length-append nonce_a (nonce_b ++ pass),
      length-append nonce_b pass,
    )

-- The server's test on the passphrase is too weak by the 11 bytes that the padding takes. A passphrase
-- that leaves less than 11 bytes of a packet of the server's key to the padding, and no less than none,
-- is taken by the server; but no client that encrypts with that key can end the handshake with a session
-- key, whatever the network does and whatever bytes are drawn. This is for passphrases of less than 2^31
-- bytes, where encryption fails for what does not fit with its padding, and where the derived keys and
-- nonces have the length of a key.
pub take_pass-IsPadded :
    {E W : Type 0} (ssl : Ssl E) (e : E) (s : SecureSocket E) (os : Os W)
    (pass nonce salt padding session_key : List ℕ) (w : W)
    → IsPadded (ssl.crypto e)
    → length pass < 2147483648
    → 3 * ssl.key_length + length pass ≤ (ssl.crypto e).rsa_size
    → (ssl.crypto e).rsa_size < 3 * ssl.key_length + length pass + 11
    → (take_pass ssl pass s (ssl.crypto e).rsa_size ≡ (true, record s { pass = pass }))
      × ¬ ((open_client (ssl.crypto e) os pass nonce salt padding w).0 ≡ returns (some session_key))
unfolding take_pass to_int minus
take_pass-IsPadded ssl e s os pass nonce salt padding session_key w padded short fits long = (
  ground (arith, short, fits),
  λ opened.
      let c = ssl.crypto e in
      let t = (open_client_lem c os pass nonce salt padding session_key w).0 opened in
      let (k, a) = padded.derives salt pass nonce session_key t.nonce_a t.derived in
      not_encrypted c padding session_key t.nonce_a t.nonce_b pass t.answered.m2 padded
        (omega (arith, long, ssl.key_length_lem e)) k a t.challenge_sized t.answered.encrypted,
)
