-- ===== src/Secure/Endpoints.antt =====
-- Opening and accepting in src/socket/secure_socket.cpp, and the classes of src/socket/socket_server.cpp
-- and src/socket/socket_client.cpp on top of it. Key files and the functions of OpenSSL that read them
-- are the parameter `Ssl`.
use distributed_memory.Prelude.{
  ℕ, ◌-◌, ◌*◌, ◌%◌, ◌≡◌, ℤ, pos, negsuc, ltb_ℤ, Bool, true, false, Option, none, some, List, Text,
  leb, ltb, length, Outcome, returns, throws, undefined, ◌>>=◌, if◌then◌else◌,
}
use distributed_memory.Socket
use distributed_memory.Socket.{Socket}
use distributed_memory.Socket.Opening
use distributed_memory.Socket.Opening.{Kernel, Opened, os_of}
use distributed_memory.Secure
use distributed_memory.Secure.{Crypto}

-- `E` are the keys.
pub record Ssl (E : Type 0) : Type 0 where
  -- Whether `fopen` opens the file at a path, and the key that it holds.
  pub fopen : Text → Bool
  pub read_pubkey : Text → Option E
  pub read_privkey : Text → Option E
  -- EVP_MAX_KEY_LENGTH
  pub key_length : ℕ
  -- What the handshake does with a key, whose size is that of EVP_PKEY_size.
  pub crypto : E → Crypto
  pub key_length_lem : (e : E) → (crypto e).key_length ≡ key_length

-- SecureSocket, with `none` for null pointers and for members that have no value yet. The session key
-- is none until a handshake has ended with one.
pub record SecureSocket (E : Type 0) : Type 0 where
  pub socket : Socket
  pub pass : Text
  pub rsa_privkey : Option E
  pub rsa_pubkey : Option E
  pub rsa_size : Option ℕ
  pub session_key : Option (List ℕ)

-- SecureSocket::SecureSocket
abbrev pub create : {E : Type 0} → SecureSocket E
create = record {
  socket = Socket.create;
  pass = List.[];
  rsa_privkey = none;
  rsa_pubkey = none;
  rsa_size = none;
  session_key = none;
}

-- What a call returns, and what it leaves.
pub record Made (E K : Type 0) : Type 0 where
  pub result : Bool
  pub secure : SecureSocket E
  pub kernel : K

-- TCP_TIMEOUT
abbrev pub timeout : ℕ
timeout = 20

-- `(int) n` for a size.
unfoldable pub to_int : ℕ → ℤ
to_int n = let m = n % 4294967296 in if ltb m 2147483648 then pos m else negsuc (4294967295 - m)

-- `m - n` for two `int`s that are no less than 0.
unfoldable pub minus : ℕ → ℕ → ℤ
minus m n = if leb n m then pos (m - n) else negsuc (n - m - 1)

module _ {E : Type 0} (ssl : Ssl E) where
  -- SecureSocket::load_pubkey
  unfoldable pub load_pubkey : Text → SecureSocket E → Bool × SecureSocket E
  load_pubkey path s =
      if ssl.fopen path
      then elim (ssl.read_pubkey path) [
        | none ↦ (false, record s { rsa_pubkey = none })
        | some e ↦ (true, record s { rsa_pubkey = some e; rsa_size = some (ssl.crypto e).rsa_size })
      ]
      else (false, s)

  -- SecureSocket::load_privkey
  unfoldable pub load_privkey : Text → SecureSocket E → Bool × SecureSocket E
  load_privkey path s =
      if ssl.fopen path
      then elim (ssl.read_privkey path) [
        | none ↦ (false, record s { rsa_privkey = none })
        | some e ↦
            (true, record s { rsa_privkey = some e; rsa_size = some (ssl.crypto e).rsa_size })
      ]
      else (false, s)

  -- The test of `open_server` on the passphrase: M2 with it must not be longer than an RSA packet.
  unfoldable pub take_pass : Text → SecureSocket E → ℕ → Bool × SecureSocket E
  unfolding to_int minus
  take_pass pass s size =
      if ltb_ℤ (minus size (3 * ssl.key_length)) (to_int (length pass))
      then (false, s)
      else (true, record s { pass = pass })

  module _ {K : Type 0} (kernel : Kernel K) where
    abbrev pub made : K → Bool × SecureSocket E → Made E K
    made k (b, s) = record { result = b; secure = s; kernel = k }

    unfoldable pub with_privkey : Text → K → Bool × SecureSocket E → Outcome (Made E K)
    unfolding take_pass
    with_privkey pass k (false, s) = returns (made k (false, s))
    with_privkey pass k (true, s) = elim s.rsa_size [
      | none ↦ undefined
      | some size ↦ returns (made k (take_pass pass s size))
    ]

    -- The rest of `open_server`, with what Socket::open_server returns.
    unfoldable pub listening :
        (privkey pass : Text) → SecureSocket E → Bool → K → Outcome (Made E K)
    unfolding load_privkey with_privkey
    listening privkey pass s true k = with_privkey pass k (load_privkey privkey s)
    listening privkey pass s false k = returns (made k (false, s))

    -- SecureSocket::open_server
    unfoldable pub open_server :
        (port privkey pass : Text) → SecureSocket E → K → Outcome (Made E K)
    unfolding listening
    open_server port privkey pass s k = Opening.open_server kernel port s.socket k >>= λ o.
        listening privkey pass (record s { socket = o.socket }) o.result o.kernel

    -- How the handshake of `open_client` ends, or of `accept` for the accepted socket.
    abbrev pub with_session : SecureSocket E → Option (List ℕ) → Bool × SecureSocket E
    with_session s none = (false, s)
    with_session s (some session_key) = (true, record s { session_key = some session_key })

    unfoldable pub with_pubkey :
        (pass nonce salt padding : List ℕ) → K → Bool × SecureSocket E → Outcome (Made E K)
    with_pubkey pass nonce salt padding k (false, s) = returns (made k (false, s))
    with_pubkey pass nonce salt padding k (true, s) = elim s.rsa_pubkey [
      | none ↦ undefined
      | some e ↦
          let (session, k') =
            Secure.open_client (ssl.crypto e) (os_of kernel s.socket) pass nonce salt padding k in
          session >>= λ key. returns (made k' (with_session (record s { pass = pass }) key))
    ]

    -- The rest of `open_client`, with what Socket::open_client returns.
    unfoldable pub connected :
        (pubkey : Text) (pass nonce salt padding : List ℕ)
        → SecureSocket E
        → Bool
        → K
        → Outcome (Made E K)
    unfolding load_pubkey with_pubkey
    connected pubkey pass nonce salt padding s true k =
        with_pubkey pass nonce salt padding k (load_pubkey pubkey s)
    connected pubkey pass nonce salt padding s false k = returns (made k (false, s))

    -- SecureSocket::open_client, with the bytes that it draws.
    unfoldable pub open_client :
        (host port pubkey : Text) (pass nonce salt padding : List ℕ)
        → SecureSocket E
        → K
        → Outcome (Made E K)
    unfolding connected
    open_client host port pubkey pass nonce salt padding s k =
        Opening.open_client kernel host port s.socket k >>= λ o.
        connected pubkey pass nonce salt padding (record s { socket = o.socket }) o.result o.kernel

    -- The rest of `accept`, with what Socket::accept returns.
    unfoldable pub accepted :
        SecureSocket E → (nonce_b : List ℕ) → SecureSocket E → Bool → K → Outcome (Made E K)
    accepted listener nonce_b s true k = elim listener.rsa_privkey [
      | none ↦ undefined
      | some e ↦
          let (session, k') =
            Secure.accept (ssl.crypto e) (os_of kernel s.socket) listener.pass nonce_b k in
          returns (made k' (with_session s session))
    ]
    accepted listener nonce_b s false k = returns (made k (false, s))

    -- SecureSocket::accept of a listening socket, into another one, with the nonce that it draws.
    unfoldable pub accept :
        SecureSocket E → (nonce_b : List ℕ) → SecureSocket E → K → Outcome (Made E K)
    unfolding accepted
    accept listener nonce_b s k =
        let o = Opening.accept kernel listener.socket s.socket k in
        accepted listener nonce_b (record s { socket = o.socket }) o.result o.kernel

    -- An object whose constructor throws is destroyed as far as it was made: its socket is closed.
    unfoldable pub unless_throws : Made E K → Outcome (SecureSocket E) × K
    unless_throws m =
        if m.result
        then (returns m.secure, m.kernel)
        else (throws, Opening.destroy kernel m.secure.socket m.kernel)

    -- SocketServer::SocketServer
    unfoldable pub make_server :
        (port privkey pass : Text) → K → Outcome (Outcome (SecureSocket E) × K)
    unfolding open_server unless_throws
    make_server port privkey pass k =
        open_server port privkey pass create k >>= λ m. returns (unless_throws m)

    abbrev pub with_timeout : Made E K → Made E K
    with_timeout m =
        if m.result
        then record m { kernel = Opening.set_timeout kernel timeout m.secure.socket m.kernel }
        else m

    -- SocketClient::SocketClient
    unfoldable pub make_client :
        (host port pubkey : Text) (pass nonce salt padding : List ℕ)
        → K
        → Outcome (Outcome (SecureSocket E) × K)
    unfolding open_client unless_throws
    make_client host port pubkey pass nonce salt padding k =
        open_client host port pubkey pass nonce salt padding create k >>= λ m.
        returns (unless_throws (with_timeout m))

    -- SocketServer::accept
    unfoldable pub accept_or_throw :
        SecureSocket E
        → (nonce_b : List ℕ) → SecureSocket E
        → K
        → Outcome (Outcome (Unit {0}) × Made E K)
    unfolding accept
    accept_or_throw listener nonce_b s k =
        accept listener nonce_b s k >>= λ m. returns (if m.result then returns tt else throws, m)
