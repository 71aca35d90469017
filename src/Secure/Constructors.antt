-- ===== src/Secure/Constructors.antt =====
-- What the constructors of src/socket/socket_server.cpp and src/socket/socket_client.cpp leave of the
-- descriptors of the process.
use distributed_memory.Prelude.{
  ℕ, ◌≡◌, refl, sym, ap, subst, arith, ℤ, negsuc, int_key, Bool, true, false, Bool-cases,
  Option-cases, ◌⊎◌, inl, inr, Option, none, some, List, Text, ◌==◌, not, Outcome, returns, throws,
  undefined, ◌>>=◌, Ensures, Ensures-bind,
}
use distributed_memory.Socket
use distributed_memory.Socket.{Socket, is_valid}
use distributed_memory.Socket.Opening
use distributed_memory.Socket.Opening.{Kernel, Opened, os_of}
use distributed_memory.Socket.Resources.{
  Descriptors, Balanced, behind, closed-Balanced, open_client_lem, open_server_lem,
}
use distributed_memory.Secure
use distributed_memory.Secure.Connections.{open_client-keeps}
use distributed_memory.Secure.Endpoints.{
  Ssl, SecureSocket, create, Made, load_pubkey, load_privkey, take_pass, with_privkey, open_server,
  listening, connected, with_pubkey, made, with_session, with_timeout, open_client, unless_throws,
  make_server, make_client, timeout,
}

pub loaded_privkey :
    {E : Type 0} (ssl : Ssl E) (path : Text) (s : SecureSocket E)
    → ((s' : SecureSocket E) × (load_privkey ssl path s ≡ (false, s')) × (s'.socket ≡ s.socket))
      ⊎ ((e : E) × (load_privkey ssl path s
            ≡ (true, record s { rsa_privkey = some e; rsa_size = some (ssl.crypto e).rsa_size })))
unfolding load_privkey
loaded_privkey ssl path s = elim (Bool-cases (ssl.fopen path)) [
  | inr f ↦ inl (s, rw f refl, refl)
  | inl t ↦ elim (Option-cases (ssl.read_privkey path)) [
    | inl q ↦ inl (record s { rsa_privkey = none }, rw (t, q, load_privkey) refl, refl)
    | inr (e, q) ↦ inr (e, rw (t, q, load_privkey) refl)
  ]
]

loaded_pubkey :
    {E : Type 0} (ssl : Ssl E) (path : Text) (s : SecureSocket E)
    → ((s' : SecureSocket E) × (load_pubkey ssl path s ≡ (false, s')) × (s'.socket ≡ s.socket))
      ⊎ ((e : E) × (load_pubkey ssl path s
            ≡ (true, record s { rsa_pubkey = some e; rsa_size = some (ssl.crypto e).rsa_size })))
unfolding load_pubkey
loaded_pubkey ssl path s = elim (Bool-cases (ssl.fopen path)) [
  | inr f ↦ inl (s, rw f refl, refl)
  | inl t ↦ elim (Option-cases (ssl.read_pubkey path)) [
    | inl q ↦ inl (record s { rsa_pubkey = none }, rw (t, q, load_pubkey) refl, refl)
    | inr (e, q) ↦ inr (e, rw (t, q, load_pubkey) refl)
  ]
]

module _ {E K : Type 0} (ssl : Ssl E) (kernel : Kernel K) (d : Descriptors kernel) where
  -- A constructor that returns has opened the descriptor of its object and no other one; one that
  -- throws has left no descriptor open.
  abbrev pub IsClean : K → Outcome (SecureSocket E) × K → Type 0
  IsClean k (returns s, k') = Balanced kernel d k true s.socket k'
  IsClean k (throws, k') = (x : ℤ) → d.is_open k' x ≡ d.is_open k x
  IsClean k (undefined, k') = ⊥

  -- The socket is open, or invalid where the call has returned false.
  abbrev pub Settled : K → Made E K → Type 0
  Settled k m =
      Balanced kernel d k true m.secure.socket m.kernel
      ⊎ ((m.result ≡ false) × Balanced kernel d k false m.secure.socket m.kernel)

  pub unless_throws-IsClean :
      (k : K) (m : Made E K) → Settled k m → IsClean k (unless_throws ssl kernel m)
  unfolding unless_throws Opening.destroy
  unless_throws-IsClean k m (inl h) = elim (Bool-cases m.result) [
    | inl t ↦ rw t h
    | inr f ↦ rw f (closed-Balanced kernel d k m.secure.socket m.kernel h).1
  ]
  unless_throws-IsClean k m (inr (f, h)) =
      rw f (λ x. (unfold Opening.close in rw (ap (λ fd. not (fd == negsuc 0)) h.0) (h.1 x)))

  take_pass-socket :
      (pass : Text) (s : SecureSocket E) (size : ℕ)
      → (take_pass ssl pass s size).1.socket ≡ s.socket
  unfolding take_pass
  take_pass-socket pass s size = ground arith

  -- The two that hold the socket that was opened, if with another result.
  kept_socket :
      (k : K) (b : Bool) (s t : SecureSocket E) (k' : K)
      → t.socket ≡ s.socket
      → Balanced kernel d k true s.socket k'
      → Settled k (record { result = b; secure = t; kernel = k' })
  kept_socket k b s t k' same h =
      inl (subst (λ socket. Balanced kernel d k true socket k') (sym same) h)

  listening-Settled :
      (k : K) (privkey pass : Text) (s : SecureSocket E) (b : Bool) (k' : K)
      → Balanced kernel d k b s.socket k'
      → (m : Made E K) × (listening ssl kernel privkey pass s b k' ≡ returns m) × Settled k m
  unfolding listening with_privkey
  listening-Settled k privkey pass s false k' h =
      (record { result = false; secure = s; kernel = k' }, refl, inr (refl, h))
  listening-Settled k privkey pass s true k' h = elim (loaded_privkey ssl privkey s) [
    | inl (t, q, same) ↦ (
      record { result = false; secure = t; kernel = k' },
      ap (with_privkey ssl kernel pass k') q,
      kept_socket k false s t k' same h,
    )
    | inr (e, q) ↦
        let size = (ssl.crypto e).rsa_size in
        let s' : SecureSocket E = record s { rsa_privkey = some e; rsa_size = some size } in
        let r = take_pass ssl pass s' size in
        (
          record { result = r.0; secure = r.1; kernel = k' },
          ap (with_privkey ssl kernel pass k') q,
          kept_socket k r.0 s r.1 k' (take_pass-socket pass s' size) h,
        )
  ]

  -- Where the addresses of the own host can be found, the constructor of a SocketServer returns or throws.
  -- Where it returns, the object's socket is valid, its descriptor is new, and is the only one that has
  -- been opened; where it throws, whatever the reason is, no descriptor is left open that was not before.
  pub make_server_lem :
      (port privkey pass : Text) (k : K) (addresses : List Text)
      → (kernel.getaddrinfo none port k).0 ≡ some addresses
      → (r : Outcome (SecureSocket E) × K) × (make_server ssl kernel port privkey pass k
          ≡ returns r)
        × IsClean k r
  unfolding make_server open_server
  make_server_lem port privkey pass k addresses resolved =
      let (o, ran, h) = open_server_lem kernel d port Socket.create k addresses refl resolved in
      let (m, e, settled) =
        listening-Settled k privkey pass (record create { socket = o.socket }) o.result o.kernel
          h in
      (
        unless_throws ssl kernel m,
        rw (make_server, open_server, ran) (rw e refl),
        unless_throws-IsClean k m settled,
      )

  -- The handshake opens and closes nothing.
  handshake-keeps :
      (k : K) (socket : Socket) (e : E) (pass nonce salt padding : List ℕ) (k' : K)
      → Balanced kernel d k true socket k'
      → Balanced kernel d k true socket
          (Secure.open_client (ssl.crypto e) (os_of kernel socket) pass nonce salt padding k').1
  handshake-keeps k socket e pass nonce salt padding k' h =
      open_client-keeps (os_of kernel socket) (Balanced kernel d k true socket)
        (λ bs w p.
          behind kernel d k socket w (kernel.send socket.sockfd bs w).1
            (d.send_keeps socket.sockfd bs w) p)
        (λ n w p.
          behind kernel d k socket w (kernel.recv socket.sockfd n w).1
            (d.recv_keeps socket.sockfd n w) p)
        (ssl.crypto e) pass nonce salt padding k' h

  with_pubkey-Settled :
      (k : K) (pass nonce salt padding : List ℕ) (s : SecureSocket E) (e : E) (k' : K)
      → Balanced kernel d k true s.socket k'
      → Ensures (Settled k) (
          with_pubkey ssl kernel pass nonce salt padding k'
            (true, record s { rsa_pubkey = some e }))
  unfolding with_pubkey
  with_pubkey-Settled k pass nonce salt padding s e k' h =
      ends (Secure.open_client (ssl.crypto e) (os_of kernel s.socket) pass nonce salt padding k')
        (handshake-keeps k s.socket e pass nonce salt padding k' h)
    where
      ends :
          (r : Outcome (Option (List ℕ)) × K)
          → Balanced kernel d k true s.socket r.1
          → Ensures (Settled k) (
              r.0 >>= λ key. returns (
                made ssl kernel r.1
                  (with_session ssl kernel (record s { rsa_pubkey = some e; pass = pass }) key)))
      ends (returns none, w) h = inl h
      ends (returns (some key), w) h = inl h
      ends (throws, w) h = tt
      ends (undefined, w) h = tt

  connected-Settled :
      (k : K) (pubkey : Text) (pass nonce salt padding : List ℕ) (s : SecureSocket E) (b : Bool)
      (k' : K)
      → Balanced kernel d k b s.socket k'
      → Ensures (Settled k) (connected ssl kernel pubkey pass nonce salt padding s b k')
  unfolding connected
  connected-Settled k pubkey pass nonce salt padding s false k' h = inr (refl, h)
  connected-Settled k pubkey pass nonce salt padding s true k' h =
      elim (loaded_pubkey ssl pubkey s) [
        | inl (t, q, same) ↦ unfold with_pubkey in rw q (kept_socket k false s t k' same h)
        | inr (e, q) ↦ rw q (
            with_pubkey-Settled k pass nonce salt padding
              (record s { rsa_size = some (ssl.crypto e).rsa_size }) e k' h)
      ]

  with_timeout-Settled :
      (k : K) (b : Bool) (s : SecureSocket E) (k' : K)
      → Settled k (record { result = b; secure = s; kernel = k' })
      → Settled k (with_timeout ssl kernel (record { result = b; secure = s; kernel = k' }))
  unfolding Opening.set_timeout
  with_timeout-Settled k false s k' h = h
  with_timeout-Settled k true s k' (inl h) = inl (
      behind kernel d k s.socket k' (kernel.set_timeout timeout s.socket.sockfd k')
        (d.set_timeout_keeps timeout s.socket.sockfd k') h)
  with_timeout-Settled k true s k' (inr (f, h)) = cc

  -- Where the addresses of the host can be found and no undefined behaviour is met, the constructor of a
  -- SocketClient leaves the descriptors as that of a SocketServer does: an open one for an object that was
  -- made, and none where it throws, also in the middle of the handshake.
  pub make_client_lem :
      (host port pubkey : Text) (pass nonce salt padding : List ℕ) (k : K) (addresses : List Text)
      → (kernel.getaddrinfo (some host) port k).0 ≡ some addresses
      → Ensures (IsClean k) (make_client ssl kernel host port pubkey pass nonce salt padding k)
  unfolding make_client open_client
  make_client_lem host port pubkey pass nonce salt padding k addresses resolved =
      let (o, ran, h) =
        open_client_lem kernel d host port Socket.create k addresses refl resolved in
      let s' : SecureSocket E = record create { socket = o.socket } in
      rw (make_client, open_client, ran)
        (Ensures-bind (Settled k) (IsClean k)
          (connected ssl kernel pubkey pass nonce salt padding s' o.result o.kernel)
          (λ m. returns (unless_throws ssl kernel (with_timeout ssl kernel m)))
          (connected-Settled k pubkey pass nonce salt padding s' o.result o.kernel h)
          (λ m settled.
            unless_throws-IsClean k (with_timeout ssl kernel m)
              (with_timeout-Settled k m.result m.secure m.kernel settled)))
