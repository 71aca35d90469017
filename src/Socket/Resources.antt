-- ===== src/Socket/Resources.antt =====
-- Which descriptors are open when the functions of src/socket/socket.cpp that open a socket return.
use distributed_memory.Prelude.{
  ℕ, ◌≡◌, refl, sym, ap, subst, ◌∙◌, ℤ, pos, negsuc, int_key, Bool, true, false, not, ◌&&◌, ◌||◌,
  Option, none, some, List, [], ◌∷◌, Text, ◌==◌, ==_iff, Bool-cases, ◌⊎◌, inl, inr, returns,
  if◌then◌else◌,
}
use distributed_memory.Socket.{Socket, is_valid}
use distributed_memory.Socket.Opening
use distributed_memory.Socket.Opening.{
  Kernel, Opened, is_error, try_address, try_all, give_up, open_client, start_listening,
  open_server,
}

-- The descriptors of a kernel: `socket` opens one that was not open, or returns -1; `close` closes
-- one; no other call opens or closes any.
pub record Descriptors {K : Type 0} (kernel : Kernel K) : Type 0 where
  pub is_open : K → ℤ → Bool
  pub socket_opens :
      (k : K)
      → (((kernel.socket k).0 ≡ negsuc 0) × ((x : ℤ) → is_open (kernel.socket k).1 x ≡ is_open k x))
        ⊎ ((is_error (kernel.socket k).0 ≡ false)
            × (is_open k (kernel.socket k).0 ≡ false)
            × ((x : ℤ) → is_open (kernel.socket k).1 x ≡ ((kernel.socket k).0 == x || is_open k x)))
  pub getaddrinfo_keeps :
      (host : Option Text) (port : Text) (k : K) (x : ℤ)
      → is_open (kernel.getaddrinfo host port k).1 x ≡ is_open k x
  pub bind_keeps :
      (a : Text) (fd : ℤ) (k : K) (x : ℤ) → is_open (kernel.bind a fd k).1 x ≡ is_open k x
  pub connect_keeps :
      (a : Text) (fd : ℤ) (k : K) (x : ℤ) → is_open (kernel.connect a fd k).1 x ≡ is_open k x
  pub listen_keeps : (fd : ℤ) (k : K) (x : ℤ) → is_open (kernel.listen fd k).1 x ≡ is_open k x
  pub accept_opens :
      (fd : ℤ) (k : K)
      → (((kernel.accept fd k).0 ≡ negsuc 0)
          × ((x : ℤ) → is_open (kernel.accept fd k).1 x ≡ is_open k x))
        ⊎ ((is_error (kernel.accept fd k).0 ≡ false)
            × (is_open k (kernel.accept fd k).0 ≡ false)
            × ((x : ℤ)
                → is_open (kernel.accept fd k).1 x ≡ ((kernel.accept fd k).0 == x || is_open k x)))
  pub set_timeout_keeps :
      (seconds : ℕ) (fd : ℤ) (k : K) (x : ℤ)
      → is_open (kernel.set_timeout seconds fd k) x ≡ is_open k x
  pub send_keeps :
      (fd : ℤ) (bs : List ℕ) (k : K) (x : ℤ) → is_open (kernel.send fd bs k).1 x ≡ is_open k x
  pub recv_keeps : (fd : ℤ) (n : ℕ) (k : K) (x : ℤ) → is_open (kernel.recv fd n k).1 x ≡ is_open k x
  pub close_closes :
      (fd : ℤ) (k : K) (x : ℤ) → is_open (kernel.close fd k) x ≡ (not (fd == x) && is_open k x)

module _ {K : Type 0} (kernel : Kernel K) (d : Descriptors kernel) where
  -- Compared with the state `k`, the call has opened the socket's descriptor and no other one, if it
  -- returns true; and none at all otherwise, when the socket is invalid.
  abbrev pub Balanced : K → Bool → Socket → K → Type 0
  Balanced k true s k' =
      (is_valid s ≡ true)
      × (d.is_open k s.sockfd ≡ false)
      × ((x : ℤ) → d.is_open k' x ≡ (s.sockfd == x || d.is_open k x))
  Balanced k false s k' = (s.sockfd ≡ negsuc 0) × ((x : ℤ) → d.is_open k' x ≡ d.is_open k x)

  abbrev pub IsBalanced : K → Opened K → Type 0
  IsBalanced k o = Balanced k o.result o.socket o.kernel

  pub not_error-is_valid : (fd : ℤ) → is_error fd ≡ false → not (fd == negsuc 0) ≡ true
  not_error-is_valid (pos n) h = refl
  not_error-is_valid (negsuc n) h = cc

  -- A call that opens and closes nothing, before or after.
  pub before :
      (k k' : K) (b : Bool) (s : Socket) (k'' : K)
      → ((x : ℤ) → d.is_open k' x ≡ d.is_open k x)
      → Balanced k' b s k''
      → Balanced k b s k''
  before k k' true s k'' same (valid, fresh, opened) =
      (valid, sym (same s.sockfd) ∙ fresh, λ x. opened x ∙ ap (λ b. s.sockfd == x || b) (same x))
  before k k' false s k'' same (invalid, kept) = (invalid, λ x. kept x ∙ same x)

  pub behind :
      (k : K) (s : Socket) (k' k'' : K)
      → ((x : ℤ) → d.is_open k'' x ≡ d.is_open k' x)
      → Balanced k true s k'
      → Balanced k true s k''
  behind k s k' k'' same (valid, fresh, opened) = (valid, fresh, λ x. same x ∙ opened x)

  pub closed-Balanced :
      (k : K) (s : Socket) (k' : K)
      → Balanced k true s k'
      → Balanced k false (Opening.close kernel s k').socket (Opening.close kernel s k').kernel
  unfolding Opening.close
  closed-Balanced k s k' (valid, fresh, opened) =
      rw (valid, Opening.close) (refl, λ x. d.close_closes s.sockfd k' x ∙ undone x)
    where
      undone : (x : ℤ) → (not (s.sockfd == x) && d.is_open k' x) ≡ d.is_open k x
      undone x = rw (opened x) (elim (Bool-cases (s.sockfd == x)) [
        | inl same ↦ rw same (sym fresh ∙ ap (d.is_open k) ((==_iff s.sockfd x).0 same))
        | inr other ↦ rw other refl
      ])

  module _ (attempt : Text → ℤ → K → ℤ × K)
      (keeps : (a : Text) (fd : ℤ) (k : K) (x : ℤ)
        → d.is_open (attempt a fd k).1 x ≡ d.is_open k x) where
    try_address-IsBalanced :
        (address : Text) (s : Socket) (k : K)
        → IsBalanced k (try_address kernel attempt address s k)
    unfolding try_address
    try_address-IsBalanced address s k = elim (d.socket_opens k) [
      | inl (e, same) ↦ rw e (refl, same)
      | inr (ok, fresh, opened) ↦
          let (fd, k') = kernel.socket k in
          let used : Balanced k true (record s { sockfd = fd }) (attempt address fd k').1 =
            (not_error-is_valid fd ok, fresh, λ x. keeps address fd k' x ∙ opened x) in
          elim (Bool-cases (is_error (attempt address fd k').0)) [
            | inl bad ↦
                rw (ok, bad)
                  (closed-Balanced k (record s { sockfd = fd }) (attempt address fd k').1 used)
            | inr good ↦ rw (ok, good) used
          ]
    ]

    try_all-IsBalanced :
        (addresses : List Text) (s : Socket) (k : K)
        → s.sockfd ≡ negsuc 0
        → IsBalanced k (try_all kernel attempt addresses s k)
    unfolding try_all
    try_all-IsBalanced [] s k e = (e, λ x. refl)
    try_all-IsBalanced (address ∷ addresses) s k e =
        let tried = try_address kernel attempt address s k in
        let h : IsBalanced k tried = try_address-IsBalanced address s k in
        elim (Bool-cases tried.result) [
          | inl t ↦ rw t h
          | inr f ↦
              let (invalid, same) : Balanced k false tried.socket tried.kernel =
                subst (λ b. Balanced k b tried.socket tried.kernel) f h in
              rw f (
                before k tried.kernel
                  (try_all kernel attempt addresses tried.socket tried.kernel).result _ _ same
                  (try_all-IsBalanced addresses tried.socket tried.kernel invalid))
        ]

  give_up-Balanced :
      (k : K) (b : Bool) (s : Socket) (k' : K)
      → Balanced k b s k'
      → IsBalanced k (give_up kernel (record { result = b; socket = s; kernel = k' }))
  unfolding give_up
  give_up-Balanced k true s k' h = closed-Balanced k s k' h
  give_up-Balanced k false s k' (invalid, same) =
      unfold Opening.close in rw (ap (λ fd. not (fd == negsuc 0)) invalid) (invalid, same)

  start_listening-IsBalanced :
      (k : K) (s : Socket) (k' : K)
      → Balanced k true s k'
      → IsBalanced k (start_listening kernel (record { result = true; socket = s; kernel = k' }))
  unfolding start_listening
  start_listening-IsBalanced k s k' h =
      let (status, k'') = kernel.listen s.sockfd k' in
      let h' : Balanced k true s k'' = behind k s k' k'' (d.listen_keeps s.sockfd k') h in
      elim (Bool-cases (is_error status)) [
        | inl bad ↦ rw bad (give_up-Balanced k true s k'' h')
        | inr good ↦ rw good h'
      ]

  -- From the kernel `k'` on, that `getaddrinfo` has left.
  finished-IsBalanced :
      (attempt : Text → ℤ → K → ℤ × K)
      → ((a : Text) (fd : ℤ) (k : K) (x : ℤ) → d.is_open (attempt a fd k).1 x ≡ d.is_open k x)
      → (addresses : List Text) (s : Socket) (k : K) → s.sockfd ≡ negsuc 0
      → (finish : Opened K → Opened K)
      → ((s' : Socket) (k' : K)
          → Balanced k true s' k'
          → IsBalanced k (finish (record { result = true; socket = s'; kernel = k' })))
      → (let o = try_all kernel attempt addresses s k in
          IsBalanced k (if o.result then finish o else give_up kernel o))
  finished-IsBalanced attempt keeps addresses s k e finish h =
      let o = try_all kernel attempt addresses s k in
      split o.result o.socket o.kernel (try_all-IsBalanced attempt keeps addresses s k e)
    where
      split :
          (b : Bool) (s' : Socket) (k' : K)
          → Balanced k b s' k'
          → (let o : Opened K = record { result = b; socket = s'; kernel = k' } in
              IsBalanced k (if b then finish o else give_up kernel o))
      split true s' k' balanced = h s' k' balanced
      split false s' k' balanced = give_up-Balanced k false s' k' balanced

  -- Where the addresses of a host can be found, `open_client` returns: true with a valid socket whose
  -- descriptor is new, and is the only one that it has opened; or false, with an invalid socket and no
  -- descriptor opened, however many addresses it has tried.
  pub open_client_lem :
      (host port : Text) (s : Socket) (k : K) (addresses : List Text)
      → s.sockfd ≡ negsuc 0
      → (kernel.getaddrinfo (some host) port k).0 ≡ some addresses
      → (o : Opened K) × (open_client kernel host port s k ≡ returns o) × IsBalanced k o
  unfolding open_client
  open_client_lem host port s k addresses e resolved =
      let k' = (kernel.getaddrinfo (some host) port k).1 in
      let o = try_all kernel kernel.connect addresses s k' in
      let r = if o.result then o else give_up kernel o in
      (
        r,
        rw (open_client, resolved) refl,
        before k k' r.result r.socket r.kernel (d.getaddrinfo_keeps (some host) port k) (
            finished-IsBalanced kernel.connect d.connect_keeps addresses s k' e (λ o. o)
              (λ s' k'' h. h)),
      )

  -- Where the addresses of the own host can be found, `open_server` returns the same: true with a valid
  -- socket whose descriptor is new, and is the only one that it has opened; or false, with an invalid
  -- socket and no descriptor opened, also where `listen` has failed.
  pub open_server_lem :
      (port : Text) (s : Socket) (k : K) (addresses : List Text)
      → s.sockfd ≡ negsuc 0
      → (kernel.getaddrinfo none port k).0 ≡ some addresses
      → (o : Opened K) × (open_server kernel port s k ≡ returns o) × IsBalanced k o
  unfolding open_server
  open_server_lem port s k addresses e resolved =
      let k' = (kernel.getaddrinfo none port k).1 in
      let o = try_all kernel kernel.bind addresses s k' in
      let r = if o.result then start_listening kernel o else give_up kernel o in
      (
        r,
        rw (open_server, resolved) refl,
        before k k' r.result r.socket r.kernel (d.getaddrinfo_keeps none port k) (
            finished-IsBalanced kernel.bind d.bind_keeps addresses s k' e (start_listening kernel)
              (start_listening-IsBalanced k')),
      )
