-- ===== src/Socket/Opening.antt =====
-- Opening, accepting and closing in src/socket/socket.cpp. The system calls are the parameter `Kernel`,
-- with the state `K` of the kernel.
use distributed_memory.Prelude.{
  ℕ, ℤ, pos, negsuc, int_key, ltb_ℤ, Bool, true, false, Option, none, some, List, [], ◌∷◌, Text,
  Outcome, returns, undefined, if◌then◌else◌,
}
use distributed_memory.Socket.{Socket, is_valid, Os, Received}

-- A status below 0 is an error.
pub record Kernel (K : Type 0) : Type 0 where
  -- The addresses of a host, `none` for the own one, and a port. `none` is an error, which leaves the
  -- list as it was.
  pub getaddrinfo : Option Text → Text → K → Option (List Text) × K
  pub socket : K → ℤ × K
  pub bind : Text → ℤ → K → ℤ × K
  pub connect : Text → ℤ → K → ℤ × K
  pub listen : ℤ → K → ℤ × K
  pub accept : ℤ → K → ℤ × K
  pub set_timeout : ℕ → ℤ → K → K
  pub send : ℤ → List ℕ → K → ℤ × K
  pub recv : ℤ → ℕ → K → Received × K
  pub close : ℤ → K → K

-- What a call returns, and what it leaves.
pub record Opened (K : Type 0) : Type 0 where
  pub result : Bool
  pub socket : Socket
  pub kernel : K

abbrev pub is_error : ℤ → Bool
is_error status = ltb_ℤ status (pos 0)

-- The connection of a socket.
abbrev pub os_of : {K : Type 0} → Kernel K → Socket → Os K
os_of kernel s = record { send_bytes = kernel.send s.sockfd; recv_bytes = kernel.recv s.sockfd }

module _ {K : Type 0} (kernel : Kernel K) where
  -- Socket::close
  unfoldable pub close : Socket → K → Opened K
  close s k =
      if is_valid s
      then record {
        result = true;
        socket = record s { sockfd = negsuc 0 };
        kernel = kernel.close s.sockfd k;
      }
      else record { result = false; socket = s; kernel = k }

  -- What a loop goes on with, or leaves, once `socket` has returned `fd` and `use` has been tried on it:
  -- `bind` in `open_server`, `connect` in `open_client`.
  unfoldable pub try_address : (Text → ℤ → K → ℤ × K) → Text → Socket → K → Opened K
  unfolding close
  try_address attempt address s k =
      let (fd, k') = kernel.socket k in
      let s' = record s { sockfd = fd } in
      let (status, k'') = attempt address fd k' in
      let closed = close s' k'' in
      if is_error fd
      then record { result = false; socket = s'; kernel = k' }
      else if is_error status
      then record closed { result = false }
      else record { result = true; socket = s'; kernel = k'' }

  -- The loop over the addresses: its result is whether it was left by `break`.
  unfoldable pub try_all : (Text → ℤ → K → ℤ × K) → List Text → Socket → K → Opened K
  unfolding try_address
  try_all attempt [] s k = record { result = false; socket = s; kernel = k }
  try_all attempt (address ∷ addresses) s k =
      let tried = try_address attempt address s k in
      let rest = try_all attempt addresses tried.socket tried.kernel in
      if tried.result then tried else rest

  -- `close(); return false;`
  unfoldable pub give_up : Opened K → Opened K
  unfolding close
  give_up o = record (close o.socket o.kernel) { result = false }

  -- Socket::open_client. Where `getaddrinfo` fails, a pointer that was not initialised is followed.
  unfoldable pub open_client : Text → Text → Socket → K → Outcome (Opened K)
  unfolding try_all give_up
  open_client host port s k =
      let (found, k') = kernel.getaddrinfo (some host) port k in
      elim found [
        | none ↦ undefined
        | some addresses ↦
            let o = try_all kernel.connect addresses s k' in
            returns (if o.result then o else give_up o)
      ]

  unfoldable pub start_listening : Opened K → Opened K
  unfolding give_up
  start_listening o =
      let (status, k) = kernel.listen o.socket.sockfd o.kernel in
      let o' = record o { kernel = k } in if is_error status then give_up o' else o'

  -- Socket::open_server
  unfoldable pub open_server : Text → Socket → K → Outcome (Opened K)
  unfolding try_all give_up start_listening
  open_server port s k =
      let (found, k') = kernel.getaddrinfo none port k in
      elim found [
        | none ↦ undefined
        | some addresses ↦
            let o = try_all kernel.bind addresses s k' in
            returns (if o.result then start_listening o else give_up o)
      ]

  -- Socket::accept, into the socket `s` from a listening one.
  unfoldable pub accept : Socket → Socket → K → Opened K
  accept listening s k =
      let (fd, k') = kernel.accept listening.sockfd k in
      record { result = ltb_ℤ (pos 0) fd; socket = record s { sockfd = fd }; kernel = k' }

  -- Socket::set_timeout
  unfoldable pub set_timeout : ℕ → Socket → K → K
  set_timeout seconds s k = kernel.set_timeout seconds s.sockfd k

  -- Socket::~Socket
  unfoldable pub destroy : Socket → K → K
  unfolding close
  destroy s k = (close s k).kernel
