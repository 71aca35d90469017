-- ===== src/Server/Accepting.antt =====
-- What the loop of Server::start in src/server.cpp does with the clients that it accepts.
use distributed_memory.Prelude.{
  ℕ, ◌≡◌, ℤ, int_key, Bool, true, ◌&&◌, some, List, ◌==◌, not, Outcome, returns, throws,
  if◌then◌else◌,
}
use distributed_memory.Socket
use distributed_memory.Socket.{Socket, is_valid}
use distributed_memory.Socket.Opening
use distributed_memory.Socket.Opening.{Kernel, Opened}
use distributed_memory.Socket.Resources.{Descriptors}
use distributed_memory.Secure
use distributed_memory.Secure.Endpoints
use distributed_memory.Secure.Endpoints.{Ssl, Made, make_server}

module _ {E K : Type 0} (ssl : Ssl E) (kernel : Kernel K) (d : Descriptors kernel) where
  -- A socket that the client of `accept` has authenticated itself on, if the result is true.
  abbrev Authenticated : Made E K → Type 0
  Authenticated m = m.result ≡ true → (key : List ℕ) × (m.secure.session_key ≡ some key)

module _ {E K : Type 0} (ssl : Ssl E) (kernel : Kernel K) (d : Descriptors kernel) (k : K) where
  pub closes :
      (s : Socket)
      → is_valid s ≡ true
      → (w : K) (x : ℤ)
      → d.is_open (Opening.destroy kernel s w) x ≡ (not (s.sockfd == x) && d.is_open w x)
  unfolding Opening.destroy Opening.close
  closes s valid w x = rw (valid, Opening.destroy, Opening.close) (d.close_closes s.sockfd w x)

  abbrev outcome_of : Bool → Outcome (Unit {0})
  outcome_of b = if b then returns tt else throws
