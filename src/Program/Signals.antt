-- ===== src/Program/Signals.antt =====
-- The rest of src/dmserver.cpp: `main` with the server that it starts, and the handler of SIGINT.
use distributed_memory.Prelude.{
  ◌≡◌, refl, ℤ, pos, int_key, true, not, ◌&&◌, List, Text, ◌==◌, Outcome, returns, undefined, ◌>>=◌,
}
use distributed_memory.Yaml.{Yaml}
use distributed_memory.Socket.{is_valid}
use distributed_memory.Socket.Opening
use distributed_memory.Socket.Opening.{Kernel}
use distributed_memory.Socket.Resources.{Descriptors}
use distributed_memory.Secure.Endpoints.{Ssl, SecureSocket}
use distributed_memory.Server.Accepting.{closes}
use distributed_memory.Server.Life
use distributed_memory.Server.Life.{Event, Running, live, constructed, stop}
use distributed_memory.Program
use distributed_memory.Program.{Flag, exits, starts, crashes}

-- A process that goes on, or that has exited with a code, with what it leaves of the kernel.
pub data Process (E K : Type 0) : Type 0 where
  running : Running E K → Process E K
  exited : ℤ → K → Process E K

module _ {E : Type 0} (ssl : Ssl E) {K : Type 0} (kernel : Kernel K) where
  -- `main`, with what the server has done after certain events.
  unfoldable pub main : Yaml → (Text → Text) → List Flag → List Event → K → Outcome (Process E K)
  unfolding Program.main
  main y files flags events k = elim (Program.main y files flags) [
    | exits code ↦ returns (exited code k)
    | starts server ↦
        Life.start ssl kernel events (constructed server k) >>= λ r. returns (running r)
    | crashes ↦ undefined
  ]

  -- kill_handler
  unfoldable pub kill_handler : Running E K → Outcome (Process E K)
  unfolding stop
  kill_handler r = stop ssl kernel r >>= λ r'. returns (exited (pos 0) r'.kernel)

module _ {E : Type 0} (ssl : Ssl E) {K : Type 0} (kernel : Kernel K) (d : Descriptors kernel) where
  -- SIGINT ends a server that listens with exit code 0, and closes its listening socket and nothing else.
  -- Before the server listens, the behaviour is undefined: the handler is installed before `start`.
  pub kill_handler_lem :
      (r : Running E K) (s : SecureSocket E)
      → is_valid s.socket ≡ true
      → (r.listen_socket ≡ live s
          → (k : K) × (kill_handler ssl kernel r ≡ returns (exited (pos 0) k))
            × ((x : ℤ) → d.is_open k x ≡ (not (s.socket.sockfd == x) && d.is_open r.kernel x)))
        × (kill_handler ssl kernel (constructed r.server r.kernel) ≡ undefined)
  unfolding kill_handler stop Life.delete
  kill_handler_lem r s valid = (
    λ listens. (
      Opening.destroy kernel s.socket r.kernel,
      rw (listens, kill_handler, stop, Life.delete) refl,
      λ x. closes ssl kernel d r.kernel s.socket valid r.kernel x,
    ),
    refl,
  )
