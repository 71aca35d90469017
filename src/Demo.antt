-- ===== src/Demo.antt =====
-- The two programs of debug/secure_socket/, which send one text over a secure socket and print it.
use distributed_memory.Prelude.{
  ℕ, ℤ, pos, Option, none, some, List, [], ◌∷◌, Text, codes, Outcome, returns, throws, undefined,
  ◌>>=◌,
}
use distributed_memory.Socket.Opening
use distributed_memory.Socket.Opening.{Kernel, os_of}
use distributed_memory.Secure
use distributed_memory.Secure.Endpoints
use distributed_memory.Secure.Endpoints.{
  Ssl, SecureSocket, Made, make_client, make_server, accept_or_throw,
}

module _ {E : Type 0} (ssl : Ssl E) {K : Type 0} (kernel : Kernel K) where
  -- What a socket does with its session key; `e` is a key of this side, on which the cipher does not depend.
  abbrev on_session :
      {A : Type 0} → SecureSocket E → Option E → (E → List ℕ → Outcome A) → Outcome A
  on_session s e use_key = elim e [
    | none ↦ undefined
    | some e ↦ elim s.session_key [ none ↦ undefined | some session_key ↦ use_key e session_key ]
  ]

  -- The end of `main` of client.cpp, where the socket is destroyed.
  abbrev exit_code : SecureSocket E → Outcome (Unit {0}) × K → Outcome (ℤ × K)
  exit_code s (returns u, k) = returns (pos 0, Opening.destroy kernel s.socket k)
  exit_code s (throws, k) = returns (pos 1, Opening.destroy kernel s.socket k)
  exit_code s (undefined, k) = undefined

  unfoldable pub send_text : Outcome (SecureSocket E) × K → Outcome (ℤ × K)
  send_text (returns s, k) = on_session s s.rsa_pubkey λ e session_key. exit_code s (
      Secure.put_text (ssl.crypto e) (os_of kernel s.socket) session_key
        (codes "The narwhal bacons at midnight") k)
  send_text (throws, k) = returns (pos 1, k)
  send_text (undefined, k) = undefined

  -- `main` of client.cpp on its arguments, with the bytes that the handshake draws: the exit code.
  unfoldable pub client_main : List Text → (nonce salt padding : List ℕ) → K → Outcome (ℤ × K)
  unfolding send_text
  client_main (host ∷ port ∷ pubkey ∷ pass ∷ []) nonce salt padding k =
      make_client ssl kernel host port pubkey pass nonce salt padding k >>= send_text
  client_main arguments nonce salt padding k = returns (pos 1, k)

  -- The messages that were printed, the latest first.
  pub record Printed : Type 0 where
    pub messages : List Text
    pub kernel_state : K

  abbrev print_message : Made E K → Printed → Outcome Text × K → Outcome Printed
  print_message m p (returns t, k) = returns (record {
    messages = t ∷ p.messages;
    kernel_state = Opening.destroy kernel m.secure.socket k;
  })
  print_message m p (throws, k) =
      returns (record p { kernel_state = Opening.destroy kernel m.secure.socket k })
  print_message m p (undefined, k) = undefined

  -- A round of the loop of server.cpp, once `accept` has returned or thrown.
  unfoldable pub receive_text :
      SecureSocket E → Printed → Outcome (Unit {0}) × Made E K → Outcome Printed
  receive_text listener p (returns u, m) = on_session m.secure listener.rsa_privkey λ e session_key.
      print_message m p
        (Secure.get_text (ssl.crypto e) (os_of kernel m.secure.socket) session_key m.kernel)
  receive_text listener p (throws, m) =
      returns (record p { kernel_state = Opening.destroy kernel m.secure.socket m.kernel })
  receive_text listener p (undefined, m) = undefined

  unfoldable pub receive_texts : SecureSocket E → List (List ℕ) → Printed → Outcome Printed
  unfolding receive_text
  receive_texts listener [] p = returns p
  receive_texts listener (nonce ∷ nonces) p =
      accept_or_throw ssl kernel listener nonce Endpoints.create p.kernel_state >>= λ a.
      receive_text listener p a >>= λ p'. receive_texts listener nonces p'

  -- How `main` of server.cpp goes: it exits with a code, or has printed what came in so many rounds.
  pub data Serving : Type 0 where
    exits : ℤ → K → Serving
    printed : Printed → Serving

  unfoldable pub listen : List (List ℕ) → Outcome (SecureSocket E) × K → Outcome Serving
  unfolding receive_texts
  listen nonces (returns s, k) =
      receive_texts s nonces (record { messages = []; kernel_state = k }) >>= λ p.
      returns (printed p)
  listen nonces (throws, k) = returns (exits (pos 1) k)
  listen nonces (undefined, k) = undefined

  -- `main` of server.cpp on its arguments, for as many rounds as there are nonces that `accept` draws.
  unfoldable pub server_main : List Text → List (List ℕ) → K → Outcome Serving
  unfolding listen
  server_main (port ∷ privkey ∷ pass ∷ []) nonces k =
      make_server ssl kernel port privkey pass k >>= listen nonces
  server_main arguments nonces k = returns (exits (pos 1) k)
