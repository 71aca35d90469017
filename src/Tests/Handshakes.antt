-- ===== src/Tests/Handshakes.antt =====
-- The theorems on connections at concrete texts, with a toy in place of OpenSSL.
use distributed_memory.Prelude.{
  ℕ, ◌≡◌, refl, ap, arith, Bool, true, false, some, List, [], ◌∷◌, ◌++◌, returns,
}
use distributed_memory.Socket.{send, recv}
use distributed_memory.Socket.Texts.{
  received, has_stop, begins_with, receive_loop, receive_loop_lem,
}
use distributed_memory.Socket.Scripts.{Script, script}
use distributed_memory.Secure.{Crypto, cipher, plain, send_secure, recv_secure, accept, open_client}
use distributed_memory.Secure.Packets.{pipe, packet_lem}
use distributed_memory.Secure.Agreement.{Authentic, accept_lem}
use distributed_memory.Secure.Clients.{Trusted, open_client_lem}
use distributed_memory.Secure.BothSides.{Works, accepts, to_client, opens, agreement_lem}

tail : List ℕ → List ℕ
tail [] = []
tail (b ∷ bs) = bs

unfoldable marked : Bool → List ℕ → List ℕ
unfolding tail
marked true input = 0 ∷ input
marked false output = tail output

-- Keys of one byte and packets of four; a packet is marked with a byte in front, and nothing is
-- hidden.
unfoldable pub toy : Crypto
unfolding marked
toy = record {
  key_length = 1;
  rsa_size = 4;
  cipher_update = λ operation session_key input. marked operation input;
  cipher_final = λ operation session_key input. [];
  bytes_to_key = λ salt pass nonce. some (5 ∷ [], nonce);
  public_encrypt = λ padding m. some m;
  private_decrypt = λ m. some m;
}

packet_lem_example :
    (sent : List ℕ) × (send_secure toy pipe (5 ∷ []) (1 ∷ 2 ∷ []) (8 ∷ [])
      ≡ (true, (8 ∷ []) ++ sent))
    × (recv_secure toy pipe (5 ∷ []) (sent ++ 9 ∷ []) ≡ (plain (1 ∷ 2 ∷ []), 9 ∷ []))
unfolding toy cipher
packet_lem_example =
    packet_lem toy (5 ∷ []) (1 ∷ 2 ∷ []) (8 ∷ []) (9 ∷ []) refl (omega arith) (omega arith)

works : Works toy (7 ∷ []) (3 ∷ []) [] [] (4 ∷ [])
unfolding toy cipher
works = record {
  session_key = 5 ∷ [];
  nonce_a = 3 ∷ [];
  derived = refl;
  key_sized = refl;
  nonce_a_sized = refl;
  nonce_b_sized = refl;
  room = refl;
  m2 = 5 ∷ 3 ∷ 4 ∷ 7 ∷ [];
  encrypted = refl;
  m2_sized = refl;
  decrypted = refl;
  deciphered = refl;
  some_bytes = omega arith;
  fits = omega arith;
}

agreement_lem_example :
    (to_server : List (List ℕ)) × (answers : List (List ℕ)) × (accept toy script
        (7 ∷ [])
        (4 ∷ [])
        (record { incoming = to_server; outgoing = [] })
      ≡ (some works.session_key, record { incoming = []; outgoing = answers }))
    × (open_client toy script (7 ∷ []) (3 ∷ []) [] [] (record { incoming = answers; outgoing = [] })
        ≡ (returns (some works.session_key), record { incoming = []; outgoing = to_server }))
agreement_lem_example = agreement_lem toy (7 ∷ []) (3 ∷ []) [] [] (4 ∷ []) works

abbrev before : Script
before = record { incoming = works.m2 ∷ []; outgoing = [] }

accept_lem_example :
    ((send script (4 ∷ []) before).0 ≡ true)
    × Authentic toy script
        (recv script toy.rsa_size (send script (4 ∷ []) before).1).0
        (7 ∷ [])
        (4 ∷ [])
        works.session_key
        (recv script toy.rsa_size (send script (4 ∷ []) before).1).1
accept_lem_example =
    (accept_lem toy script (7 ∷ []) (4 ∷ []) works.session_key before).0
      (ap (λ r. r.0) (accepts toy (7 ∷ []) (3 ∷ []) [] [] (4 ∷ []) works))

abbrev from_server : Script
from_server = record {
  incoming = to_client toy (7 ∷ []) (3 ∷ []) [] [] (4 ∷ []) works;
  outgoing = [];
}

open_client_lem_example : Trusted toy script (7 ∷ []) (3 ∷ []) [] [] works.session_key from_server
open_client_lem_example =
    (open_client_lem toy script (7 ∷ []) (3 ∷ []) [] [] works.session_key from_server).0
      (ap (λ r. r.0) (opens toy (7 ∷ []) (3 ∷ []) [] [] (4 ∷ []) works))

-- The text A with its stop token, in two pieces.
abbrev pieces : List (List ℕ)
pieces = (65 ∷ 13 ∷ []) ∷ (10 ∷ 13 ∷ 10 ∷ []) ∷ []

receive_loop_lem_example :
    receive_loop script 2 [] (record { incoming = pieces; outgoing = [] })
    ≡ (received (65 ∷ 13 ∷ 10 ∷ 13 ∷ 10 ∷ []), record { incoming = []; outgoing = [] })
unfolding has_stop begins_with
receive_loop_lem_example =
    receive_loop_lem pieces []
      (
        omega arith,
        omega arith,
        (omega arith, (omega arith, tt)),
        (omega arith, omega arith, (omega arith, (omega arith, (omega arith, tt))), tt),
      )
      refl (refl, (refl, (refl, (refl, (refl, tt)))))
