-- ===== src/Tests/Connections.antt =====
-- The theorems on sockets and on the life of a server at concrete connections.
use distributed_memory.Prelude.{
  ℕ, ◌+◌, ◌≡◌, refl, ap, arith, ℤ, pos, int_key, text_key, true, false, leb, if◌then◌else◌, Option,
  none, some, List, [], ◌∷◌, Text, codes, length, Outcome, returns, Ensures,
}
use distributed_memory.Prelude.Words.{word_bytes, word_of}
use distributed_memory.Config
use distributed_memory.Socket
use distributed_memory.Socket.{Socket, Peer}
use distributed_memory.Socket.Opening
use distributed_memory.Socket.Peers.{
  Names, Without, get_client_id, peer_of, answering, get_client_id_lem,
}
use distributed_memory.Secure.{Crypto, cipher, open_client}
use distributed_memory.Socket.Scripts.{script}
use distributed_memory.Secure.Endpoints
use distributed_memory.Secure.Endpoints.{Ssl, SecureSocket, take_pass, make_server, make_client}
use distributed_memory.Secure.Constructors.{IsClean, make_server_lem, make_client_lem}
use distributed_memory.Secure.Passphrases.{IsPadded, take_pass-IsPadded}
use distributed_memory.Secure
use distributed_memory.Server.Life.{Event, accepts, leaves, Running, live, constructed, accept_loop}
use distributed_memory.Tests.{server_with, stored}
use distributed_memory.Tests.Handshakes.{toy}
use distributed_memory.Tests.Sockets.{Table, closed, small, table, keys}

abbrev secret : Text
secret = 7 ∷ []

abbrev port : Text
port = codes "4000"

make_server_lem_example :
    (r : Outcome (SecureSocket (Unit {0})) × Table) × (make_server keys small port
        (codes "key")
        secret
        closed
      ≡ returns r)
    × IsClean keys small table closed r
make_server_lem_example =
    make_server_lem keys small table port (codes "key") secret closed (port ∷ [])
      (unfold small in refl)

make_client_lem_example :
    Ensures
      (IsClean keys small table closed)
      (make_client keys small (codes "host") port (codes "key") secret (3 ∷ []) [] [] closed)
make_client_lem_example =
    make_client_lem keys small table (codes "host") port (codes "key") secret (3 ∷ []) [] [] closed
      (port ∷ []) (unfold small in refl)

-- A socket that listens with the one key.
abbrev listener : SecureSocket (Unit {0})
listener = record Endpoints.create {
  socket = record Socket.create { sockfd = pos 3 };
  pass = secret;
  rsa_privkey = some tt;
  rsa_size = some 4;
}

abbrev listening_table : Table
listening_table = record { three = true; four = false }

made_listener :
    make_server keys small port (codes "key") secret closed
    ≡ returns (returns listener, listening_table)
unfolding make_server keys small toy Opening.open_server
made_listener = refl

-- Packets of 15 bytes, of which the padding takes 11.
abbrev padded : Crypto
padded = record toy {
  rsa_size = 15;
  bytes_to_key = λ salt pass nonce. some (5 ∷ [], 6 ∷ []);
  public_encrypt = λ padding m. if leb (length m + 11) 15 then some m else none;
}

padded-IsPadded : IsPadded padded
unfolding toy
padded-IsPadded = record {
  too_long = λ padding m h. ground (arith, h);
  derives = λ salt pass nonce session_key nonce_a h.
      let (key, own) = parts session_key nonce_a h in (ap length key, ap length own);
}
  where
    parts :
        (a b : List ℕ)
        → ◌≡◌ {A = Option (List ℕ × List ℕ)} (some (5 ∷ [], 6 ∷ [])) (some (a, b))
        → (a ≡ 5 ∷ []) × (b ≡ 6 ∷ [])
    parts a b h = (cc, cc)

abbrev padded_keys : Ssl (Unit {0})
padded_keys = record keys {
  key_length = 1;
  crypto = λ e. padded;
  key_length_lem = λ e. unfold toy in refl;
}

-- With a passphrase of two bytes a client has five bytes to encrypt.
take_pass-IsPadded_example :
    (take_pass padded_keys (7 ∷ 8 ∷ []) Endpoints.create 15
      ≡ (true, record Endpoints.create { pass = 7 ∷ 8 ∷ [] }))
    × ¬ (
        (open_client padded script
          (7 ∷ 8 ∷ [])
          (3 ∷ [])
          []
          []
          (record { incoming = []; outgoing = [] })).0
        ≡ returns (some (5 ∷ [])))
take_pass-IsPadded_example =
    take_pass-IsPadded padded_keys tt Endpoints.create script (7 ∷ 8 ∷ []) (3 ∷ []) [] [] (5 ∷ [])
      (record { incoming = []; outgoing = [] }) padded-IsPadded (omega arith) (omega arith)
      (omega arith)

-- A server that listens, before any client.
abbrev waiting : Running (Unit {0}) Table
waiting = record (constructed (server_with stored) listening_table) {
  listen_socket = live listener;
}

-- A client that authenticates itself, a call of `accept` that fails, and the end of the client's thread.
abbrev events : List Event
events = accepts (4 ∷ []) ∷ accepts (4 ∷ []) ∷ leaves 0 ∷ []

-- One client is served after the first event.
one_thread :
    (r : Running (Unit {0}) Table) × (accept_loop keys small listener
        (accepts (4 ∷ []) ∷ accepts (4 ∷ []) ∷ [])
        waiting
      ≡ returns r)
    × (length r.threads ≡ 1)
unfolding accept_loop keys small toy Endpoints.accept_or_throw Endpoints.accept Opening.accept
    Secure.accept Socket.send Socket.recv word_bytes cipher
one_thread = (_, refl, refl)

-- An address that is written with the letters from d on.
spelled : List ℕ → Text
spelled [] = []
spelled (b ∷ bs) = (b + 100) ∷ spelled bs

head_or : ℕ → Text → ℕ
head_or d [] = d
head_or d (b ∷ t) = b

rest_of : Text → Text
rest_of [] = []
rest_of (b ∷ t) = t

plus_injective : (a b : ℕ) → a + 100 ≡ b + 100 → a ≡ b
plus_injective a b e = omega (arith, e)

spelled-injective : (a b : List ℕ) → spelled a ≡ spelled b → a ≡ b
unfolding spelled head_or rest_of
spelled-injective [] [] e = refl
spelled-injective [] (c ∷ bs) e = cc
spelled-injective (c ∷ bs) [] e = cc
spelled-injective (a ∷ as') (b ∷ bs) e =
    cc (plus_injective a b (ap (head_or 0) e), spelled-injective as' bs (ap rest_of e))

spelled_plain : (a : List ℕ) → Without 58 (spelled a)
unfolding spelled
spelled_plain [] = tt
spelled_plain (b ∷ bs) = ((λ e. omega (arith, e)), spelled_plain bs)

names : Names
unfolding spelled
names = record {
  getpeername = λ fd. some (record { sin_addr = 10 ∷ 0 ∷ 0 ∷ 1 ∷ []; sin_port = 15 ∷ 160 ∷ [] });
  inet_ntop = spelled;
}

abbrev accepted_socket : ℤ → Socket
accepted_socket fd = record Socket.create { sockfd = fd }

get_client_id_lem_example :
    ((get_client_id names (accepted_socket (pos 3))).0
        ≡ (get_client_id names (accepted_socket (pos 4))).0
      → ((peer_of names (accepted_socket (pos 3))).sin_addr
          ≡ (peer_of names (accepted_socket (pos 4))).sin_addr)
        × (word_of (peer_of names (accepted_socket (pos 3))).sin_port
            ≡ word_of (peer_of names (accepted_socket (pos 4))).sin_port))
    × ((p : Option Peer)
        → (get_client_id (answering names p) (get_client_id names (accepted_socket (pos 3))).1).0
          ≡ (get_client_id names (accepted_socket (pos 3))).0)
get_client_id_lem_example =
    get_client_id_lem names (accepted_socket (pos 3)) (accepted_socket (pos 4))
      (unfold names in spelled-injective) (unfold names in spelled_plain)
