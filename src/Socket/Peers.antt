-- ===== src/Socket/Peers.antt =====
-- The address of a peer in src/socket/socket.cpp, and Server::get_client_id of src/server.cpp, which
-- names a client by it. `getpeername` and `inet_ntop` are the parameter `Names`.
use distributed_memory.Prelude.{
  ℕ, ◌≡◌, ◌≢◌, refl, sym, ap, ◌∙◌, arith, ℤ, pos, true, Option, none, some, List, [], ◌∷◌, ◌++◌,
  Text, codes, if◌then◌else◌,
}
use distributed_memory.Prelude.Words.{word_of}
use distributed_memory.Prelude.Decimal.{print_int, decimal, decimal-injective}
use distributed_memory.Socket.{Socket, Peer}

pub record Names : Type 0 where
  -- `none` is an error, which leaves the address as it was.
  pub getpeername : ℤ → Option Peer
  pub inet_ntop : List ℕ → Text

module _ (n : Names) where
  -- Socket::get_peer_addr
  unfoldable pub get_peer_addr : Socket → Socket
  get_peer_addr s =
      let asked : Peer = elim (n.getpeername s.sockfd) [ none ↦ s.peer_addr | some p ↦ p ] in
      if s.peer_valid then s else record s { peer_addr = asked; peer_valid = true }

  -- Socket::get_peer_ip
  unfoldable pub get_peer_ip : Socket → Text × Socket
  unfolding get_peer_addr
  get_peer_ip s = let s' = get_peer_addr s in (n.inet_ntop s'.peer_addr.sin_addr, s')

  -- Socket::get_peer_port: the two bytes as a number of this machine.
  unfoldable pub get_peer_port : Socket → ℤ × Socket
  unfolding get_peer_addr
  get_peer_port s = let s' = get_peer_addr s in (pos (word_of s'.peer_addr.sin_port), s')

  -- Server::get_client_id
  unfoldable pub get_client_id : Socket → Text × Socket
  unfolding get_peer_ip get_peer_port
  get_client_id s =
      let (ip, s') = get_peer_ip s in
      let (port, s'') = get_peer_port s' in (ip ++ (codes ":" ++ print_int port), s'')

-- A text in which the byte does not stand.
abbrev pub Without : ℕ → Text → Type 0
Without c [] = Unit {0}
Without c (b ∷ t) = (b ≢ c) × Without c t

first_of : ℕ → Text → ℕ
first_of d [] = d
first_of d (b ∷ t) = b

rest_of : Text → Text
rest_of [] = []
rest_of (b ∷ t) = t

cons_parts : (a b : ℕ) (s t : Text) → (a ∷ s) ≡ (b ∷ t) → (a ≡ b) × (s ≡ t)
unfolding first_of rest_of
cons_parts a b s t e = (ap (first_of 0) e, ap rest_of e)

-- The first separator tells where a text ends.
split_at :
    (c : ℕ) (a b s t : Text)
    → Without c a
    → Without c b
    → (a ++ (c ∷ s)) ≡ (b ++ (c ∷ t))
    → (a ≡ b) × (s ≡ t)
split_at c [] [] s t h k e = (refl, (cons_parts c c s t e).1)
split_at c [] (y ∷ b) s t h k e = absurd (k.0 (sym (cons_parts c y s (b ++ (c ∷ t)) e).0))
split_at c (x ∷ a) [] s t h k e = absurd (h.0 (cons_parts x c (a ++ (c ∷ s)) t e).0)
split_at c (x ∷ a) (y ∷ b) s t h k e =
    let (p, q) = cons_parts x y (a ++ (c ∷ s)) (b ++ (c ∷ t)) e in
    let (u, v) = split_at c a b s t h.1 k.1 q in (cc (p, u), v)

again : (n m : Names) (s : Socket) → get_peer_addr m (get_peer_addr n s) ≡ get_peer_addr n s
unfolding get_peer_addr
again n m s = ground arith

-- The peer that a socket names its client by.
abbrev pub peer_of : Names → Socket → Peer
peer_of n s = (get_peer_addr n s).peer_addr

abbrev id_text : Names → Peer → Text
id_text n p = n.inet_ntop p.sin_addr ++ (58 ∷ decimal (word_of p.sin_port))

id_form :
    (n : Names) (s : Socket) → get_client_id n s ≡ (id_text n (peer_of n s), get_peer_addr n s)
unfolding get_client_id get_peer_ip get_peer_port print_int
id_form n s = rw (again n n s) refl

-- The same names, with another answer of `getpeername`.
abbrev pub answering : Names → Option Peer → Names
answering n p = record n { getpeername = λ fd. p }

kept :
    (n : Names) (s : Socket) (p : Option Peer)
    → (get_client_id (answering n p) (get_client_id n s).1).0 ≡ (get_client_id n s).0
kept n s p =
    ap (λ r. (get_client_id (answering n p) r.1).0) (id_form n s)
    ∙ ap (λ r. r.0) (id_form (answering n p) (get_peer_addr n s))
    ∙ ap (λ s'. id_text n s'.peer_addr) (again n (answering n p) s)
    ∙ sym (ap (λ r. r.0) (id_form n s))

module _ (n : Names) where
  -- Where `inet_ntop` writes different addresses as different texts, without a colon, two sockets
  -- whose clients get the same id have peers with the same address and the same port. A socket whose
  -- client has got an id keeps it, whatever `getpeername` answers later.
  pub get_client_id_lem :
      (s t : Socket)
      → ((a b : List ℕ) → n.inet_ntop a ≡ n.inet_ntop b → a ≡ b)
      → ((a : List ℕ) → Without 58 (n.inet_ntop a))
      → ((get_client_id n s).0 ≡ (get_client_id n t).0
          → ((peer_of n s).sin_addr ≡ (peer_of n t).sin_addr)
            × (word_of (peer_of n s).sin_port ≡ word_of (peer_of n t).sin_port))
        × ((p : Option Peer)
            → (get_client_id (answering n p) (get_client_id n s).1).0 ≡ (get_client_id n s).0)
  get_client_id_lem s t injective plain_text = (same_peer, kept n s)
    where
      same_peer :
          (get_client_id n s).0 ≡ (get_client_id n t).0
          → ((peer_of n s).sin_addr ≡ (peer_of n t).sin_addr)
            × (word_of (peer_of n s).sin_port ≡ word_of (peer_of n t).sin_port)
      same_peer e =
          let (p, q) =
            split_at 58 _ _ _ _ (plain_text (peer_of n s).sin_addr)
              (plain_text (peer_of n t).sin_addr)
              (sym (ap (λ r. r.0) (id_form n s)) ∙ e ∙ ap (λ r. r.0) (id_form n t)) in
          (injective _ _ p, decimal-injective _ _ q)
