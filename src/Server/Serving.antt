-- ===== src/Server/Serving.antt =====
-- The sockets of a server's threads in src/server.cpp, and what taking one of them out leaves.
use distributed_memory.Prelude.{
  ℕ, ◌≡◌, refl, sym, ap, subst, ◌∙◌, ℤ, int_key, Bool, true, false, Bool-cases, inl, inr, ◌&&◌,
  ◌||◌, Option, none, some, List, [], ◌∷◌, ◌==◌, ==_refl, ==_iff, zero, suc, not, arith, returns,
}
use distributed_memory.Socket.{is_valid}
use distributed_memory.Socket.Opening.{Kernel}
use distributed_memory.Socket.Resources.{Descriptors}
use distributed_memory.Secure.Endpoints
use distributed_memory.Secure.Endpoints.{Ssl, SecureSocket, Made}
use distributed_memory.Server.Life.{Event, accepts, leaves, take_out, Running}

pub or_assoc : (a b c : Bool) → (a || (b || c)) ≡ ((a || b) || c)
or_assoc true b c = refl
or_assoc false b c = refl

or_true : (a : Bool) → (a || true) ≡ true
or_true true = refl
or_true false = refl

or_false : (a b : Bool) → (a || b) ≡ false → a ≡ false
or_false true b h = h
or_false false b h = refl

and_false : (a : Bool) → (a && false) ≡ false
and_false true = refl
and_false false = refl

-- Whether a descriptor is that of one of the sockets.
abbrev pub holds : {E : Type 0} → List (SecureSocket E) → ℤ → Bool
holds [] x = false
holds (s ∷ ss) x = s.socket.sockfd == x || holds ss x

module _ {E K : Type 0} {kernel : Kernel K} (d : Descriptors kernel) (k : K) where
  -- The sockets of threads: each valid, with the session key of a handshake, and with a descriptor that
  -- is no other thread's and that was not open in `k`.
  abbrev pub AreServed : List (SecureSocket E) → Type 0
  AreServed [] = Unit {0}
  AreServed (s ∷ ss) =
      (is_valid s.socket ≡ true)
      × ((key : List ℕ) × (s.session_key ≡ some key))
      × ((holds ss s.socket.sockfd || d.is_open k s.socket.sockfd) ≡ false)
      × AreServed ss

  -- Since `k`, the descriptors of the threads have been opened, and no others.
  pub record IsServing (r : Running E K) : Type 0 where
    pub served : AreServed r.threads
    pub opened : (x : ℤ) → d.is_open r.kernel x ≡ (holds r.threads x || d.is_open k x)

  -- Whose thread ends, and whose go on.
  abbrev pub TakenOut :
      List (SecureSocket E) → Option (SecureSocket E × List (SecureSocket E)) → Type 0
  TakenOut ss none = Unit {0}
  TakenOut ss (some (s, rest)) =
      (is_valid s.socket ≡ true)
      × AreServed rest
      × (holds ss s.socket.sockfd ≡ true)
      × ((x : ℤ)
          → (not (s.socket.sockfd == x) && (holds ss x || d.is_open k x))
            ≡ (holds rest x || d.is_open k x))

  take_out-first :
      (s : SecureSocket E) (ss : List (SecureSocket E))
      → AreServed (s ∷ ss)
      → TakenOut (s ∷ ss) (some (s, ss))
  take_out-first s ss (valid, known, fresh, served) = (
    valid,
    served,
    rw (==_refl s.socket.sockfd) refl,
    λ x. elim (Bool-cases (s.socket.sockfd == x)) [
      | inl t ↦
          rw t (sym fresh ∙ ap (λ y. holds ss y || d.is_open k y) ((==_iff s.socket.sockfd x).0 t))
      | inr f ↦ rw f refl
    ],
  )

  take_out-later :
      (t : SecureSocket E) (ss : List (SecureSocket E)) (s : SecureSocket E)
      (rest : List (SecureSocket E))
      → AreServed (t ∷ ss)
      → TakenOut ss (some (s, rest))
      → TakenOut (t ∷ ss) (some (s, t ∷ rest))
  take_out-later t ss s rest (valid, known, fresh, served) (ends, others, there, left) = (
    ends,
    (
      valid,
      known,
      sym (left t.socket.sockfd) ∙ rw fresh (and_false (not (s.socket.sockfd == t.socket.sockfd))),
      others,
    ),
    rw there (or_true (t.socket.sockfd == s.socket.sockfd)),
    λ x. elim (Bool-cases (t.socket.sockfd == x)) [
      | inr other ↦ rw other (left x)
      | inl same ↦
          rw
            (
              same,
              subst (λ y. (s.socket.sockfd == y) ≡ false) ((==_iff t.socket.sockfd x).0 same)
                  distinct,
            )
            refl
    ],
  )
    where
      distinct : (s.socket.sockfd == t.socket.sockfd) ≡ false
      distinct = elim (Bool-cases (s.socket.sockfd == t.socket.sockfd)) [
        | inr f ↦ f
        | inl e ↦ cc (
          subst (λ y. holds ss y ≡ true) ((==_iff s.socket.sockfd t.socket.sockfd).0 e) there,
          or_false (holds ss t.socket.sockfd) (d.is_open k t.socket.sockfd) fresh,
        )
      ]

  pub take_out-TakenOut :
      (i : ℕ) (ss : List (SecureSocket E)) → AreServed ss → TakenOut ss (take_out i ss)
  unfolding take_out
  take_out-TakenOut zero [] v = tt
  take_out-TakenOut (suc i) [] v = tt
  take_out-TakenOut zero (s ∷ ss) v = take_out-first s ss v
  take_out-TakenOut (suc i) (t ∷ ss) v = later (take_out i ss) (take_out-TakenOut i ss v.3)
    where
      later :
          (o : Option (SecureSocket E × List (SecureSocket E)))
          → TakenOut ss o
          → TakenOut (t ∷ ss) (elim o [ none ↦ none | some r ↦ some (r.0, t ∷ r.1) ])
      later none h = tt
      later (some (s, rest)) h = take_out-later t ss s rest v h

-- What a round does with a client: the first of the threads is now the one of the client that
-- authenticated itself, and for any other there is none.
pub record Serves {E K : Type 0} (b : Bool) (m : Made E K) (r next : Running E K) : Type 0 where
  pub served : b ≡ true → (next.threads ≡ m.secure ∷ r.threads) × (next.kernel ≡ m.kernel)
  pub refused : b ≡ false → next.threads ≡ r.threads

-- The sockets of the threads that are left when the thread with a number has ended.
abbrev pub remaining : {E : Type 0} → ℕ → List (SecureSocket E) → List (SecureSocket E)
remaining i [] = []
remaining zero (s ∷ ss) = ss
remaining (suc i) (s ∷ ss) = s ∷ remaining i ss

pub take_out-remaining :
    {E : Type 0} (i : ℕ) (ss : List (SecureSocket E))
    → remaining i ss ≡ elim (take_out i ss) [ none ↦ ss | some r ↦ r.1 ]
unfolding take_out
take_out-remaining i [] = refl
take_out-remaining zero (s ∷ ss) = refl
take_out-remaining (suc i) (s ∷ ss) = ground (arith, take_out-remaining i ss)

module _ {E K : Type 0} (ssl : Ssl E) (kernel : Kernel K) (listener : SecureSocket E) where
  -- What has become of the clients and of the threads, event by event.
  abbrev pub Course : List Event → Running E K → Running E K → Type 0
  Course [] r r' = r' ≡ r
  Course (accepts nonce ∷ events) r r' =
      (m : Made E K) × (next : Running E K) × (Endpoints.accept ssl kernel listener nonce
          Endpoints.create r.kernel
        ≡ returns m)
      × Serves m.result m r next
      × Course events next r'
  Course (leaves i ∷ events) r r' =
      (next : Running E K) × (next.threads ≡ remaining i r.threads) × Course events next r'
