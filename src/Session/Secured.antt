-- ===== src/Session/Secured.antt =====
-- The encrypted connection of src/socket/ between a client of src/client.cpp and the loop of
-- client_handler in src/server.cpp: the operators of SecureSocket at both ends, over connections that
-- keep what is sent in order.
pub mod Queues
use distributed_memory.Prelude.{
  ℕ, ◌<◌, ◌≡◌, ◌≢◌, refl, sym, ap, ◌∙◌, pos, Option, none, some, List, [], ◌∷◌, ◌++◌, Text,
  text_key, ◌==◌, ==_refl, ==_false, if◌then◌else◌, length, Outcome, returns, throws, undefined,
}
use mathlib.Core.List.{append-nil, append_assoc}
use distributed_memory.Yaml.{Yaml}
use distributed_memory.Socket
use distributed_memory.Network.{Network, exchange, sent, received}
use distributed_memory.Secure.{Crypto, encipher, decipher, put_text, get_text, text_of, plain}
use distributed_memory.Secure.Packets.{pipe, frame, send_frame, recv_frame}
use distributed_memory.Session.Secured.Queues.{
  Fits, puts, gets, packets, first, later, packets-first,
}
use distributed_memory.Server.{Server, Reply, answer, sleep, Reaction, handle}
use distributed_memory.Session.{Delivers}
use distributed_memory.Session.Loopback.{World, with_server, loopback}

-- The servers, and the bytes that are under way from each to the client.
pub record Line : Type 0 where
  pub servers : Text → Server
  pub bytes : Text → List ℕ

abbrev pub with_bytes : (Text → List ℕ) → Text → List ℕ → Text → List ℕ
with_bytes bytes i bs j = if i == j then bs else bytes j

module _ (y : Yaml) (client_id : Text) (c : Crypto) (session_key : List ℕ) where
  -- `(*socket) << ack`, with the bytes that it puts on the way.
  abbrev pub answered : Line → Text → Reply → Line
  answered l server_id (answer t) = record l {
    bytes = with_bytes l.bytes server_id (put_text c pipe session_key t (l.bytes server_id)).1;
  }
  answered l server_id (sleep i revision) = l

  abbrev pub reacted : Line → Text → Outcome Reaction → Line
  reacted l server_id (returns r) =
      answered (record l { servers = with_server l.servers server_id r.server }) server_id r.reply
  reacted l server_id throws = l
  reacted l server_id undefined = l

  -- A round of the loop of client_handler, once `(*socket) >> message` is done: it throws, or gives a
  -- text.
  unfoldable pub serve : Line → Text → Outcome Text → Line
  serve l server_id (returns []) = l
  serve l server_id (returns (b ∷ message)) =
      reacted l server_id (handle y (l.servers server_id) client_id (b ∷ message))
  serve l server_id throws = l
  serve l server_id undefined = l

  -- `sock >> req`, with what it has taken from the bytes under way.
  abbrev pub fetched : Line → Text → Outcome Text × List ℕ → Outcome Text × Line
  fetched l server_id (t, rest) = (t, record l { bytes = with_bytes l.bytes server_id rest })

  -- The connections to the servers, whose ends share a session key.
  unfoldable pub secured : Network Line
  unfolding serve
  secured = record {
    connect = λ conf l. (returns (record Socket.create { sockfd = pos 3 }), l);
    send = λ server_id t l.
        let (status, queue) = put_text c pipe session_key t [] in
        (status, serve l server_id (get_text c pipe session_key queue).0);
    receive = λ server_id l. fetched l server_id (get_text c pipe session_key (l.bytes server_id));
  }

  -- The line when the server has answered.
  abbrev answered_line : Line → Text → Text → Reaction → Line
  answered_line l server_id a r = record {
    servers = with_server l.servers server_id r.server;
    bytes = with_bytes l.bytes server_id (l.bytes server_id ++ frame c session_key a);
  }

  reacts :
      (l : Line) (server_id t a : Text) (r : Reaction)
      → t ≢ []
      → handle y (l.servers server_id) client_id t ≡ returns r
      → r.reply ≡ answer a
      → serve l server_id (returns t) ≡ answered_line l server_id a r
  unfolding serve
  reacts l server_id [] a r some_text h p = absurd (some_text refl)
  reacts l server_id (b ∷ bs) a r some_text h p =
      rw (h, serve) (rw (p, serve) (rw (puts c session_key a (l.bytes server_id)) refl))

  sends :
      (l : Line) (server_id t a : Text) (r : Reaction)
      → Fits c session_key t
      → handle y (l.servers server_id) client_id t ≡ returns r
      → r.reply ≡ answer a
      → secured.send server_id t l ≡ (returns tt, answered_line l server_id a r)
  unfolding secured
  sends l server_id t a r f h p =
      ap
        (λ (q : Outcome (Unit {0}) × List ℕ).
          (q.0, serve l server_id (get_text c pipe session_key q.1).0))
        (puts c session_key t [])
      ∙ ap (λ bs. (unit_returned, serve l server_id (get_text c pipe session_key bs).0))
          (sym (append-nil (frame c session_key t)))
      ∙ ap (λ (q : Outcome Text × List ℕ). (unit_returned, serve l server_id q.0))
          (gets c session_key t [] f)
      ∙ ap (λ l'. (unit_returned, l')) (reacts l server_id t a r f.some_text h p)
    where
      unit_returned : Outcome (Unit {0})
      unit_returned = returns tt

  abbrev fetched_line : Line → Text → Text → Reaction → List Text → Line
  fetched_line l server_id a r olds = record (answered_line l server_id a r) {
    bytes =
        with_bytes (answered_line l server_id a r).bytes server_id
          (packets c session_key (later c session_key olds a));
  }

  exchanges :
      (l : Line) (server_id t a : Text) (r : Reaction) (olds : List Text)
      → l.bytes server_id ≡ packets c session_key olds
      → Fits c session_key t
      → Fits c session_key (first c session_key olds a)
      → handle y (l.servers server_id) client_id t ≡ returns r
      → r.reply ≡ answer a
      → exchange secured server_id t l
        ≡ returns (some (first c session_key olds a), fetched_line l server_id a r olds)
  unfolding exchange sent secured
  exchanges l server_id t a r olds under_way f g h p =
      ap (sent secured server_id) (sends l server_id t a r f h p)
      ∙ ap (λ q. received secured (fetched (answered_line l server_id a r) server_id q))
          (ap (get_text c pipe session_key) there
            ∙ gets c session_key (first c session_key olds a)
                (packets c session_key (later c session_key olds a)) g)
    where
      there :
          (answered_line l server_id a r).bytes server_id
          ≡ frame c session_key (first c session_key olds a)
            ++ packets c session_key (later c session_key olds a)
      there =
          rw (==_refl server_id)
            (ap (λ bs. bs ++ frame c session_key a) under_way ∙ packets-first c session_key olds a)

  -- Answers are read in the order in which they were sent, whatever they are answers to: where answers to
  -- earlier requests are still under way from a server, a request to it returns the first of these, and
  -- the answer to the request itself is left behind them. The bytes from other servers stay. This is for a
  -- request that a server answers, where no text is empty and each fits into a packet that is deciphered
  -- to it.
  pub exchange_in_order :
      (l : Line) (server_id t a : Text) (r : Reaction) (olds : List Text)
      → l.bytes server_id ≡ packets c session_key olds
      → Fits c session_key t
      → Fits c session_key (first c session_key olds a)
      → handle y (l.servers server_id) client_id t ≡ returns r
      → r.reply ≡ answer a
      → (l' : Line) × (exchange secured server_id t l
          ≡ returns (some (first c session_key olds a), l'))
        × (l'.servers ≡ with_server l.servers server_id r.server)
        × (l'.bytes server_id ≡ packets c session_key (later c session_key olds a))
        × ((other : Text) → other ≢ server_id → l'.bytes other ≡ l.bytes other)
  exchange_in_order l server_id t a r olds under_way f g h p = (
    fetched_line l server_id a r olds,
    exchanges l server_id t a r olds under_way f g h p,
    refl,
    rw (==_refl server_id) refl,
    λ other q. rw (==_false server_id other (λ e. q (sym e))) refl,
  )

  pub delivers :
      (server_id t a : Text) (l : Line) {r : Reaction}
      → (l.bytes server_id ≡ []) × Fits c session_key t × Fits c session_key a
      → handle y (l.servers server_id) client_id t ≡ returns r
      → r.reply ≡ answer a
      → (l' : Line) × (exchange secured server_id t l ≡ returns (some a, l'))
        × (l'.servers server_id ≡ r.server)
        × ((other : Text) → other ≢ server_id → l'.servers other ≡ l.servers other)
  delivers server_id t a l {r} (idle, f, g) h p = (
    fetched_line l server_id a r [],
    exchanges l server_id t a r [] idle f g h p,
    rw (==_refl server_id) refl,
    λ other q. rw (==_false server_id other (λ e. q (sym e))) refl,
  )

  -- Where nothing is under way from a server, texts pass of which each fits into a packet.
  abbrev pub secured-Delivers : Delivers y secured (λ l. l.servers) client_id
  secured-Delivers = record {
    Passes =
        λ l server_id t a. (l.bytes server_id ≡ []) × Fits c session_key t × Fits c session_key a;
    delivered = λ server_id t a l passes h p. delivers server_id t a l passes h p;
  }
