-- ===== src/Session/Starts.antt =====
-- `dm_init` of src/client.cpp: the connections to the servers of the configuration.
use distributed_memory.Prelude.{
  ◌≡◌, refl, sym, ap, subst, ◌∙◌, ◌⊎◌, inl, inr, ℤ, int_key, true, false, none, some, [], ◌∷◌, ◌++◌,
  Text, text_key, ◌==◌, ==_iff, Bool-cases, returns,
}
use distributed_memory.Prelude.Assoc.{Map, find, put, find-put}
use distributed_memory.Yaml.{Yaml}
use distributed_memory.Config
use distributed_memory.Config.{Config, ServerConf, find_server_id_by_block_id}
use distributed_memory.Config.Owners.{find_server_id_by_block_id_lem}
use distributed_memory.Network.{Network}
use distributed_memory.Socket.{Socket, is_valid}
use distributed_memory.Server.{Server}
use distributed_memory.Server.Invariant.{IsValid}
use distributed_memory.Client.{State, is_empty, with_world, connect_all, dm_init}
use distributed_memory.Session.Maps.{Fresh}

-- Every server of a configuration can be connected to, and no server notices.
pub record Connects {W : Type 0} (n : Network W) (servers : W → Text → Server) : Type 0 where
  pub connected :
      (conf : ServerConf) (w : W)
      → (socket : Socket) × (w' : W) × (n.connect conf w ≡ (returns socket, w'))
        × (is_valid socket ≡ true)
        × ((i : Text) → servers w' i ≡ servers w i)

-- An id of a server that is listed.
abbrev pub IsListed : Text → Map Text ServerConf → Type 0
IsListed id [] = ⊥
IsListed id ((i, conf) ∷ servers) = (i ≡ id) ⊎ IsListed id servers

split-IsListed :
    (id : Text) (conf : ServerConf) (before after : Map Text ServerConf)
    → IsListed id (before ++ (id, conf) ∷ after)
split-IsListed id conf [] after = inl refl
split-IsListed id conf (s ∷ before) after = inr (split-IsListed id conf before after)

-- The owner of a block is listed, unless it is the empty text.
owner-IsListed :
    (c : Config) (b : ℤ)
    → is_empty (find_server_id_by_block_id c b) ≡ false
    → IsListed (find_server_id_by_block_id c b) c.servers
owner-IsListed c b h = elim (find_server_id_by_block_id_lem c b) [
  | inl (e, _) ↦ cc (rw e at h)
  | inr o ↦
      subst (IsListed (find_server_id_by_block_id c b)) (sym o.split)
        (split-IsListed (find_server_id_by_block_id c b) o.server o.before o.after)
]

-- A client is connected to a server.
abbrev pub IsConnected : {W : Type 0} → State W → Text → Type 0
IsConnected s id =
    (socket : Socket) × (find id s.client.sockets ≡ some socket) × (is_valid socket ≡ true)

module _ {W : Type 0} (n : Network W) {servers : W → Text → Server} (net : Connects n servers) where
  abbrev with_socket : State W → Text → Socket → W → State W
  with_socket s id socket w = record (with_world s w) {
    client = record s.client { sockets = put id socket s.client.sockets };
  }

  put-IsConnected :
      (s : State W) (i : Text) (socket : Socket) (w : W) (id : Text)
      → is_valid socket ≡ true
      → (i ≡ id) ⊎ IsConnected s id
      → IsConnected (with_socket s i socket w) id
  put-IsConnected s i socket w id live h = elim (Bool-cases (i == id)) [
    | inl same ↦ (socket, find-put i id socket s.client.sockets ∙ rw same refl, live)
    | inr other ↦ elim h [
      | inl e ↦ cc ((==_iff i id).1 e, other)
      | inr (old, found, alive) ↦
          (old, find-put i id socket s.client.sockets ∙ rw other found, alive)
    ]
  ]

  -- The loop connects to all servers, and changes nothing else.
  connect_all_lem :
      (confs : Map Text ServerConf) (s : State W)
      → (sockets : Map Text Socket) × (w : W) × (connect_all n confs s ≡ (
        returns tt,
        record (with_world s w) { client = record s.client { sockets = sockets } },
      ))
        × ((id : Text)
            → IsListed id confs ⊎ IsConnected s id
            → (socket : Socket) × (find id sockets ≡ some socket) × (is_valid socket ≡ true))
        × ((i : Text) → servers w i ≡ servers s.world i)
  unfolding connect_all
  connect_all_lem [] s = (
    s.client.sockets,
    s.world,
    refl,
    λ id h. elim h [ inl none_is ↦ absurd none_is | inr c ↦ c ],
    λ i. refl,
  )
  connect_all_lem ((i, conf) ∷ confs) s =
      let (socket, w, ran, live, same) = net.connected conf s.world in
      let (sockets, w', rest, all, kept) = connect_all_lem confs (with_socket s i socket w) in
      (
        sockets,
        w',
        rw (ap (λ q. q.0) ran, connect_all) (rw (ap (λ q. q.1) ran) rest),
        λ id h. all id (later s i socket w id live h),
        λ j. kept j ∙ same j,
      )
    where
      later :
          (s : State W) (i : Text) (socket : Socket) (w : W) (id : Text)
          → is_valid socket ≡ true
          → ((i ≡ id) ⊎ IsListed id confs) ⊎ IsConnected s id
          → IsListed id confs ⊎ IsConnected (with_socket s i socket w) id
      later s i socket w id live (inl (inl e)) = inr (put-IsConnected s i socket w id live (inl e))
      later s i socket w id live (inl (inr l)) = inl l
      later s i socket w id live (inr c) = inr (put-IsConnected s i socket w id live (inr c))

  -- `dm_init` on a file with a valid configuration, where every server can be connected to: it returns,
  -- and for a block that has a server, and that the client has not mapped, the client is connected to
  -- that server and can map the block. The servers and the memory are as before.
  pub dm_init_lem :
      (y : Yaml) (contents : Text) (s : State W) (id : ℤ)
      → Config.is_valid (Config.create y contents) ≡ true
      → is_empty (find_server_id_by_block_id (Config.create y contents) id) ≡ false
      → find id s.client.blocks ≡ none
      → IsValid (servers s.world (find_server_id_by_block_id (Config.create y contents) id))
      → (s' : State W) × (r : Fresh servers s' id) × (dm_init n y contents s ≡ (returns tt, s'))
        × (r.server_id ≡ find_server_id_by_block_id (Config.create y contents) id)
        × (s'.memory ≡ s.memory)
        × ((i : Text) → servers s'.world i ≡ servers s.world i)
  unfolding dm_init
  dm_init_lem y contents s id valid named unmapped v =
      let config = Config.create y contents in
      let s' = record s { client = record s.client { config = config } } in
      let (sockets, w, ran, all, kept) = connect_all_lem config.servers s' in
      let (socket, found, live) = all _ (inl (owner-IsListed config id named)) in
      (
        _,
        record {
          server_id = find_server_id_by_block_id config id;
          owner = refl;
          named = named;
          socket = socket;
          connected = found;
          live = live;
          unmapped = unmapped;
          server_valid = subst IsValid (sym (kept _)) v;
        },
        rw (valid, dm_init) ran,
        refl,
        refl,
        kept,
      )
