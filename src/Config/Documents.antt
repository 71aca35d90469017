-- ===== src/Config/Documents.antt =====
-- The configuration file that the constructor of src/config.cpp reads: a document that lists servers.
use distributed_memory.Prelude.{
  ℕ, suc, ◌+◌, ◌≡◌, refl, ap, subst, ◌∙◌, arith, ℤ, Bool, Option, none, some, List, [], ◌∷◌, ◌++◌,
  Text, text_key, codes, length,
}
use distributed_memory.Prelude.Assoc.{Map, put}
use distributed_memory.Yaml.{
  Yaml, Node, Nodes, scalar, sequence, mapping, nil, cons, end, field, flow, serialize, stop,
  find_value, field_at, as_text, as_int,
}
use distributed_memory.Config
use distributed_memory.Config.{Config, ServerConf, id_of}

pub int_nodes : Yaml → List ℤ → Nodes
int_nodes y [] = nil
int_nodes y (i ∷ is) = cons (scalar (y.write_int i)) (int_nodes y is)

-- The entry of a server, and the document of several.
abbrev pub server_node : Yaml → ServerConf → Node
server_node y conf = mapping (
    field (codes "ip") (scalar conf.ip) (
      field (codes "port") (scalar conf.port) (
        field (codes "blocks") (sequence (int_nodes y conf.blocks_id)) (
          field (codes "pass") (scalar conf.pass) (
            field (codes "privkey") (scalar conf.privkey)
              (field (codes "pubkey") (scalar conf.pubkey) end))))))

pub server_nodes : Yaml → List ServerConf → Nodes
server_nodes y [] = nil
server_nodes y (conf ∷ confs) = cons (server_node y conf) (server_nodes y confs)

-- Servers added to a map in their order, so that the last of two with one address stays.
abbrev pub added : List ServerConf → Map Text ServerConf → Map Text ServerConf
added [] servers = servers
added (conf ∷ confs) servers = added confs (put (id_of conf) conf servers)

shift_nth :
    (ns rest : Nodes) (n : Node) (i : ℕ)
    → ((j : ℕ) → Config.nth ns (i + j) ≡ Config.nth (cons n rest) j)
    → (j : ℕ) → Config.nth ns (suc i + j) ≡ Config.nth rest j
unfolding Config.nth
shift_nth ns rest n i h j =
    subst (λ k. Config.nth ns k ≡ Config.nth rest j) (omega arith) (h (suc j))

first_nth :
    (ns rest : Nodes) (n : Node) (i : ℕ)
    → ((j : ℕ) → Config.nth ns (i + j) ≡ Config.nth (cons n rest) j)
    → Config.nth ns i ≡ some n
unfolding Config.nth
first_nth ns rest n i h = subst (λ k. Config.nth ns k ≡ some n) (omega arith) (h 0)

from_start : (ns : Nodes) (j : ℕ) → Config.nth ns (0 + j) ≡ Config.nth ns j
from_start ns j = ap (Config.nth ns) (omega arith)

module _ (y : Yaml) where
  ints_from_lem :
      (ns : Nodes) (is : List ℤ) (i : ℕ)
      → ((j : ℕ) → Config.nth ns (i + j) ≡ Config.nth (int_nodes y is) j)
      → Config.ints_from y (sequence ns) i (length is) ≡ some is
  unfolding Config.ints_from Config.node_at as_int int_nodes
  ints_from_lem ns [] i h = refl
  ints_from_lem ns (x ∷ xs) i h =
      rw
        (
          first_nth ns (int_nodes y xs) (scalar (y.write_int x)) i h,
          y.read_int-write_int x,
          ints_from_lem ns xs (suc i) (shift_nth ns (int_nodes y xs) (scalar (y.write_int x)) i h),
        )
        refl

  count-int_nodes : (is : List ℤ) → Config.count_nodes (int_nodes y is) ≡ length is
  unfolding Config.count_nodes int_nodes
  count-int_nodes [] = refl
  count-int_nodes (i ∷ is) = ap suc (count-int_nodes is)

  count-server_nodes :
      (confs : List ServerConf) → Config.count_nodes (server_nodes y confs) ≡ length confs
  unfolding Config.count_nodes server_nodes
  count-server_nodes [] = refl
  count-server_nodes (conf ∷ confs) = ap suc (count-server_nodes confs)

  parse_server_lem : (conf : ServerConf) → Config.parse_server y (server_node y conf) ≡ some conf
  unfolding Config.parse_server Config.text_at Config.size find_value field_at as_text
  parse_server_lem conf =
      rw
        (
          count-int_nodes conf.blocks_id,
          ints_from_lem (int_nodes y conf.blocks_id) conf.blocks_id 0
              (from_start (int_nodes y conf.blocks_id)),
        )
        refl

  parse_servers_lem :
      (ns : Nodes) (confs : List ServerConf) (i : ℕ) (servers : Map Text ServerConf)
      → ((j : ℕ) → Config.nth ns (i + j) ≡ Config.nth (server_nodes y confs) j)
      → Config.parse_servers y (sequence ns) i (length confs) servers ≡ some (added confs servers)
  unfolding Config.parse_servers Config.node_at server_nodes
  parse_servers_lem ns [] i servers h = refl
  parse_servers_lem ns (conf ∷ confs) i servers h =
      rw (first_nth ns (server_nodes y confs) (server_node y conf) i h, parse_server_lem conf)
        (parse_servers_lem ns confs (suc i) (put (id_of conf) conf servers)
          (shift_nth ns (server_nodes y confs) (server_node y conf) i h))

  -- A file that lists servers is read as the configuration with just these servers, each under its
  -- address; of two with the same address the later one counts.
  pub create-server_nodes :
      (confs : List ServerConf)
      → Config.create y (y.dump (flow ∷ serialize (sequence (server_nodes y confs)) []) ++ stop)
        ≡ record { servers = added confs [] }
  unfolding Config.create Config.parse_document Config.size
  create-server_nodes confs =
      ap config_of (y.get_next_document-dump (sequence (server_nodes y confs)) none)
      ∙ rw
          (
            count-server_nodes confs,
            parse_servers_lem (server_nodes y confs) confs 0 [] (from_start (server_nodes y confs)),
          )
          refl
    where
      config_of : Option Node × Bool → Config
      config_of r = record {
        servers = elim (Config.parse_document y r.0 r.1) [ none ↦ [] | some servers ↦ servers ];
      }
