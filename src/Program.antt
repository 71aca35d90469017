-- ===== src/Program.antt =====
-- src/dmserver.cpp: the command line of the server program, up to the start of the server. What
-- `getopt` makes of the command line is an argument, and so are the contents of the files.
pub mod Signals
use distributed_memory.Prelude.{
  ◌≡◌, ◌≢◌, refl, sym, ap, subst, ◌∙◌, ℤ, pos, int_key, Bool-cases, Option-cases, inl, inr, none,
  some, List, [], ◌∷◌, Text, codes, Outcome, returns, throws, undefined, if◌then◌else◌,
}
use distributed_memory.Prelude.Assoc.{find}
use distributed_memory.Yaml.{Yaml}
use distributed_memory.BlockServer
use distributed_memory.Config
use distributed_memory.Config.{Config, ServerConf}
use distributed_memory.Server
use distributed_memory.Server.{Server}
use distributed_memory.Server.Invariant.{IsValid, create_lem}

-- What `getopt` returns one after the other, for the options "-c:i:h".
pub data Flag : Type 0 where
  config_flag : Text → Flag
  id_flag : Text → Flag
  help_flag : Flag
  other_flag : Flag

-- `show_usage` exits with a code; else there are the path of the configuration and the server's id.
pub data Args : Type 0 where
  usage : ℤ → Args
  args : (config_path server_id : Text) → Args

-- parse_args, with the variables that it sets.
unfoldable pub parse_args : List Flag → Text → Text → Args
parse_args [] config_path [] = usage (pos 1)
parse_args [] config_path (c ∷ server_id) = args config_path (c ∷ server_id)
parse_args (config_flag path ∷ flags) config_path server_id = parse_args flags path server_id
parse_args (id_flag id ∷ flags) config_path server_id = parse_args flags config_path id
parse_args (help_flag ∷ flags) config_path server_id = usage (pos 0)
parse_args (other_flag ∷ flags) config_path server_id = usage (pos 1)

-- How `main` goes on: it exits, or it starts a server.
pub data Run : Type 0 where
  exits : ℤ → Run
  starts : Server → Run
  crashes : Run

unfoldable pub run_server : Outcome Server → Run
run_server (returns s) = starts s
run_server throws = exits (pos 1)
run_server undefined = crashes

unfoldable pub run_args : Yaml → (Text → Text) → Args → Run
unfolding run_server
run_args y files (usage code) = exits code
run_args y files (args config_path server_id) =
    run_server (Server.create (Config.create y (files config_path)) server_id)

-- main
unfoldable pub main : Yaml → (Text → Text) → List Flag → Run
unfolding parse_args run_args
main y files flags = run_args y files (parse_args flags (codes "dmconfig.yml") [])

-- The server that the configuration of a file describes for an id.
pub record Described (y : Yaml) (contents id : Text) (s : Server) : Type 0 where
  pub conf : ServerConf
  pub listed : Config.find (Config.create y contents) id ≡ some conf
  pub valid : IsValid s
  pub blocks :
      (k : ℤ)
      → find k s.blocks
        ≡ (if Config.has_block conf.blocks_id k then some (BlockServer.create k) else none)

starts-injective : {s t : Server} → starts s ≡ starts t → s ≡ t
starts-injective e = cc

exits-ne-starts : {code : ℤ} {s : Server} → ¬ (exits code ≡ starts s)
exits-ne-starts e = cc

run_server-Described :
    (y : Yaml) (contents id : Text) (s : Server)
    → run_server (Server.create (Config.create y contents) id) ≡ starts s
    → Described y contents id s
unfolding run_server Server.create
run_server-Described y contents id s h =
    elim (Bool-cases (Config.is_valid (Config.create y contents))) [
      | inr bad ↦ absurd (exits-ne-starts (rw (bad, Server.create) at h))
      | inl good ↦ elim (Option-cases (Config.find (Config.create y contents) id)) [
        | inl missing ↦ absurd (exits-ne-starts (rw (good, Server.create, missing) at h))
        | inr (conf, listed) ↦
            let (t, made, found, valid) =
              create_lem (Config.create y contents) id conf good listed in
            let same : t ≡ s = starts-injective (sym (ap run_server made) ∙ h) in
            subst (Described y contents id) same
              (record { conf = conf; listed = listed; valid = valid; blocks = found })
      ]
    ]

-- The arguments of all `-c`, and of all `-i`, in their order.
abbrev pub config_paths : List Flag → List Text
config_paths [] = []
config_paths (config_flag path ∷ flags) = path ∷ config_paths flags
config_paths (id_flag id ∷ flags) = config_paths flags
config_paths (help_flag ∷ flags) = config_paths flags
config_paths (other_flag ∷ flags) = config_paths flags

abbrev pub ids : List Flag → List Text
ids [] = []
ids (config_flag path ∷ flags) = ids flags
ids (id_flag id ∷ flags) = id ∷ ids flags
ids (help_flag ∷ flags) = ids flags
ids (other_flag ∷ flags) = ids flags

-- The exit codes of the flags that ask for the usage, `-h` and whatever is unknown.
abbrev pub usages : List Flag → List ℤ
usages [] = []
usages (config_flag path ∷ flags) = usages flags
usages (id_flag id ∷ flags) = usages flags
usages (help_flag ∷ flags) = pos 0 ∷ usages flags
usages (other_flag ∷ flags) = pos 1 ∷ usages flags

abbrev pub last_or : Text → List Text → Text
last_or t [] = t
last_or t (u ∷ us) = last_or u us

-- The usage, with the code of the first flag that asks for it; or else the last path and the last id, and the usage
-- if there is no id.
abbrev chosen : List ℤ → Text → Text → Args
chosen (code ∷ codes) config_path id = usage code
chosen [] config_path [] = usage (pos 1)
chosen [] config_path (c ∷ id) = args config_path (c ∷ id)

-- The command line is read so.
parse_args_lem :
    (flags : List Flag) (config_path id : Text)
    → parse_args flags config_path id
      ≡ chosen (usages flags) (last_or config_path (config_paths flags)) (last_or id (ids flags))
unfolding parse_args
parse_args_lem [] config_path [] = refl
parse_args_lem [] config_path (c ∷ id) = refl
parse_args_lem (config_flag path ∷ flags) config_path id = parse_args_lem flags path id
parse_args_lem (id_flag new ∷ flags) config_path id = parse_args_lem flags config_path new
parse_args_lem (help_flag ∷ flags) config_path id = refl
parse_args_lem (other_flag ∷ flags) config_path id = refl

-- Where the program starts a server, no flag has asked for the usage and the last id that is given is
-- not empty; and the server is the one that the file at the last path that is given, or dmconfig.yml
-- where none is, describes for that id: listed there, valid, with exactly the listed blocks, each new.
pub main_lem :
    (y : Yaml) (files : Text → Text) (flags : List Flag) (s : Server)
    → main y files flags ≡ starts s
    → (usages flags ≡ [])
      × (last_or [] (ids flags) ≢ [])
      × Described y
          (files (last_or (codes "dmconfig.yml") (config_paths flags)))
          (last_or [] (ids flags))
          s
unfolding main run_args
main_lem y files flags s h =
    by_chosen (usages flags) (last_or (codes "dmconfig.yml") (config_paths flags))
      (last_or [] (ids flags))
      (ap (run_args y files) (sym (parse_args_lem flags (codes "dmconfig.yml") [])) ∙ h)
  where
    by_chosen :
        (asked : List ℤ) (config_path id : Text)
        → run_args y files (chosen asked config_path id) ≡ starts s
        → (asked ≡ []) × (id ≢ []) × Described y (files config_path) id s
    by_chosen (code ∷ asked) config_path id e = absurd (exits-ne-starts e)
    by_chosen [] config_path [] e = absurd (exits-ne-starts e)
    by_chosen [] config_path (c ∷ id) e =
        (refl, (λ p. cc), run_server-Described y (files config_path) (c ∷ id) s e)
