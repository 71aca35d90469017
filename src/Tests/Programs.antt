-- ===== src/Tests/Programs.antt =====
-- The theorem on the server program at a command line and a file.
use distributed_memory.Prelude.{
  ◌≡◌, ◌≢◌, refl, ap, ◌∙◌, int_key, text_key, List, [], ◌∷◌, ◌++◌, Text, codes, returns,
}
use distributed_memory.Prelude.Assoc.{find, put}
use distributed_memory.Yaml.{stop, flow, serialize, sequence}
use distributed_memory.Yaml.Codec.{codec}
use distributed_memory.Config
use distributed_memory.Config.{Config}
use distributed_memory.Config.Documents.{create-server_nodes, server_nodes}
use distributed_memory.Server
use distributed_memory.Server.{Server}
use distributed_memory.Server.Invariant.{create_lem}
use distributed_memory.Program.{
  Flag, config_flag, id_flag, parse_args, run_server, run_args, starts, main, Described, usages,
  last_or, ids, config_paths, main_lem,
}
use distributed_memory.Tests.{config, home, home_conf}

-- Every file has the configuration of the tests.
pub contents : Text
contents = codec.dump (flow ∷ serialize (sequence (server_nodes codec (home_conf ∷ []))) []) ++ stop

abbrev files : Text → Text
files path = contents

abbrev flags : List Flag
flags = config_flag (codes "a.yml") ∷ id_flag home ∷ []

made : (s : Server) × (Server.create config home ≡ returns s)
made =
    let (s, e, _, _) =
      create_lem config home home_conf (unfold Config.is_valid in refl)
        (unfold Config.find find in refl) in
    (s, e)

pub read_config : Config.create codec contents ≡ config
unfolding contents put
read_config = create-server_nodes codec (home_conf ∷ [])

runs : main codec files flags ≡ starts made.0
unfolding main parse_args run_args run_server
runs = ap (λ c. run_server (Server.create c home)) read_config ∙ ap run_server made.1

main_lem_example :
    (usages flags ≡ [])
    × (last_or [] (ids flags) ≢ [])
    × Described codec
        (files (last_or (codes "dmconfig.yml") (config_paths flags)))
        (last_or [] (ids flags))
        made.0
main_lem_example = main_lem codec files flags made.0 runs
