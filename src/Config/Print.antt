-- ===== src/Config/Print.antt =====
-- The output operator of src/config.cpp.
use distributed_memory.Prelude.{ℤ, List, [], ◌∷◌, ◌++◌, Text, codes}
use distributed_memory.Prelude.Assoc.{Map}
use distributed_memory.Prelude.Decimal.{print_int}
use distributed_memory.Config.{Config, ServerConf}

-- The loop over the blocks, with a comma behind all but the last.
unfoldable pub print_blocks : List ℤ → Text
print_blocks [] = []
print_blocks (b ∷ []) = print_int b
print_blocks (b ∷ c ∷ bs) = print_int b ++ (codes ", " ++ print_blocks (c ∷ bs))

unfoldable pub print_server : Text → ServerConf → Text
unfolding print_blocks
print_server server_id server =
    codes "Server "
    ++ (server_id
        ++ (codes "\n  ip:      "
            ++ (server.ip
                ++ (codes "\n  port:    "
                    ++ (server.port
                        ++ (codes "\n  blocks:  ["
                            ++ (print_blocks server.blocks_id
                                ++ (codes "]\n  pass:    "
                                    ++ (server.pass
                                        ++ (codes "\n  privkey: "
                                            ++ (server.privkey
                                                ++ (codes "\n  pubkey:  "
                                                    ++ (server.pubkey ++ codes "\n")))))))))))))

unfoldable pub print_servers : Map Text ServerConf → Text
unfolding print_server
print_servers [] = []
print_servers ((server_id, server) ∷ servers) =
    print_server server_id server ++ print_servers servers

-- operator<<
unfoldable pub print : Config → Text
unfolding print_servers
print c = print_servers c.servers
