-- ===== src/Lib.antt =====
-- A model of Distributed Memory, a memory of fixed-size blocks that several programs share over a
-- network: a server (src/server.cpp, include/dm/block_server.h) keeps the blocks, a library
-- (src/client.cpp, include/dm/client.h) copies them into the memory of its user.
--
-- A block has an id, a revision and 128 bytes. A program maps a block, updates its copy, and writes it
-- back; the server takes a write only at the revision that it has. Client and server talk in texts
-- that src/message.cpp emits and parses, over connections of src/socket/.
--
-- The parts and their files:
--   Prelude: numbers, lists, the `int` of C with its overflow, texts as character codes, the maps of
--     std::map as sorted association lists, and `Outcome`, the result of code that returns, throws or
--     has undefined behaviour.
--   Memory: the memory of a process, by addresses.
--   Block, BlockServer, BlockLocal: include/dm/block*.h and src/block*.cpp. An area is a list of
--     bytes, `none` for a null pointer; for a local block it lies in the memory.
--   Yaml: the interface of yaml-cpp, a parameter with laws; Yaml/Codec is an instance.
--   Message: src/message.h and src/message.cpp.
--   Config: include/dm/config.h and src/config.cpp. The contents of the file are an argument.
--   Server: src/server.cpp. `Server.handle` is client_handler on one message, whose effect on
--     the blocks is under the mutex; a WAIT may sleep instead of answering. Server/Store says what a request does without lists
--     and texts, as a store of versions that the clients map. Server/Threads has the threads as a step
--     relation over all orders in which they take the mutex; Server/Threads/Serial relates it to the
--     store. Server/Life is Server::start, Server::stop and the
--     destructor; Server/Serving, Server/Accepting and Server/Starting are about the descriptors and
--     the session keys of the clients that are accepted.
--   Network: what a client sees of its connections, as operations on a state `W`.
--   Socket: src/socket/socket.cpp. The system calls are the parameters `Os`, for a connection, and
--     `Kernel`; `Descriptors` says which calls of a kernel open and close a descriptor.
--     Socket/Peers has the address of a peer and Server::get_client_id.
--   Secure: src/socket/secure_socket.cpp, with OpenSSL as the parameter `Crypto`;
--     Secure/Agreement and Secure/Clients are about the end of the handshake at a server and at a
--     client, and Secure/BothSides has a client and a server read what the other has sent.
--     Secure/Endpoints opens and accepts, from the key files of the parameter `Ssl`, with the classes of
--     src/socket/socket_server.cpp and src/socket/socket_client.cpp. Secure/Passphrases is about the
--     passphrases that a server takes.
--   Logger: src/logger.cpp.
--   Program: src/dmserver.cpp; Program/Signals has the start of the server and the handler of SIGINT.
--   Demo: the programs of debug/secure_socket/.
--   Reader: the programs of test/reader/ on top of the client library.
--   Client: src/client.cpp, with the status codes as numbers.
--   Session: a client connected to servers. `Delivers` assumes that a request gets to the server and
--     its answer back where the connection lets both pass. Session/Loopback is a network on which
--     everything passes. On the encrypted connection of Session/Secured texts pass that fit into a
--     packet, where no earlier answer is under way. Session/Threaded is a connection to one of several
--     threads of a server, which run on while the client waits. Session/Starts is dm_init, and
--     Session/Courses a client from dm_init to its first write; Session/Conflicts has a write that is
--     refused, and what follows.
--   Tests: the theorems at concrete data.
--
-- The loop that receives a text (Socket/Texts) has the number of its calls of recv as fuel; how
-- much is enough is the subject of Socket.Texts.receive_loop_lem. The loops of Reader that wait
-- for another program have the number of their rounds as fuel; no number is enough, since the
-- other program may never answer. All other functions recurse on the data that they read. The size
-- of a block is that of include/dm/type.h. The revision is an int, whose overflow wraps around.
--
-- The loop of Server::start does not end; Server/Life has what it has done after a list of events, each a
-- round of the loop or the end of a thread.
--
-- Not modelled: the lines that the parts log, except that a write reads its data as a C string to log it
-- (`Server.logged_data`); that threads of a server use the static maps of src/message.cpp outside the
-- mutex, a data race whose outcome the language does not define (a step parses its message at once);
-- flags of system calls, the freeing of memory, and the unit tests, of which Tests/Units repeats those on
-- blocks and configurations. The library lib/gtest is another project's.
pub mod Prelude
pub mod Memory
pub mod Block
pub mod BlockServer
pub mod BlockLocal
pub mod Yaml
pub mod Message
pub mod Config
pub mod Server
pub mod Network
pub mod Socket
pub mod Secure
pub mod Program
pub mod Logger
pub mod Demo
pub mod Reader
pub mod Client
pub mod Session
pub mod Tests
