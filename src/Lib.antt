-- ===== src/Lib.antt =====
-- Two Rounds is a peer-to-peer network for the search of files, written in C. A peer keeps some of the
-- other peers as neighbours and learns of others by gossip. This library models the state that a peer
-- keeps, the handlers of its messages, its rounds of gossip, its start, searches and end, the locks
-- between its threads, a network of such peers, and the bootstrap server.
--
-- The parts of the program and the files that model them:
--   * Peer, Params: the pair of port and address, and the constants of two_rounds/strutture.h.
--   * Neighbour: the neighbour buffer of two_rounds/func_strutture.c, seven lists of peers by age.
--     `insert_peer` is `insert_peer_BNeighbour`, `insert_sorgente` and `insert_gossip` are
--     `insert_sorgente_gossipInf` and `insert_peer_gossipInf`, `search_peer` and `delete_peer` are
--     `search_peer_buffer_neighbour` and `delete_peer_buffer_neighbour`; `age_plus_one` has its name.
--   * Slots, MessageLog, ByePeers: the ids of the messages seen and the peers that have left
--     (`searchInsert_id_buffer_message`, `searchInsert_buffer_bye_peer` and their neighbours).
--   * RoundSpeed: the messages that wait to be sent on (`insert_messageRS`, `rotation_buffer_rs`,
--     `get_message_buffer_rs`). Events: the searches and their answers (`insert_event`).
--   * MyFiles: the shared files (`insert_MYfile`), the search for a hash (`search_hashfile`,
--     `search_hash_buffer_neighbour`) and the hashes of a message (`insert_random_hash_file`).
--     Sharing: `list_dir` and the whole of `file_cond`, which share the files at the start.
--   * Random, Ident, Fanout: `num_random`, `initX`, `random_age`; the message ids; `new_fanout`.
--   * Wire: the messages of two_rounds/strutture.h and `dif_str`.
--   * Handlers: the handlers of two_rounds/dispatcher_msg.c, which use all of these. Inform: the
--     information gossip of two_rounds/dispatcher_inf.c. The threads of `helper_query` end, or end the
--     process with the code 1, as `exit_hinf` says.
--   * Rounds: a round speed of two_rounds/process_RG_RS.c, `process_RS`. One thread takes all messages;
--     30 fit into the buffer, so 31 turns are enough.
--   * Gossip: the information gossips that a peer composes, `new_gossip_inf2` and `new_buffer_rg`.
--   * RoundGossip: one turn of the loop of `process_RG`. It chooses the fanout, composes and sends the
--     gossips, ages the neighbours, forgets what is dated, and runs the round speed eleven times; the
--     dispatchers work off what comes in between any two of these steps.
--   * OwnMessages: the messages that a peer makes. Search: `process_in` and `process_out` of
--     two_rounds/process_InOut.c, and `func_helper_rhb` of two_rounds/dispatcher_msg.c, which no code
--     starts. Bootstrap: `bootstrap2_ciclic` of two_rounds/bootstrap.c. Leaving: `proc_exit_all` and
--     `invio_gossip_bye` of two_rounds/exit.c.
--   * Settings: the file setting.txt, as two_rounds/menu.c writes it and `file_cond` reads it. What is
--     typed is split into words at white space, as `scanf` does.
--   * Simulator: Simulatori/Simulator_v1.0, the nodes, their fanout, a round of gossip and the
--     statistics of a node and of a query, and the coverage of the network. Its Run is `main` of
--     simulator.c up to the statistics.
--   * Network: peers that send each other messages and gossips, whose threads take their steps in any
--     order. It uses the handlers, the steps of a round, the searches, the start and the exit.
--   * BootServer: the table and the answers of server_bootstrap/func_strutture.c.
--   * Sync: the locks of two_rounds/sincronization.c as threads that interleave their steps; `++` and `--`
--     of a counter are one step each.
--   * Base: what the other modules share. Tests: runs at concrete inputs.
--
-- An array is a list of fixed length, and a write out of bounds leaves a list as it is; the theorems on
-- validity say that the indices are within the bounds. Where an index comes from outside, as the
-- answer of the server, an event or a node, the result is `none`, `undefined` or `out_of_bounds`. The removals of a neighbour write behind the
-- cell that they free, so the cells of a list are laid out byte by byte for that write; a write
-- behind the whole list is outside the model. A `char` is a byte whose sign is read where the source
-- compares it.
-- An operation that the source runs under a lock is one step; Sync is about the locks themselves.
--
-- What is not under the model: the time, what `rand()` returns and whether a connection is made are
-- arguments. A loop that draws until it likes what it got takes the results of `rand()` as a list and
-- stops when it is used up. `num_random` rounds its product as a double does, in a ladder of ten
-- steps, enough for a product of two 31-bit numbers.
-- Threads that a round starts run one after the other, in the order of their creation, also those that
-- process_RG_RS.c does not join: what they could do at the same time as the rest of the round is not
-- under the model. In Network, other peers and other threads of a peer take their steps between the
-- steps of a round.
-- Not modelled: threads and sockets as such, `pthread_create` that fails, the memory that is freed,
-- printing, MD5 (a parameter of the searches and of the shared files), `scandir`, `stat`
-- and what stands in memory behind a hash (a parameter of Sharing), the menus, the main programs of a peer and of the server, the averages that
-- a simulator prints, and the two other versions in Simulatori.
pub mod Base
pub mod Params
pub mod Peer
pub mod Neighbour
pub mod Network
pub mod Slots
pub mod Wire
pub mod MessageLog
pub mod ByePeers
pub mod Sync
pub mod RoundSpeed
pub mod Events
pub mod MyFiles
pub mod Random
pub mod Fanout
pub mod Ident
pub mod Gossip
pub mod Handlers
pub mod OwnMessages
pub mod Search
pub mod Bootstrap
pub mod Leaving
pub mod Settings
pub mod Sharing
pub mod Inform
pub mod BootServer
pub mod Rounds
pub mod RoundGossip
pub mod Simulator
pub mod Tests
