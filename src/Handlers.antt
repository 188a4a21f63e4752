-- ===== src/Handlers.antt =====
-- The dispatcher of the messages, two_rounds/dispatcher_msg.c: what a peer does with a ping, a pong, a
-- bye, a query and a query hit. One thread runs a handler; each call of a buffer's operation is one
-- step, and the handler is their sequence.
pub mod Steps
pub mod Invariant
pub mod Laws
use rounds.Base.{
  ℕ, zero, suc, ◌+◌, Bool, true, false, Option, none, some, List, [], ◌∷◌, ◌==◌, if◌then◌else◌,
  take, get_or, ◌||◌, ◌++◌,
}
use rounds.Params.{max_age, raggio_query, hash_size, max_evt}
use rounds.Peer.{Peer}
use rounds.Wire.{
  GossipMessage, boot_ping2, boot_pong2, bye, query, query_hits, char_below, zero_hashes,
}
use rounds.Neighbour.{Neighbour, BufferNeighbour, insert_peer, search_peer, delete_peer}
use rounds.MessageLog.{BufferMessage, search_insert_id}
use rounds.ByePeers.{BufferByePeer, search_bye_peer, search_insert_peer, delete_bye_peer}
use rounds.RoundSpeed.{BufferRs, insert_message_rs}
use rounds.Events.{BufferEvent, record_hit}
use rounds.MyFiles.{
  BufferFile, search_hashfile, insert_random_hash_file, search_hash, init_result_hash,
}
use rounds.Ident.{get_id_message}
use rounds.Random.{init_x, random_age}

-- What `socket`, `connect` and `send` come to, for a peer.
pub data Connection : Type 0 where
  connected : Connection
  no_socket : Connection
  not_connected : Connection

-- What does not change while a handler runs: the peer itself, its files, the network, the time, the
-- numbers that `rand()` returns, 0 when there are no more, and the flag that the exit sets.
pub record World : Type 0 where
  pub me : Peer
  pub id_msg_const : List ℕ
  pub files : BufferFile
  pub net : Peer → Connection
  pub now : ℕ
  pub rands : List ℕ
  pub exit_hinf : Bool

-- The shared buffers, and the counter `id_count_msg`.
pub record Node : Type 0 where
  pub neighbours : BufferNeighbour
  pub messages : BufferMessage
  pub bye_peers : BufferByePeer
  pub rs : BufferRs
  pub events : BufferEvent
  pub count : ℕ

-- What a handler does outside the buffers, and what has been done when a reply is reached.
pub data Effect : Type 0 where
  sends : Peer → GossipMessage → Effect
  spawns_helper_msg : Peer → Effect  -- a thread of `func_helper_msg`, for a neighbour with the file

-- A handler ends, or the process does: `exit(code)`, behind what has been done until then.
pub data Reply : Type 0 where
  go_on : Node → List Effect → Reply
  exits : ℕ → List Effect → Reply

abbrev pub as_neighbour : GossipMessage → Neighbour
as_neighbour m = record { peer = m.peer; hash_file = m.hash_file }

-- `insert_random_hash_file` into a message that has been reset, and the random numbers left.
abbrev pub my_hashes : World → List ℕ × List ℕ
my_hashes w = insert_random_hash_file w.files w.rands zero_hashes

-- `gossip_pong` and `gossip_query_hit`: the counter afterwards and the message.
abbrev pub gossip_pong : World → ℕ → ℕ × GossipMessage
gossip_pong w count =
    let (count', id) = get_id_message w.id_msg_const count in
    (
      count',
      record { id = id; pay_desc = boot_pong2; age = 0; peer = w.me; hash_file = (my_hashes w).0 },
    )

abbrev pub gossip_query_hit : World → ℕ → List ℕ → ℕ × GossipMessage
gossip_query_hit w count hash =
    let (count', id) = get_id_message w.id_msg_const count in
    (
      count',
      record {
        id = id;
        pay_desc = query_hits;
        age = 0;
        peer = w.me;
        hash_file = take hash_size hash ++ take hash_size zero_hashes;
      },
    )

-- Connect to the peer `p`, send it `m` and go on with the node `n`.
unfoldable pub send_to : World → Peer → GossipMessage → Node → Reply
send_to w p m n = elim (w.net p) [
  | connected ↦ go_on n (sends p m ∷ [])
  | no_socket ↦ exits 3 []
  | not_connected ↦ exits 4 []
]

abbrev pub done : Reply → List Effect
done (go_on n es) = es
done (exits code es) = es

-- `if (buff->header.age < bound) insert_messageRS(buff); else free(buff);`
unfoldable pub forward : ℕ → GossipMessage → Node → Node
forward bound m n = if char_below m.age bound then record n { rs = insert_message_rs m n.rs } else n

abbrev pub greet : World → GossipMessage → Node → Node
greet w m n = record n { neighbours = insert_peer w.me (as_neighbour m) n.neighbours }

-- The part of `helper_ping` behind the two tests of the buffers: answer a ping of age 0, and one whose
-- age is the one drawn. In the source the message is forwarded behind the answer.
unfoldable pub answer_ping : World → GossipMessage → GossipMessage → Node → Reply
answer_ping w pong m n =
    if m.age == 0
    then send_to w m.peer pong
        (let n' = greet w m n in record n' { rs = insert_message_rs m n'.rs })
    else elim (random_age init_x 1 (get_or (my_hashes w).1 0 0)) [
      | some age ↦
          (if age == m.age
            then send_to w m.peer pong (forward max_age m (greet w m n))
            else go_on (forward max_age m n) [])
      | none ↦ go_on (forward max_age m n) []
    ]

unfoldable pub forget_bye : Peer → Node → Node
forget_bye p n =
    if search_bye_peer p n.bye_peers
    then record n { bye_peers = delete_bye_peer p n.bye_peers }
    else n

unfoldable pub helper_ping : World → GossipMessage → Node → Reply
helper_ping w m n =
    let (count', pong) = gossip_pong w n.count in
    let (log, seen) = search_insert_id w.now m.id n.messages in
    let n' = record n { messages = log; count = count' } in
    if seen then go_on n' [] else answer_ping w pong m (forget_bye m.peer n')

unfoldable pub helper_pong : World → GossipMessage → Node → Reply
helper_pong w m n = go_on (greet w m n) []

unfoldable pub leave : World → GossipMessage → Node → Node
leave w m n =
    let (byes, known) = search_insert_peer w.now m.peer n.bye_peers in
    record n {
      bye_peers = byes;
      neighbours =
          if search_peer n.neighbours m.peer then delete_peer n.neighbours m.peer else n.neighbours;
    }

unfoldable pub helper_bye : World → GossipMessage → Node → Reply
helper_bye w m n =
    let (log, seen) = search_insert_id w.now m.id n.messages in
    let n' = record n { messages = log } in
    if seen then go_on n' [] else go_on (forward max_age m (leave w m n')) []

-- The threads that `helper_query` creates, one for each neighbour that has the file.
unfoldable pub spawn_helpers : ℕ → List Peer → List Effect
spawn_helpers zero ps = []
spawn_helpers (suc n) [] = []
spawn_helpers (suc n) (p ∷ ps) = spawns_helper_msg p ∷ spawn_helpers n ps

abbrev pub is_none_asked : List Effect → Bool
is_none_asked [] = true
is_none_asked (e ∷ es) = false

unfoldable pub ask_neighbours : GossipMessage → Node → List Effect
ask_neighbours m n =
    let r = search_hash (take hash_size m.hash_file) n.neighbours init_result_hash in
    spawn_helpers r.limit r.list

-- The threads are created and joined, and behind them the message goes on. Each thread runs
-- `func_helper_msg` with a pointer as its socket: it ends when `exit_hinf` is set, and its `accept`
-- fails otherwise, which ends the process with the code 1.
unfoldable pub ask_and_forward : World → GossipMessage → Node → List Effect → Reply
ask_and_forward w m n es =
    let asked = ask_neighbours m n in
    if is_none_asked asked || w.exit_hinf
    then go_on (forward raggio_query m n) (es ++ asked)
    else exits 1 (es ++ asked)

-- The part of `helper_query` behind the test: a query hit when the file is there, then the threads,
-- then the message goes on.
unfoldable pub answer_query : World → GossipMessage → Node → Reply
answer_query w m n =
    if search_hashfile (take hash_size m.hash_file) w.files
    then (let (count', hit) = gossip_query_hit w n.count m.id in
        let n' = record n { count = count' } in
        elim (w.net m.peer) [
          | connected ↦ ask_and_forward w m n' (sends m.peer hit ∷ [])
          | no_socket ↦ exits 3 []
          | not_connected ↦ exits 4 []
        ])
    else ask_and_forward w m n []

unfoldable pub helper_query : World → GossipMessage → Node → Reply
helper_query w m n =
    let (log, seen) = search_insert_id w.now m.id n.messages in
    let n' = record n { messages = log } in
    if seen || search_bye_peer m.peer n'.bye_peers then go_on n' [] else answer_query w m n'

unfoldable pub helper_query_hit : World → GossipMessage → Node → Reply
helper_query_hit w m n =
    if search_bye_peer m.peer n.bye_peers
    then go_on n []
    else go_on
        (record n { events = record_hit max_evt m.peer (take hash_size m.hash_file) n.events }) []

-- The `switch` of `func_helper_msg`.
unfoldable pub func_helper_msg : World → GossipMessage → Node → Reply
func_helper_msg w m n =
    if m.pay_desc == boot_ping2
    then helper_ping w m n
    else if m.pay_desc == boot_pong2
    then helper_pong w m n
    else if m.pay_desc == bye
    then helper_bye w m n
    else if m.pay_desc == query
    then helper_query w m n
    else if m.pay_desc == query_hits
    then helper_query_hit w m n
    else go_on n []
