-- ===== src/Bootstrap.antt =====
-- How a peer enters the network, two_rounds/bootstrap.c: it asks the bootstrap server for peers and
-- greets those until it has enough neighbours. What the server and the peers send is an argument, a
-- list of the contacts with the server.
pub mod Joining
pub mod Refused
pub mod Greeting
pub mod Success
use rounds.Base.{
  ℕ, zero, suc, ◌+◌, Bool, true, false, List, [], ◌∷◌, ◌++◌, length, ltb, if◌then◌else◌,
}
use rounds.Params.{fanout}
use rounds.Peer.{Peer}
use rounds.Wire.{GossipMessage}
use rounds.Neighbour.{init_buffer_neighbour, get_number_neighbour}
use rounds.MessageLog.{init_buffer_message, search_insert_id}
use rounds.ByePeers.{init_buffer_bye_peer}
use rounds.RoundSpeed.{init_buffer_rs}
use rounds.Events.{init_buffer_event}
use rounds.Handlers.{
  Connection, connected, no_socket, not_connected, World, Node, Effect, sends, Reply, go_on, exits,
  func_helper_msg,
}
use rounds.OwnMessages.{my_gossip_ping}
use rounds.BootServer.{ServerNodi}

-- `SERVBOOT_MIN_NODI`
abbrev pub servboot_min_nodi : ℕ
servboot_min_nodi = 3

-- The buffers as `bootstrap` makes them.
unfoldable pub init_node : Node
init_node = record {
  neighbours = init_buffer_neighbour;
  messages = init_buffer_message;
  bye_peers = init_buffer_bye_peer;
  rs = init_buffer_rs;
  events = init_buffer_event;
  count = 0;
}

infixl 5 ◌then_run◌
abbrev pub ◌then_run◌ : Reply → (Node → Reply) → Reply
(go_on n es) then_run f = elim (f n) [
  | go_on n' es' ↦ go_on n' (es ++ es')
  | exits code out ↦ exits code (es ++ out)
]
(exits code out) then_run f = exits code out

-- `boot2_helper`: the ping's own id is remembered before it is sent.
unfoldable pub boot2_helper : World → GossipMessage → Peer → Node → Reply
boot2_helper w ping p n = elim (w.net p) [
  | connected ↦
      go_on (record n { messages = (search_insert_id w.now ping.id n.messages).0 })
        (sends p ping ∷ [])
  | no_socket ↦ exits 3 []
  | not_connected ↦ exits 4 []
]

-- The loop over the peers that the server has named.
unfoldable pub ping_all : World → GossipMessage → ℕ → List Peer → Node → Reply
ping_all w ping zero ps n = go_on n []
ping_all w ping (suc k) [] n = go_on n []
ping_all w ping (suc k) (p ∷ ps) n = boot2_helper w ping p n then_run ping_all w ping k ps

-- What the dispatcher works off while the bootstrap sleeps.
unfoldable pub receive_all : List (World × GossipMessage) → Node → Reply
receive_all [] n = go_on n []
receive_all ((w, m) ∷ more) n = func_helper_msg w m n then_run receive_all more

-- One request to the server: what it answers, and what then comes in.
pub record Contact : Type 0 where
  pub world : World
  pub servboot_nodi : ServerNodi
  pub incoming : List (World × GossipMessage)

unfoldable pub greet_peers : Contact → Node → Reply
greet_peers c n =
    let (count', ping) = my_gossip_ping c.world n.count in
    ping_all c.world ping c.servboot_nodi.limit c.servboot_nodi.boot_neighbour
      (record n { count = count' })
    then_run receive_all c.incoming

-- Where `bootstrap2_ciclic` stands: it has returned, it would ask the server again behind the last
-- contact, the process has ended, or an answer that names more peers than it has room for is read behind
-- its end.
pub data Boot : Type 0 where
  joined : Node → Boot
  asking : Node → Boot
  boot_exits : ℕ → Boot
  out_of_bounds : Boot

-- The end of a turn of the outer loop: `rest` are the turns to come.
abbrev pub when_greeted : (Node → Boot) → Reply → Boot
when_greeted rest (exits code out) = boot_exits code
when_greeted rest (go_on n es) =
    if ltb (get_number_neighbour n.neighbours) fanout then rest n else joined n

-- The wait of the inner loop, `sleep(_TIME_REQUEST_SERVERBOOT)`.
abbrev pub when_asked : (Node → Boot) → Reply → Boot
when_asked rest (exits code out) = boot_exits code
when_asked rest (go_on n es) = rest n

-- Both loops: the inner one asks until the server names enough peers, the outer one until there are
-- enough neighbours.
unfoldable pub bootstrap2_ciclic : List Contact → Node → Boot
bootstrap2_ciclic [] n = asking n
bootstrap2_ciclic (c ∷ cs) n = elim (ltb c.servboot_nodi.limit servboot_min_nodi) [
  | true ↦ when_asked (bootstrap2_ciclic cs) (receive_all c.incoming n)
  | false ↦ elim (ltb (length c.servboot_nodi.boot_neighbour) c.servboot_nodi.limit) [
    | true ↦ out_of_bounds
    | false ↦ when_greeted (bootstrap2_ciclic cs) (greet_peers c n)
  ]
]
