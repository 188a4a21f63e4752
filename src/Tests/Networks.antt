-- ===== src/Tests/Networks.antt =====
-- Two peers that meet.
use rounds.Base.{false, ℕ, ◌+◌, List, [], ◌∷◌, replicate}
use rounds.Peer.{Peer}
use rounds.Wire.{GossipMessage}
use rounds.Handlers.{World, connected}
use rounds.OwnMessages.{my_gossip_ping}
use rounds.Search.{init_th_out}
use rounds.RoundGossip.{goes}
use rounds.Network.{greets, receives, Net, act, reached, remove, at_start}

abbrev pub peer_of : ℕ → Peer
peer_of i = record { port = i + 1; ip = 1 }

abbrev pub const_of : ℕ → List ℕ
const_of i = i ∷ replicate 11 7

abbrev meeting : Net
meeting = record {
  hosts = λ i. record {
    me = peer_of i;
    id_msg_const = const_of i;
    stage = goes at_start;
    th_out = init_th_out;
  };
  mail = [];
  news = [];
}

abbrev pub world_of : ℕ → World
world_of i = record {
  me = peer_of i;
  id_msg_const = const_of i;
  files = record { index = 0; file = [] };
  net = λ p. connected;
  now = 100;
  rands = [];
  exit_hinf = false;
}

abbrev pub no_md5 : List ℕ → List ℕ
no_md5 s = s

-- The peer 0 greets the peer 1.
abbrev greeted : Net
greeted = reached 0 (act no_md5 (greets (world_of 0) (peer_of 1 ∷ [])) at_start init_th_out) meeting

abbrev the_ping : GossipMessage
the_ping = (my_gossip_ping (world_of 0) 0).1

-- The ping arrives.
abbrev met : Net
met =
    reached 1 (act no_md5 (receives (world_of 1) the_ping) at_start init_th_out)
      (record greeted { mail = remove 0 greeted.mail })
