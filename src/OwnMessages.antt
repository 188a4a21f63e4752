-- ===== src/OwnMessages.antt =====
-- The messages that a peer makes itself, two_rounds/func_strutture.c: a ping, a bye, a query, and the
-- request to the bootstrap server. The pong and the query hit stand with the handlers.
pub mod Laws
use rounds.Base.{ℕ, List, ◌++◌, take, replicate}
use rounds.Params.{hash_size, id_m, id_m_partial, id_count}
use rounds.Peer.{Peer, nobody}
use rounds.Wire.{GossipMessage, boot_ping2, bye, query, zero_id, zero_hashes}
use rounds.Ident.{get_id_message}
use rounds.Handlers.{World, my_hashes}

-- `reset_gossip_message`; the descriptor -1 is the `char` 255.
abbrev pub reset_gossip_message : GossipMessage
reset_gossip_message = record {
  id = zero_id;
  pay_desc = 255;
  age = 0;
  peer = nobody;
  hash_file = zero_hashes;
}

-- `my_gossip_ping`, `gossip_bye` and `gossip_query`: the counter afterwards and the message.
unfoldable pub my_gossip_ping : World → ℕ → ℕ × GossipMessage
my_gossip_ping w count =
    let (count', id) = get_id_message w.id_msg_const count in
    (
      count',
      record reset_gossip_message {
        id = id;
        pay_desc = boot_ping2;
        peer = w.me;
        hash_file = (my_hashes w).0;
      },
    )

unfoldable pub gossip_bye : World → ℕ → ℕ × GossipMessage
gossip_bye w count =
    let (count', id) = get_id_message w.id_msg_const count in
    (count', record reset_gossip_message { id = id; pay_desc = bye; peer = w.me })

unfoldable pub gossip_query : World → List ℕ → ℕ → ℕ × GossipMessage
gossip_query w hash count =
    let (count', id) = get_id_message w.id_msg_const count in
    (
      count',
      record reset_gossip_message {
        id = id;
        pay_desc = query;
        peer = w.me;
        hash_file = take hash_size hash ++ take hash_size zero_hashes;
      },
    )

-- `struct Gossip_Server_message` with its header; `pay_lgth` is always the size of the structure.
pub record ServerMessage : Type 0 where
  pub id : List ℕ  -- char[16]
  pub pay_desc : ℕ  -- char
  pub age : ℕ  -- char
  pub peer : Peer

-- `_BOOT_SERVER_PING`
abbrev pub boot_server_ping : ℕ
boot_server_ping = 5

abbrev pub reset_gossip_server_message : ServerMessage
reset_gossip_server_message = record { id = zero_id; pay_desc = 255; age = 0; peer = nobody }

-- `id_msg_servboot` and `id_msg_inf` of `bootstrap`: the constant part, and zeros for the counter.
abbrev pub id_without_count : List ℕ → List ℕ
id_without_count id_msg_const = take id_m_partial id_msg_const ++ replicate id_count 0

-- `set_serverboot_ping`
abbrev pub set_serverboot_ping : World → ServerMessage → ServerMessage
set_serverboot_ping w g = record g {
  id = take id_m (id_without_count w.id_msg_const);
  pay_desc = boot_server_ping;
  peer = w.me;
}
