-- ===== src/Handlers/Invariant.antt =====
-- Every message leaves the peer's buffers valid, whatever it says and whoever sends it.
use rounds.Base.{◌≡◌, ◌<◌, inl, inr, length, ◌==◌, ◌||◌, Bool-cases, take}
use rounds.Params.{max_age, id_m, hash_size}
use rounds.Wire.{GossipMessage, boot_ping2, boot_pong2, bye, query, query_hits}
use rounds.MessageLog.{search_insert_id}
use rounds.ByePeers.{search_bye_peer}
use rounds.Events.Laws as EventLaws
use rounds.Handlers.{
  World, Node, gossip_pong, helper_ping, helper_pong, helper_bye, helper_query, helper_query_hit,
  func_helper_msg,
}
use rounds.Handlers.Steps.{
  NodeInv, OnReply, greet-NodeInv, forward-NodeInv, answer_ping-NodeInv, forget_bye-NodeInv,
  logged-NodeInv, leave-NodeInv, answer_query-NodeInv,
}

module _ (w : World) (m : GossipMessage) (n : Node) (pos : 0 < w.now) (len : length m.id ≡ id_m)
    (v : NodeInv w.me n) where
  helper_ping-NodeInv : OnReply (NodeInv w.me) (helper_ping w m n)
  unfolding helper_ping
  helper_ping-NodeInv =
      let (count', pong) = gossip_pong w n.count in
      let (logged, seen) = search_insert_id w.now m.id n.messages in
      elim (Bool-cases (search_insert_id w.now m.id n.messages).1) [
        | inl dup ↦ rw dup (logged-NodeInv w m n count' pos len v)
        | inr fresh ↦ rw fresh (
            answer_ping-NodeInv w m pong _
              (forget_bye-NodeInv w m m.peer _ (logged-NodeInv w m n count' pos len v)))
      ]

  helper_bye-NodeInv : OnReply (NodeInv w.me) (helper_bye w m n)
  unfolding helper_bye
  helper_bye-NodeInv = elim (Bool-cases (search_insert_id w.now m.id n.messages).1) [
    | inl dup ↦ rw dup (logged-NodeInv w m n n.count pos len v)
    | inr fresh ↦ rw fresh (
        forward-NodeInv w m max_age _
          (leave-NodeInv w m _ pos (logged-NodeInv w m n n.count pos len v)))
  ]

  helper_query-NodeInv : OnReply (NodeInv w.me) (helper_query w m n)
  unfolding helper_query
  helper_query-NodeInv =
      elim (Bool-cases
        ((search_insert_id w.now m.id n.messages).1 || search_bye_peer m.peer n.bye_peers)) [
          | inl drop ↦ rw drop (logged-NodeInv w m n n.count pos len v)
          | inr fresh ↦
              rw fresh (answer_query-NodeInv w m _ (logged-NodeInv w m n n.count pos len v))
        ]

  helper_query_hit-NodeInv : OnReply (NodeInv w.me) (helper_query_hit w m n)
  unfolding helper_query_hit
  helper_query_hit-NodeInv = elim (Bool-cases (search_bye_peer m.peer n.bye_peers)) [
    | inl gone ↦ rw gone v
    | inr here ↦ rw here (
        let (one, valid) =
          EventLaws.record_hit-Event m.peer (take hash_size m.hash_file) n.events v.one_event
            v.event in
        record {
          neighbours = v.neighbours;
          messages = v.messages;
          bye_peers = v.bye_peers;
          rs = v.rs;
          one_event = one;
          event = valid;
        })
  ]

-- Whatever message comes in, with an id of 16 bytes and the clock past 0: from valid buffers the
-- handler leaves all buffers valid, or it ends the process with the code 1, 3 or 4.
pub func_helper_msg-NodeInv :
    (w : World) (m : GossipMessage) (n : Node)
    → 0 < w.now
    → length m.id ≡ id_m
    → NodeInv w.me n
    → OnReply (NodeInv w.me) (func_helper_msg w m n)
unfolding func_helper_msg helper_pong
func_helper_msg-NodeInv w m n pos len v = elim (Bool-cases (m.pay_desc == boot_ping2)) [
  | inl ping ↦ rw ping (helper_ping-NodeInv w m n pos len v)
  | inr a ↦ elim (Bool-cases (m.pay_desc == boot_pong2)) [
    | inl pong ↦ rw (a, pong) (greet-NodeInv w m n v)
    | inr b ↦ elim (Bool-cases (m.pay_desc == bye)) [
      | inl leaves ↦ rw (a, b, leaves) (helper_bye-NodeInv w m n pos len v)
      | inr c ↦ elim (Bool-cases (m.pay_desc == query)) [
        | inl asks ↦ rw (a, b, c, asks) (helper_query-NodeInv w m n pos len v)
        | inr d ↦ elim (Bool-cases (m.pay_desc == query_hits)) [
          | inl hit ↦ rw (a, b, c, d, hit) (helper_query_hit-NodeInv w m n pos len v)
          | inr e ↦ rw (a, b, c, d, e) v
        ]
      ]
    ]
  ]
]
