-- ===== src/Network/Replies.antt =====
-- What a handler sends and queues has an id of 16 bytes.
use rounds.Base.{
  ℕ, zero, suc, ◌≡◌, ◌≤◌, List, [], ◌∷◌, ◌++◌, length, Bool-cases, Option-cases, inl, inr, ◌==◌,
  get_or, take, ◌||◌,
}
use rounds.Params.{id_m, id_m_partial, max_age, raggio_query, hash_size}
use rounds.Peer.{Peer}
use rounds.Wire.{GossipMessage, char_below, boot_ping2, boot_pong2, bye, query, query_hits}
use rounds.MessageLog.{search_insert_id}
use rounds.ByePeers.{search_bye_peer}
use rounds.MyFiles.{search_hashfile}
use rounds.Random.{init_x, random_age}
use rounds.OwnMessages.Laws.{length-get_id_message}
use rounds.Bootstrap.{◌then_run◌, boot2_helper, ping_all}
use rounds.Handlers.{
  Connection, connected, no_socket, not_connected, World, Node, Effect, sends, spawns_helper_msg,
  Reply, go_on, exits, my_hashes, gossip_pong, gossip_query_hit, send_to, is_none_asked,
  ask_and_forward, forward, greet, answer_ping, forget_bye, helper_ping, helper_pong, leave,
  helper_bye, spawn_helpers, ask_neighbours, answer_query, helper_query, helper_query_hit,
  func_helper_msg,
}
use rounds.Network.{deliveries}
use rounds.Network.Queue.{RsFits, MailFits, insert_message_rs-RsFits}

-- What is queued and sent when a handler ends.
abbrev pub ReplyFits : Reply → Type 0
ReplyFits (go_on n es) = RsFits n.rs × MailFits (deliveries es)
ReplyFits (exits code out) = MailFits (deliveries out)

append-deliveries :
    (es more : List Effect)
    → MailFits (deliveries es)
    → MailFits (deliveries more)
    → MailFits (deliveries (es ++ more))
unfolding deliveries
append-deliveries [] more v h = h
append-deliveries (sends p m ∷ es) more (len, v) h = (len, append-deliveries es more v h)
append-deliveries (spawns_helper_msg p ∷ es) more v h = append-deliveries es more v h

spawn_helpers-MailFits : (n : ℕ) (ps : List Peer) → MailFits (deliveries (spawn_helpers n ps))
unfolding deliveries spawn_helpers
spawn_helpers-MailFits zero ps = tt
spawn_helpers-MailFits (suc n) [] = tt
spawn_helpers-MailFits (suc n) (p ∷ ps) = spawn_helpers-MailFits n ps

then_run-ReplyFits :
    (r : Reply) (f : Node → Reply)
    → ReplyFits r
    → ((n : Node) → RsFits n.rs → ReplyFits (f n))
    → ReplyFits (r then_run f)
then_run-ReplyFits (exits code out) f v keep = v
then_run-ReplyFits (go_on n es) f (v, all) keep = go (f n) (keep n v)
  where
    go :
        (r : Reply)
        → ReplyFits r
        → ReplyFits (elim r [
          | go_on n' es' ↦ go_on n' (es ++ es')
          | exits code out ↦ exits code (es ++ out)
        ])
    go (go_on n' es') (v', all') = (v', append-deliveries es es' all all')
    go (exits code out) h = append-deliveries es out all h

module _ (w : World) where
  send_to-ReplyFits :
      (p : Peer) (g : GossipMessage) (n : Node)
      → length g.id ≡ id_m
      → RsFits n.rs
      → ReplyFits (send_to w p g n)
  unfolding send_to deliveries
  send_to-ReplyFits p g n len v = go (w.net p)
    where
      go :
          (c : Connection)
          → ReplyFits (elim c [
            | connected ↦ go_on n (sends p g ∷ [])
            | no_socket ↦ exits 3 []
            | not_connected ↦ exits 4 []
          ])
      go connected = (v, (len, tt))
      go no_socket = tt
      go not_connected = tt

  -- The pings of the start.
  pub ping_all-ReplyFits :
      (ping : GossipMessage) (k : ℕ) (ps : List Peer) (n : Node)
      → length ping.id ≡ id_m
      → RsFits n.rs
      → ReplyFits (ping_all w ping k ps n)
  unfolding ping_all boot2_helper deliveries
  ping_all-ReplyFits ping zero ps n len v = (v, tt)
  ping_all-ReplyFits ping (suc k) [] n len v = (v, tt)
  ping_all-ReplyFits ping (suc k) (p ∷ ps) n len v =
      then_run-ReplyFits (boot2_helper w ping p n) (ping_all w ping k ps) (go (w.net p))
        (λ n' v'. ping_all-ReplyFits ping k ps n' len v')
    where
      go :
          (c : Connection)
          → ReplyFits (elim c [
            | connected ↦
                go_on
                  (record n { messages = (search_insert_id w.now ping.id n.messages).0 })
                  (sends p ping ∷ [])
            | no_socket ↦ exits 3 []
            | not_connected ↦ exits 4 []
          ])
      go connected = (v, (len, tt))
      go no_socket = tt
      go not_connected = tt

  module _ (m : GossipMessage) (len : length m.id ≡ id_m) where
    forward-RsFits : (bound : ℕ) (n : Node) → RsFits n.rs → RsFits (forward bound m n).rs
    unfolding forward
    forward-RsFits bound n v = elim (Bool-cases (char_below m.age bound)) [
      | inl young ↦ rw young (insert_message_rs-RsFits m n.rs len v)
      | inr old ↦ rw old v
    ]

    answer_ping-ReplyFits :
        (pong : GossipMessage) (n : Node)
        → length pong.id ≡ id_m
        → RsFits n.rs
        → ReplyFits (answer_ping w pong m n)
    unfolding answer_ping deliveries
    answer_ping-ReplyFits pong n same v = elim (Bool-cases (m.age == 0)) [
      | inl first ↦
          rw first (send_to-ReplyFits m.peer pong _ same (insert_message_rs-RsFits m n.rs len v))
      | inr later ↦ elim (Option-cases (random_age init_x 1 (get_or (my_hashes w).1 0 0))) [
        | inl unset ↦ rw (later, unset) (forward-RsFits max_age n v, tt)
        | inr (age, e) ↦ elim (Bool-cases (age == m.age)) [
          | inl drawn ↦
              rw (later, e, drawn)
                (send_to-ReplyFits m.peer pong _ same (forward-RsFits max_age (greet w m n) v))
          | inr other ↦ rw (later, e, other) (forward-RsFits max_age n v, tt)
        ]
      ]
    ]

    forget_bye-RsFits : (p : Peer) (n : Node) → RsFits n.rs → RsFits (forget_bye p n).rs
    unfolding forget_bye
    forget_bye-RsFits p n v = elim (Bool-cases (search_bye_peer p n.bye_peers)) [
      | inl gone ↦ rw gone v
      | inr here ↦ rw here v
    ]

    ask_and_forward-ReplyFits :
        (n : Node) (es : List Effect)
        → RsFits n.rs
        → MailFits (deliveries es)
        → ReplyFits (ask_and_forward w m n es)
    unfolding ask_and_forward ask_neighbours
    ask_and_forward-ReplyFits n es v all =
        elim (Bool-cases (is_none_asked (ask_neighbours m n) || w.exit_hinf)) [
          | inl on ↦ rw on (
            forward-RsFits raggio_query n v,
            append-deliveries es (ask_neighbours m n) all (spawn_helpers-MailFits _ _),
          )
          | inr fails ↦
              rw fails (append-deliveries es (ask_neighbours m n) all (spawn_helpers-MailFits _ _))
        ]

    answer_query-ReplyFits :
        (n : Node)
        → id_m_partial ≤ length w.id_msg_const
        → RsFits n.rs
        → ReplyFits (answer_query w m n)
    unfolding answer_query deliveries
    answer_query-ReplyFits n partial v =
        elim (Bool-cases (search_hashfile (take hash_size m.hash_file) w.files)) [
          | inr other ↦ rw other (ask_and_forward-ReplyFits n [] v tt)
          | inl have ↦ rw have (go (w.net m.peer))
        ]
      where
        n' : Node
        n' = record n { count = (gossip_query_hit w n.count m.id).0 }

        go :
            (c : Connection)
            → ReplyFits (elim c [
              | connected ↦
                  ask_and_forward w m n' (sends m.peer (gossip_query_hit w n.count m.id).1 ∷ [])
              | no_socket ↦ exits 3 []
              | not_connected ↦ exits 4 []
            ])
        go connected =
            ask_and_forward-ReplyFits n' _ v
              (length-get_id_message w.id_msg_const n.count partial, tt)
        go no_socket = tt
        go not_connected = tt

    -- What a peer with a constant part of 12 bytes queues and sends on a message.
    pub func_helper_msg-ReplyFits :
        (n : Node)
        → id_m_partial ≤ length w.id_msg_const
        → RsFits n.rs
        → ReplyFits (func_helper_msg w m n)
    unfolding func_helper_msg helper_ping helper_pong helper_bye leave helper_query helper_query_hit
        deliveries
    func_helper_msg-ReplyFits n partial v =
        let (logged, seen) = search_insert_id w.now m.id n.messages in
        elim (Bool-cases (m.pay_desc == boot_ping2)) [
          | inl ping ↦ elim (Bool-cases (search_insert_id w.now m.id n.messages).1) [
            | inl dup ↦ rw (ping, dup) (v, tt)
            | inr new ↦
                rw (ping, new)
                  (answer_ping-ReplyFits (gossip_pong w n.count).1 _
                    (length-get_id_message w.id_msg_const n.count partial)
                    (forget_bye-RsFits m.peer _ v))
          ]
          | inr a ↦ elim (Bool-cases (m.pay_desc == boot_pong2)) [
            | inl pong ↦ rw (a, pong) (v, tt)
            | inr b ↦ elim (Bool-cases (m.pay_desc == bye)) [
              | inl leaves ↦ elim (Bool-cases (search_insert_id w.now m.id n.messages).1) [
                | inl dup ↦ rw (a, b, leaves, dup) (v, tt)
                | inr new ↦ rw (a, b, leaves, new) (forward-RsFits max_age _ v, tt)
              ]
              | inr c ↦ elim (Bool-cases (m.pay_desc == query)) [
                | inl asks ↦
                    elim (Bool-cases (
                      (search_insert_id w.now m.id n.messages).1
                      || search_bye_peer m.peer n.bye_peers)) [
                        | inl drop ↦ rw (a, b, c, asks, drop) (v, tt)
                        | inr new ↦ rw (a, b, c, asks, new) (answer_query-ReplyFits _ partial v)
                      ]
                | inr d ↦ elim (Bool-cases (m.pay_desc == query_hits)) [
                  | inl hit ↦ elim (Bool-cases (search_bye_peer m.peer n.bye_peers)) [
                    | inl gone ↦ rw (a, b, c, d, hit, gone) (v, tt)
                    | inr here ↦ rw (a, b, c, d, hit, here) (v, tt)
                  ]
                  | inr e ↦ rw (a, b, c, d, e) (v, tt)
                ]
              ]
            ]
          ]
        ]
