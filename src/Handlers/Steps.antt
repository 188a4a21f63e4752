-- ===== src/Handlers/Steps.antt =====
-- The steps of the handlers keep the buffers valid.
use rounds.Base.{
  ℕ, ◌≡◌, ◌<◌, ◌⊎◌, inl, inr, refl, List, [], ◌∷◌, length, ◌==◌, ◌||◌, Option-cases, Bool-cases,
  get_or, take,
}
use rounds.Params.{max_age, raggio_query, id_m, max_evt, hash_size}
use rounds.Peer.{Peer}
use rounds.Wire.{GossipMessage, char_below}
use rounds.Neighbour.Distinct
use rounds.Neighbour.Removal.{left-Inv}
use rounds.MessageLog.{search_insert_id}
use rounds.MessageLog.Laws as LogLaws
use rounds.ByePeers.{search_bye_peer}
use rounds.ByePeers.Laws as ByeLaws
use rounds.RoundSpeed.{insert_message_rs}
use rounds.RoundSpeed.Fifo
use rounds.Events.{free_event}
use rounds.Events.Laws as EventLaws
use rounds.MyFiles.{search_hashfile}
use rounds.Random.{init_x, random_age}
use rounds.Handlers.{
  Connection, connected, no_socket, not_connected, World, Node, Effect, Reply, go_on, exits, sends,
  as_neighbour, my_hashes, gossip_query_hit, send_to, forward, is_none_asked, ask_and_forward,
  greet, answer_ping, forget_bye, leave, ask_neighbours, answer_query,
}

pub record NodeInv (me : Peer) (n : Node) : Type 0 where
  pub neighbours : Distinct.Inv me n.neighbours
  pub messages : LogLaws.IsValid n.messages
  pub bye_peers : ByeLaws.AllBlank n.bye_peers
  pub rs : Fifo.IsReady n.rs
  pub one_event : length n.events ≡ max_evt
  pub event : EventLaws.IsValid (get_or n.events 0 free_event)

-- The codes of `exit`: a socket that cannot be made, a peer that cannot be reached, and an `accept` that
-- fails.
abbrev pub EndsWith : ℕ → Type 0
EndsWith code = (code ≡ 3) ⊎ (code ≡ 4) ⊎ (code ≡ 1)

-- What holds of the buffers when the handler ends; the process ends with the code 1, 3 or 4 only.
abbrev pub OnReply : (Node → Type 0) → Reply → Type 0
OnReply P (go_on n es) = P n
OnReply P (exits code out) = EndsWith code

module _ (w : World) (m : GossipMessage) where
  pub greet-NodeInv : (n : Node) → NodeInv w.me n → NodeInv w.me (greet w m n)
  greet-NodeInv n v = record {
    neighbours = Distinct.insert_peer-Inv w.me (as_neighbour m) n.neighbours v.neighbours;
    messages = v.messages;
    bye_peers = v.bye_peers;
    rs = v.rs;
    one_event = v.one_event;
    event = v.event;
  }

  pub queue-NodeInv :
      (n : Node) → NodeInv w.me n → NodeInv w.me (record n { rs = insert_message_rs m n.rs })
  queue-NodeInv n v = record {
    neighbours = v.neighbours;
    messages = v.messages;
    bye_peers = v.bye_peers;
    rs = Fifo.insert_message_rs-IsReady m n.rs v.rs;
    one_event = v.one_event;
    event = v.event;
  }

  pub forward-NodeInv : (bound : ℕ) (n : Node) → NodeInv w.me n → NodeInv w.me (forward bound m n)
  unfolding forward
  forward-NodeInv bound n v = elim (Bool-cases (char_below m.age bound)) [
    | inl young ↦ rw young (queue-NodeInv n v)
    | inr old ↦ rw old v
  ]

  pub send_to-NodeInv :
      (p : Peer) (g : GossipMessage) (n : Node)
      → NodeInv w.me n
      → OnReply (NodeInv w.me) (send_to w p g n)
  unfolding send_to
  send_to-NodeInv p g n v = go (w.net p)
    where
      go :
          (c : Connection)
          → OnReply (NodeInv w.me) (elim c [
            | connected ↦ go_on n (sends p g ∷ [])
            | no_socket ↦ exits 3 []
            | not_connected ↦ exits 4 []
          ])
      go connected = v
      go no_socket = inl refl
      go not_connected = inr (inl refl)

  pub answer_ping-NodeInv :
      (pong : GossipMessage) (n : Node)
      → NodeInv w.me n
      → OnReply (NodeInv w.me) (answer_ping w pong m n)
  unfolding answer_ping
  answer_ping-NodeInv pong n v = elim (Bool-cases (m.age == 0)) [
    | inl first ↦
        rw first (send_to-NodeInv m.peer pong _ (queue-NodeInv (greet w m n) (greet-NodeInv n v)))
    | inr later ↦ elim (Option-cases (random_age init_x 1 (get_or (my_hashes w).1 0 0))) [
      | inl unset ↦ rw (later, unset) (forward-NodeInv max_age n v)
      | inr (age, e) ↦ elim (Bool-cases (age == m.age)) [
        | inl drawn ↦
            rw (later, e, drawn)
              (send_to-NodeInv m.peer pong _
                (forward-NodeInv max_age (greet w m n) (greet-NodeInv n v)))
        | inr other ↦ rw (later, e, other) (forward-NodeInv max_age n v)
      ]
    ]
  ]

  pub forget_bye-NodeInv : (p : Peer) (n : Node) → NodeInv w.me n → NodeInv w.me (forget_bye p n)
  unfolding forget_bye
  forget_bye-NodeInv p n v = elim (Bool-cases (search_bye_peer p n.bye_peers)) [
    | inl gone ↦ rw gone (record {
      neighbours = v.neighbours;
      messages = v.messages;
      bye_peers = ByeLaws.delete_bye_peer-AllBlank p n.bye_peers v.bye_peers;
      rs = v.rs;
      one_event = v.one_event;
      event = v.event;
    })
    | inr here ↦ rw here v
  ]

  -- With the log after the test, and any counter.
  pub logged-NodeInv :
      (n : Node) (count' : ℕ)
      → 0 < w.now
      → length m.id ≡ id_m
      → NodeInv w.me n
      → NodeInv w.me
          (record n { messages = (search_insert_id w.now m.id n.messages).0; count = count' })
  logged-NodeInv n count' pos len v = record {
    neighbours = v.neighbours;
    messages = LogLaws.search_insert_id-IsValid w.now m.id pos len n.messages v.messages;
    bye_peers = v.bye_peers;
    rs = v.rs;
    one_event = v.one_event;
    event = v.event;
  }

  pub leave-NodeInv : (n : Node) → 0 < w.now → NodeInv w.me n → NodeInv w.me (leave w m n)
  unfolding leave
  leave-NodeInv n pos v = record {
    neighbours = left-Inv w.me m.peer n.neighbours v.neighbours;
    messages = v.messages;
    bye_peers = ByeLaws.search_insert_peer-AllBlank w.now m.peer n.bye_peers pos v.bye_peers;
    rs = v.rs;
    one_event = v.one_event;
    event = v.event;
  }

  pub counted-NodeInv :
      (n : Node) (count' : ℕ) → NodeInv w.me n → NodeInv w.me (record n { count = count' })
  counted-NodeInv n count' v = record {
    neighbours = v.neighbours;
    messages = v.messages;
    bye_peers = v.bye_peers;
    rs = v.rs;
    one_event = v.one_event;
    event = v.event;
  }

  ask_and_forward-NodeInv :
      (n : Node) (es : List Effect)
      → NodeInv w.me n
      → OnReply (NodeInv w.me) (ask_and_forward w m n es)
  unfolding ask_and_forward
  ask_and_forward-NodeInv n es v =
      elim (Bool-cases (is_none_asked (ask_neighbours m n) || w.exit_hinf)) [
        | inl on ↦ rw on (forward-NodeInv raggio_query n v)
        | inr fails ↦ rw fails (inr (inr refl))
      ]

  pub answer_query-NodeInv :
      (n : Node) → NodeInv w.me n → OnReply (NodeInv w.me) (answer_query w m n)
  unfolding answer_query
  answer_query-NodeInv n v =
      elim (Bool-cases (search_hashfile (take hash_size m.hash_file) w.files)) [
        | inr other ↦ rw other (ask_and_forward-NodeInv n [] v)
        | inl have ↦ rw have (go (w.net m.peer))
      ]
    where
      n' : Node
      n' = record n { count = (gossip_query_hit w n.count m.id).0 }

      go :
          (c : Connection)
          → OnReply (NodeInv w.me) (elim c [
            | connected ↦
                ask_and_forward w m n' (sends m.peer (gossip_query_hit w n.count m.id).1 ∷ [])
            | no_socket ↦ exits 3 []
            | not_connected ↦ exits 4 []
          ])
      go connected = ask_and_forward-NodeInv n' _ (counted-NodeInv n _ v)
      go no_socket = inl refl
      go not_connected = inr (inl refl)
