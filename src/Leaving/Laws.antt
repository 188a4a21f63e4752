-- ===== src/Leaving/Laws.antt =====
-- The bye of a peer that leaves is queued, and a peer that gets it forgets the one that left.
use rounds.Base.{
  ℕ, zero, suc, ◌+◌, ◌≡◌, ◌<◌, ◌≤◌, ◌∙◌, inl, inr, refl, false, some, [], ◌∷◌, ◌++◌, length, ltb,
  if◌then◌else◌, Bool-cases, get_or,
}
use rounds.Params.{id_m_partial, max_rs}
use rounds.Peer.{Peer, nobody}
use rounds.Neighbour.{search_peer}
use rounds.MessageLog.{search_insert_id}
use rounds.MessageLog.Laws as LogLaws
use rounds.ByePeers.{search_bye_peer}
use rounds.RoundSpeed.Fifo
use rounds.Fanout.{BufferFanout}
use rounds.Handlers.{
  Connection, connected, no_socket, not_connected, World, Node, sends, go_on, exits,
  func_helper_msg,
}
use rounds.Handlers.Steps.{NodeInv, OnReply}
use rounds.Handlers.Laws.{helper_bye_lem, dispatch_bye}
use rounds.OwnMessages.{gossip_bye}
use rounds.OwnMessages.Laws.{length-get_id_message}
use rounds.Bootstrap.Joining.{then_run-OnReply}
use rounds.Leaving.{proc_exit_all, send_bye, func_helper_bye, bye_all, invio_gossip_bye}

-- From valid buffers, a peer that leaves queues its bye behind the messages that came in, unless 30
-- are there: then no bye will be sent. The buffers stay valid.
pub proc_exit_all_lem :
    (w : World) (n : Node)
    → NodeInv w.me n
    → let n' = proc_exit_all w n in
      NodeInv w.me n'
      × (Fifo.queue n'.rs.rcv ≡ (
          if ltb n.rs.rcv.limit max_rs
          then Fifo.queue n.rs.rcv ++ (some (gossip_bye w n.count).1 ∷ [])
          else Fifo.queue n.rs.rcv))
unfolding proc_exit_all
proc_exit_all_lem w n v =
    let m = (gossip_bye w n.count).1 in
    (
      record {
        neighbours = v.neighbours;
        messages = v.messages;
        bye_peers = v.bye_peers;
        rs = Fifo.insert_mymessage_rs-IsReady m n.rs v.rs;
        one_event = v.one_event;
        event = v.event;
      },
      (Fifo.insert_mymessage_rs_lem m n.rs v.rs.valid).2,
    )

-- A peer with valid buffers gets the bye of another for the first time: it sends nothing back, and
-- the peer that left is no neighbour of it any more.
pub gossip_bye-received :
    (w : World) (count : ℕ) (other : World) (n : Node)
    → id_m_partial ≤ length w.id_msg_const
    → 0 < other.now
    → NodeInv other.me n
    → LogLaws.count_id (gossip_bye w count).1.id n.messages ≡ 0
    → (n' : Node) × (func_helper_msg other (gossip_bye w count).1 n ≡ go_on n' [])
      × (search_peer n'.neighbours w.me ≡ false)
unfolding gossip_bye
gossip_bye-received w count other n len pos v new =
    let m = (gossip_bye w count).1 in
    let (n', same, gone, queued) =
      helper_bye_lem other m n pos (length-get_id_message w.id_msg_const count len) v new in
    (n', dispatch_bye other m n refl ∙ same, gone)

module _ (w : World) (f : BufferFanout) (pos : 0 < w.now)
    (len : id_m_partial ≤ length w.id_msg_const) where
  send_bye-NodeInv :
      (p : Peer) (n : Node) → NodeInv w.me n → OnReply (NodeInv w.me) (send_bye w f p n)
  unfolding gossip_bye
  send_bye-NodeInv p n v = go (w.net p)
    where
      after : Node
      after = record n {
        count = (gossip_bye w n.count).0;
        messages = (search_insert_id w.now (gossip_bye w n.count).1.id n.messages).0;
      }

      valid : NodeInv w.me after
      valid = record {
        neighbours = v.neighbours;
        messages =
            LogLaws.search_insert_id-IsValid w.now (gossip_bye w n.count).1.id pos
              (length-get_id_message w.id_msg_const n.count len) n.messages v.messages;
        bye_peers = v.bye_peers;
        rs = v.rs;
        one_event = v.one_event;
        event = v.event;
      }

      go :
          (c : Connection)
          → OnReply (NodeInv w.me) (elim c [
            | connected ↦ go_on after (sends p (gossip_bye w n.count).1 ∷ [])
            | no_socket ↦ exits 3 []
            | not_connected ↦ exits 4 []
          ])
      go connected = valid
      go no_socket = inl refl
      go not_connected = inr (inl refl)

  bye_all-NodeInv :
      (k t : ℕ) (n : Node) → NodeInv w.me n → OnReply (NodeInv w.me) (bye_all w f k t n)
  unfolding bye_all func_helper_bye
  bye_all-NodeInv zero t n v = v
  bye_all-NodeInv (suc k) t n v =
      then_run-OnReply (NodeInv w.me) (func_helper_bye w f t n) (bye_all w f k (t + 1))
        (elim (Bool-cases (search_bye_peer (get_or f.nodi t nobody) n.bye_peers)) [
          | inl gone ↦ rw gone v
          | inr here ↦ rw here (send_bye-NodeInv (get_or f.nodi t nobody) n v)
        ])
        (λ n' v'. bye_all-NodeInv k (t + 1) n' v')

  -- The buffers are valid behind the byes to the fanout too, or the process has ended.
  pub invio_gossip_bye-NodeInv :
      (n : Node) → NodeInv w.me n → OnReply (NodeInv w.me) (invio_gossip_bye w f n)
  unfolding invio_gossip_bye
  invio_gossip_bye-NodeInv n v = bye_all-NodeInv f.limit 0 n v
