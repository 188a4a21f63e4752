-- ===== src/Leaving.antt =====
-- How a peer leaves the network, two_rounds/exit.c: its bye goes out with the next round of the round
-- speed. The threads that send a bye to each peer of the fanout at once are modelled as well; no code
-- starts them.
pub mod Laws
use rounds.Base.{ℕ, zero, suc, ◌+◌, Bool, true, false, List, [], ◌∷◌, ◌++◌, if◌then◌else◌, get_or}
use rounds.Peer.{Peer, nobody}
use rounds.Wire.{GossipMessage}
use rounds.MessageLog.{search_insert_id}
use rounds.ByePeers.{search_bye_peer}
use rounds.RoundSpeed.{insert_mymessage_rs}
use rounds.Fanout.{BufferFanout}
use rounds.Handlers.{
  Connection, connected, no_socket, not_connected, World, Node, sends, Reply, go_on, exits,
}
use rounds.OwnMessages.{gossip_bye}
use rounds.Bootstrap.{◌then_run◌}

-- The buffers behind the first two lines of `proc_exit_all`, and the flag `exit_rg` that it sets later
-- is that of the round gossip.
unfoldable pub proc_exit_all : World → Node → Node
proc_exit_all w n =
    let (count', m) = gossip_bye w n.count in
    record n { count = count'; rs = insert_mymessage_rs m n.rs }

module _ (w : World) (f : BufferFanout) where
  -- Behind the test: the bye is made, its own id remembered, and the bye sent.
  abbrev pub send_bye : Peer → Node → Reply
  send_bye p n =
      let (count', m) = gossip_bye w n.count in
      elim (w.net p) [
        | connected ↦
            go_on
              (record n { count = count'; messages = (search_insert_id w.now m.id n.messages).0 })
              (sends p m ∷ [])
        | no_socket ↦ exits 3 []
        | not_connected ↦ exits 4 []
      ]

  -- `func_helper_bye` for the peer `t` of the fanout.
  unfoldable pub func_helper_bye : ℕ → Node → Reply
  func_helper_bye t n =
      let p = get_or f.nodi t nobody in
      if search_bye_peer p n.bye_peers then go_on n [] else send_bye p n

  -- The threads of `invio_gossip_bye`, one after the other: `k` are left, from the index `t` on.
  unfoldable pub bye_all : ℕ → ℕ → Node → Reply
  bye_all zero t n = go_on n []
  bye_all (suc k) t n = func_helper_bye t n then_run bye_all k (t + 1)

  unfoldable pub invio_gossip_bye : Node → Reply
  invio_gossip_bye n = bye_all f.limit 0 n
