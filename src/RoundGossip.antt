-- ===== src/RoundGossip.antt =====
-- The round gossip of two_rounds/process_RG_RS.c: one turn of the loop of `process_RG`. Its threads run
-- one after the other here, in the order in which the source creates them, also those that it does not
-- join before it goes on, and between any two steps the dispatchers work off what has come in.
pub mod Arrivals
pub mod Sending
pub mod Invariant
use rounds.Base.{
  ℕ, zero, suc, ◌+◌, ◌-◌, ◌%◌, ◌^◌, Bool, true, false, Option, none, some, List, [], ◌∷◌, ◌++◌,
  get_or, if◌then◌else◌,
}
use rounds.Params.{max_count_rg_rs}
use rounds.Peer.{Peer, nobody}
use rounds.Wire.{GossipMessage}
use rounds.Neighbour.{age_plus_one}
use rounds.MessageLog.{delete_dated_msg}
use rounds.ByePeers.{BufferByePeer, search_bye_peer, delete_dated_bye_peer}
use rounds.MyFiles.{BufferFile}
use rounds.Random.{RandomX}
use rounds.Fanout.{BufferFanout, new_fanout}
use rounds.Inform.{GossipInformations, func_helper_inf}
use rounds.Gossip.{reset_gossip_inf2, Draws, BufferRg, new_buffer_rg}
use rounds.Handlers.{
  Connection, connected, no_socket, not_connected, World, Node, Reply, go_on, exits,
  func_helper_msg,
}
use rounds.Rounds.{Delivery, Outcome, ended, exits, null_message, runs_out, process_rs}

-- An information gossip sent to a port of a host.
abbrev pub InfDelivery : Type 0
InfDelivery = Peer × GossipInformations

-- What comes in: a message, with what its handler finds, or an information gossip.
pub data Arrival : Type 0 where
  msg : World → GossipMessage → Arrival
  inf : GossipInformations → Arrival

-- What does not change during a round. `ntohs` and `htons` are the system's; `exit_rg` says what the
-- flag is at the n-th test, `arrive` what the dispatchers work off before the n-th step.
pub record RoundWorld : Type 0 where
  pub me : Peer
  pub files : BufferFile
  pub net : Peer → Connection
  pub ntohs : ℕ → ℕ
  pub htons : ℕ → ℕ
  pub x : RandomX
  pub fanout_rands : List ℕ
  pub draws : ℕ → Draws
  pub now : ℕ
  pub exit_rg : ℕ → Bool
  pub arrive : ℕ → List Arrival

-- The buffers that a round uses, and what it has sent.
pub record RoundState : Type 0 where
  pub node : Node
  pub fanout : BufferFanout
  pub rg : BufferRg
  pub sent : List Delivery
  pub told : List InfDelivery

-- Where a round stands: it goes on, its thread has ended since `exit_rg` is set, the process has
-- ended with a code, behind the messages that had been sent, or something has happened that C leaves
-- undefined.
pub data Stage : Type 0 where
  goes : RoundState → Stage
  leaves : RoundState → Stage
  process_exits : ℕ → List Delivery → Stage
  undefined : Stage

infixl 5 ◌then_do◌
abbrev pub ◌then_do◌ : Stage → (RoundState → Stage) → Stage
(goes s) then_do f = f s
(leaves s) then_do f = leaves s
(process_exits code out) then_do f = process_exits code out
undefined then_do f = undefined

abbrev pub with_node : RoundState → Node → RoundState
with_node s n = record s { node = n }

module _ (w : RoundWorld) where
  -- The helpers of the dispatchers.
  unfoldable pub handle : Arrival → RoundState → Stage
  handle (msg mw m) s = elim (func_helper_msg mw m s.node) [
    | go_on n es ↦ goes (with_node s n)
    | exits code out ↦ process_exits code s.sent
  ]
  handle (inf g) s = elim (func_helper_inf w.me g s.node.neighbours) [
    | some b ↦ goes (with_node s (record s.node { neighbours = b }))
    | none ↦ undefined
  ]

  unfoldable pub handle_all : List Arrival → RoundState → Stage
  handle_all [] s = goes s
  handle_all (a ∷ more) s = handle a s then_do handle_all more

  abbrev pub meanwhile : ℕ → RoundState → Stage
  meanwhile n s = handle_all (w.arrive n) s

  -- `procedura_exit1`, `procedura_exit2` and `procedura_exit3`: the n-th test of the flag.
  abbrev pub procedura_exit : ℕ → RoundState → Stage
  procedura_exit n s = if w.exit_rg n then leaves s else goes s

  abbrev pub choose_fanout : RoundState → Stage
  choose_fanout s = goes (record s { fanout = new_fanout w.x w.fanout_rands s.node.neighbours })

  -- The thread `process_RS`.
  abbrev pub after_rs : RoundState → Outcome → Stage
  after_rs s (ended b ds) =
      goes (record (with_node s (record s.node { rs = b })) { sent = s.sent ++ ds })
  after_rs s (Outcome.exits code ds) = process_exits code (s.sent ++ ds)
  after_rs s null_message = undefined
  after_rs s runs_out = undefined

  unfoldable pub round_speed : RoundState → Stage
  round_speed s = after_rs s (process_rs w.net s.node.bye_peers s.fanout s.node.rs)

  abbrev pub compose : RoundState → Stage
  compose s =
      goes
        (record s { rg = new_buffer_rg w.me w.files w.x s.node.neighbours s.fanout.limit w.draws })

  abbrev pub grow_older : RoundState → Stage
  grow_older s = goes (with_node s (record s.node { neighbours = age_plus_one s.node.neighbours }))

  -- The address for an information gossip: the port is one higher.
  abbrev pub inf_address : Peer → Peer
  inf_address p = record { port = w.htons ((w.ntohs p.port + 1) % 2 ^ 16); ip = p.ip }

  abbrev pub tell : Peer → GossipInformations → RoundState → Stage
  tell p g s = elim (w.net (inf_address p)) [
    | connected ↦ goes (record s { told = s.told ++ ((inf_address p, g) ∷ []) })
    | no_socket ↦ process_exits 3 s.sent
    | not_connected ↦ process_exits 4 s.sent
  ]

  -- `func_helper_sndRG` for the peer `t` of the fanout and the gossip `t`.
  unfoldable pub func_helper_snd_rg : ℕ → RoundState → Stage
  func_helper_snd_rg t s =
      let p = get_or s.fanout.nodi t nobody in
      if search_bye_peer p s.node.bye_peers
      then goes s
      else tell p (get_or s.rg.list_inf t reset_gossip_inf2) s

  -- The loop over the fanout: `n` peers are left, from the index `t` on.
  unfoldable pub tell_all : ℕ → ℕ → RoundState → Stage
  tell_all zero t s = goes s
  tell_all (suc n) t s = func_helper_snd_rg t s then_do tell_all n (t + 1)

  -- `func_helper_MSG` and `func_helper_BYE`
  abbrev pub forget_dated : RoundState → Stage
  forget_dated s = goes (
      with_node s (record s.node {
        messages = delete_dated_msg w.now s.node.messages;
        bye_peers = delete_dated_bye_peer w.now s.node.bye_peers;
      }))

  -- The loop that starts `process_RS` again: `n` times are left, the next test of the flag is the
  -- `i`-th.
  unfoldable pub rs_rounds : ℕ → ℕ → RoundState → Stage
  rs_rounds zero i s = goes s
  rs_rounds (suc n) i s =
      (procedura_exit i s then_do round_speed then_do meanwhile (i + 3)) then_do rs_rounds n (i + 1)

  -- One turn of `while (1)`.
  unfoldable pub process_rg : RoundState → Stage
  process_rg s =
      procedura_exit 0 s
      then_do meanwhile 0
      then_do choose_fanout
      then_do round_speed
      then_do meanwhile 1
      then_do compose
      then_do procedura_exit 1
      then_do meanwhile 2
      then_do grow_older
      then_do meanwhile 3
      then_do (λ s'. tell_all s'.fanout.limit 0 s')
      then_do meanwhile 4
      then_do forget_dated
      then_do rs_rounds (max_count_rg_rs - 1) 2
