-- ===== src/RoundGossip/Arrivals.antt =====
-- What comes in during a round of gossip leaves the buffers valid.
use rounds.Base.{ℕ, ◌≡◌, ◌<◌, List, [], ◌∷◌, length, get_or, subst, sym}
use rounds.Params.{id_m, fanout}
use rounds.Peer.{Peer}
use rounds.Neighbour.{BufferNeighbour}
use rounds.Neighbour.Distinct
use rounds.Handlers.{Node, Reply, go_on, exits, func_helper_msg}
use rounds.Handlers.Steps.{EndsWith, NodeInv, OnReply}
use rounds.Handlers.Invariant.{func_helper_msg-NodeInv}
use rounds.Inform.{GossipInformations}
use rounds.Inform.Laws.{AgesFit, func_helper_inf-Inv}
use rounds.Fanout.Laws.{FanoutIsValid}
use rounds.Gossip.{reset_gossip_inf2, BufferRg}
use rounds.RoundGossip.{
  InfDelivery, Arrival, msg, inf, RoundWorld, RoundState, Stage, goes, leaves, process_exits,
  undefined, ◌then_do◌, with_node, handle, handle_all,
}

-- Every gossip of the buffer has ages that a receiver accepts; and so every gossip sent.
pub record RgFits (g : BufferRg) : Type 0 where
  pub size : length g.list_inf ≡ fanout
  pub fits : (i : ℕ) → AgesFit (get_or g.list_inf i reset_gossip_inf2).list_neighbour

pub data AllFit : List InfDelivery → Type 0 where
  none_told : AllFit []
  one_more :
      {ds : List InfDelivery} (p : Peer) (g : GossipInformations)
      → AllFit ds
      → AgesFit g.list_neighbour
      → AllFit ((p, g) ∷ ds)

pub record RoundInv (me : Peer) (s : RoundState) : Type 0 where
  pub node : NodeInv me s.node
  pub fanout : FanoutIsValid s.fanout
  pub rg : RgFits s.rg
  pub told : AllFit s.told

-- What holds where a round goes on or its thread has ended. The process ends with the code 1, 3 or
-- 4 only, and nothing undefined happens.
abbrev pub OnStage : (RoundState → Type 0) → Stage → Type 0
OnStage P (goes s) = P s
OnStage P (leaves s) = P s
OnStage P (process_exits code out) = EndsWith code
OnStage P undefined = ⊥

pub then_do-OnStage :
    (P : RoundState → Type 0) (m : Stage) (f : RoundState → Stage)
    → OnStage P m
    → ((s : RoundState) → P s → OnStage P (f s))
    → OnStage P (m then_do f)
then_do-OnStage P (goes s) f v keep = keep s v
then_do-OnStage P (leaves s) f v keep = v
then_do-OnStage P (process_exits code out) f v keep = v
then_do-OnStage P undefined f v keep = v

pub with_node-RoundInv :
    {me : Peer} (s : RoundState) (n : Node)
    → RoundInv me s
    → NodeInv me n
    → RoundInv me (with_node s n)
with_node-RoundInv s n v h = record { node = h; fanout = v.fanout; rg = v.rg; told = v.told }

pub with_neighbours-NodeInv :
    {me : Peer} (n : Node) (b : BufferNeighbour)
    → NodeInv me n
    → Distinct.Inv me b
    → NodeInv me (record n { neighbours = b })
with_neighbours-NodeInv n b v h = record {
  neighbours = h;
  messages = v.messages;
  bye_peers = v.bye_peers;
  rs = v.rs;
  one_event = v.one_event;
  event = v.event;
}

-- A message for this peer, with an id of 16 bytes and the clock past 0; a gossip with ages that
-- are accepted.
abbrev pub ArrivalFits : Peer → Arrival → Type 0
ArrivalFits me (msg mw m) = (mw.me ≡ me) × (0 < mw.now) × (length m.id ≡ id_m)
ArrivalFits me (inf g) = AgesFit g.list_neighbour

abbrev pub ArrivalsFit : Peer → List Arrival → Type 0
ArrivalsFit me [] = Unit {0}
ArrivalsFit me (a ∷ more) = ArrivalFits me a × ArrivalsFit me more

module _ (w : RoundWorld) where
  pub handle-RoundInv :
      (a : Arrival) (s : RoundState)
      → ArrivalFits w.me a
      → RoundInv w.me s
      → OnStage (RoundInv w.me) (handle w a s)
  unfolding handle
  handle-RoundInv (msg mw m) s (mine, pos, len) v = go (func_helper_msg mw m s.node) (
      subst (λ me. OnReply (NodeInv me) (func_helper_msg mw m s.node)) mine
        (func_helper_msg-NodeInv mw m s.node pos len
          (subst (λ me. NodeInv me s.node) (sym mine) v.node)))
    where
      go :
          (r : Reply)
          → OnReply (NodeInv w.me) r
          → OnStage (RoundInv w.me) (elim r [
            | go_on n es ↦ goes (with_node s n)
            | exits code out ↦ process_exits code s.sent
          ])
      go (go_on n es) h = with_node-RoundInv s n v h
      go (exits code out) h = h
  handle-RoundInv (inf g) s fits v =
      let (b, e, valid) = func_helper_inf-Inv w.me g s.node.neighbours fits v.node.neighbours in
      rw (e, handle)
        (with_node-RoundInv s (record s.node { neighbours = b }) v
          (with_neighbours-NodeInv s.node b v.node valid))

  pub handle_all-RoundInv :
      (as' : List Arrival) (s : RoundState)
      → ArrivalsFit w.me as'
      → RoundInv w.me s
      → OnStage (RoundInv w.me) (handle_all w as' s)
  unfolding handle_all
  handle_all-RoundInv [] s fit v = v
  handle_all-RoundInv (a ∷ more) s (fits, fit) v =
      then_do-OnStage (RoundInv w.me) (handle w a s) (handle_all w more)
        (handle-RoundInv a s fits v) (λ s' v'. handle_all-RoundInv more s' fit v')
