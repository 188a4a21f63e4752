-- ===== src/Network/Acts.antt =====
-- Every act of a peer keeps its buffers valid.
use rounds.Base.{ℕ, ◌≡◌, ◌≤◌, ◌<◌, inl, inr, sym, subst, List, Bool, length, lt→ltb}
use rounds.Params.{id_m, id_m_partial, max_evt}
use rounds.Events.Laws.{insert_event-inside}
use rounds.Peer.{Peer}
use rounds.Wire.{GossipMessage}
use rounds.Inform.Laws.{AgesFit}
use rounds.Handlers.{World, Reply, go_on, exits, func_helper_msg}
use rounds.Handlers.Steps.{NodeInv, OnReply}
use rounds.Handlers.Invariant.{func_helper_msg-NodeInv}
use rounds.OwnMessages.{my_gossip_ping}
use rounds.OwnMessages.Laws.{length-get_id_message}
use rounds.Search.{asked, begun, process_in}
use rounds.Search.Start.{process_in_lem, process_out-NodeInv}
use rounds.Bootstrap.{ping_all}
use rounds.Bootstrap.Joining.{ping_all-NodeInv}
use rounds.Leaving.{proc_exit_all}
use rounds.Leaving.Laws.{proc_exit_all_lem}
use rounds.RoundGossip.{
  RoundWorld, RoundState, Stage, inf, handle, choose_fanout, round_speed, compose, grow_older,
  func_helper_snd_rg, forget_dated,
}
use rounds.RoundGossip.Arrivals.{RoundInv, OnStage, with_node-RoundInv, handle-RoundInv}
use rounds.RoundGossip.Sending.{func_helper_snd_rg-RoundInv}
use rounds.RoundGossip.Invariant.{
  choose_fanout-Keeps, round_speed-Keeps, compose-Keeps, grow_older-Keeps, forget_dated-Keeps,
}
use rounds.Network.{
  Act, receives, learns, types, shows, greets, departs, chooses, speeds, composes, ages, tells,
  forgets, stops, Host, act, after_reply, after_turn, WorldOf, OwnAct, CanSearch,
}

-- An act of the peer itself, or one on a message with an id of 16 bytes or on a gossip with ages that
-- are accepted.
abbrev pub ActFits : Host → RoundState → Act → Type 0
ActFits h s (receives w m) = WorldOf h w × (length m.id ≡ id_m)
ActFits h s (learns rnd g) = (rnd.me ≡ h.me) × AgesFit g.list_neighbour
ActFits h s a = OwnAct h s a

module _ (me : Peer) (s : RoundState) (v : RoundInv me s) where
  reply-RoundInv : (r : Reply) → OnReply (NodeInv me) r → OnStage (RoundInv me) (after_reply s r)
  reply-RoundInv (go_on n es) h = record { node = h; fanout = v.fanout; rg = v.rg; told = v.told }
  reply-RoundInv (exits code out) h = h

  -- A step of a round, in the world of this peer.
  round-RoundInv :
      (rnd : RoundWorld) (f : RoundState → Stage)
      → rnd.me ≡ me
      → ((t : RoundState) → RoundInv rnd.me t → OnStage (RoundInv rnd.me) (f t))
      → OnStage (RoundInv me) (f s)
  round-RoundInv rnd f mine keep =
      subst (λ p. RoundInv p s → OnStage (RoundInv p) (f s)) mine (keep s) v

  receives-RoundInv :
      (w : World) (m : GossipMessage)
      → w.me ≡ me
      → 0 < w.now
      → length m.id ≡ id_m
      → OnStage (RoundInv me) (after_reply s (func_helper_msg w m s.node))
  receives-RoundInv w m mine pos len = reply-RoundInv (func_helper_msg w m s.node) (
      subst (λ p. NodeInv p s.node → OnReply (NodeInv p) (func_helper_msg w m s.node)) mine
        (func_helper_msg-NodeInv w m s.node pos len) v.node)

  greets-RoundInv :
      (w : World) (ps : List Peer)
      → 0 < w.now
      → id_m_partial ≤ length w.id_msg_const
      → let (count', ping) = my_gossip_ping w s.node.count in
        OnStage
          (RoundInv me)
          (after_reply s (ping_all w ping (length ps) ps (record s.node { count = count' })))
  unfolding my_gossip_ping
  greets-RoundInv w ps pos partial = reply-RoundInv _ (
      ping_all-NodeInv me w (my_gossip_ping w s.node.count).1 (length ps) ps
        (record s.node { count = (my_gossip_ping w s.node.count).0 }) pos
        (length-get_id_message w.id_msg_const s.node.count partial)
        (record {
          neighbours = v.node.neighbours;
          messages = v.node.messages;
          bye_peers = v.node.bye_peers;
          rs = v.node.rs;
          one_event = v.node.one_event;
          event = v.node.event;
        }))

  types-RoundInv :
      (md5 : List ℕ → List ℕ) (w : World) (parola : List ℕ) (th : List Bool)
      → w.me ≡ me
      → 0 < w.now
      → id_m_partial ≤ length w.id_msg_const
      → CanSearch th s
      → OnStage
          (RoundInv me)
          (after_turn s th (process_in md5 w parola (record { node = s.node; th_out = th }))).0
  types-RoundInv md5 w parola th mine pos partial (thread, event) =
      elim (process_in_lem md5 w parola (record { node = s.node; th_out = th }) pos partial
        (subst (λ p. NodeInv p s.node) (sym mine) v.node)) [
          | inl (_, e) ↦ rw e v
          | inr (inl (_, _, e)) ↦ rw e v
          | inr (inr (_, _, (e, valid, _))) ↦
              rw
                (
                  e,
                  thread,
                  insert_event-inside w.now
                      (asked md5 w parola (record { node = s.node; th_out = th })).1.id
                      s.node.events event,
                )
                (with_node-RoundInv s _ v (
                  subst
                    (λ p.
                      NodeInv p (begun md5 w parola (record { node = s.node; th_out = th })).node)
                    mine valid))
        ]

-- From valid buffers, whatever the peer does leaves them valid, or its process has ended.
pub act-RoundInv :
    (md5 : List ℕ → List ℕ) (h : Host) (a : Act) (s : RoundState)
    → id_m_partial ≤ length h.id_msg_const
    → ActFits h s a
    → RoundInv h.me s
    → OnStage (RoundInv h.me) (act md5 a s h.th_out).0
unfolding act
act-RoundInv md5 h (receives w m) s partial ((mine, same, pos), len) v =
    receives-RoundInv h.me s v w m mine pos len
act-RoundInv md5 h (learns rnd g) s partial (mine, fits) v =
    round-RoundInv h.me s v rnd (handle rnd (inf g)) mine (λ t. handle-RoundInv rnd (inf g) t fits)
act-RoundInv md5 h (types w parola) s partial ((mine, same, pos), can) v =
    types-RoundInv h.me s v md5 w parola h.th_out mine pos (rw same partial) can
act-RoundInv md5 h (shows index_th) s partial inside v = rw (lt→ltb index_th max_evt inside) (
    with_node-RoundInv s _ v
      (process_out-NodeInv h.me index_th (record { node = s.node; th_out = h.th_out }) v.node))
act-RoundInv md5 h (greets w ps) s partial (mine, same, pos) v =
    greets-RoundInv h.me s v w ps pos (rw same partial)
act-RoundInv md5 h (departs w) s partial (mine, same, pos) v = with_node-RoundInv s _ v (
    subst (λ p. NodeInv p s.node → NodeInv p (proc_exit_all w s.node)) mine
      (λ k. (proc_exit_all_lem w s.node k).0) v.node)
act-RoundInv md5 h (chooses rnd) s partial mine v =
    round-RoundInv h.me s v rnd (choose_fanout rnd) mine (choose_fanout-Keeps rnd)
act-RoundInv md5 h (speeds rnd) s partial mine v =
    round-RoundInv h.me s v rnd (round_speed rnd) mine (round_speed-Keeps rnd)
act-RoundInv md5 h (composes rnd) s partial mine v =
    round-RoundInv h.me s v rnd (compose rnd) mine (compose-Keeps rnd)
act-RoundInv md5 h (ages rnd) s partial mine v =
    round-RoundInv h.me s v rnd (grow_older rnd) mine (grow_older-Keeps rnd)
act-RoundInv md5 h (tells rnd t) s partial mine v =
    round-RoundInv h.me s v rnd (func_helper_snd_rg rnd t) mine (func_helper_snd_rg-RoundInv rnd t)
act-RoundInv md5 h (forgets rnd) s partial mine v =
    round-RoundInv h.me s v rnd (forget_dated rnd) mine (forget_dated-Keeps rnd)
act-RoundInv md5 h stops s partial fits v = v
