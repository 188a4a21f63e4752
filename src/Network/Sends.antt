-- ===== src/Network/Sends.antt =====
-- Whatever a peer does, what it sends and queues has ids of 16 bytes.
use rounds.Base.{
  ℕ, ◌≤◌, Bool-cases, inl, inr, List, Bool, length, [], ◌∷◌, ◌++◌, get_or, some, none, Option, ◌==◌,
  ◌&&◌, ltb, lt→ltb,
}
use rounds.Params.{id_m_partial, max_evt}
use rounds.Events.{is_some}
use rounds.Peer.{Peer, nobody}
use rounds.Neighbour.{BufferNeighbour}
use rounds.ByePeers.{search_bye_peer}
use rounds.Inform.{GossipInformations, func_helper_inf}
use rounds.Gossip.{reset_gossip_inf2}
use rounds.Handlers.{
  Connection, connected, no_socket, not_connected, World, Reply, go_on, exits, func_helper_msg,
}
use rounds.OwnMessages.{my_gossip_ping, gossip_bye}
use rounds.OwnMessages.Laws.{length-get_id_message}
use rounds.Search.{Console, asked, in_dati, is_exit, count_word, max_stdin, process_in, process_out}
use rounds.Search.Start.{length-asked}
use rounds.Leaving.{proc_exit_all}
use rounds.Rounds.{Outcome, ended, exits, null_message, runs_out, process_rs}
use rounds.RoundGossip.{
  RoundWorld, RoundState, Stage, goes, process_exits, undefined, with_node, inf, handle, after_rs,
  round_speed, inf_address, func_helper_snd_rg,
}
use rounds.Network.{
  Act, receives, learns, types, shows, greets, departs, chooses, speeds, composes, ages, tells,
  forgets, stops, Host, act, after_reply, after_turn, deliveries,
}
use rounds.Network.Queue.{
  RsFits, MailFits, append-MailFits, insert_mymessage_rs-RsFits, OutFits, process_rs-OutFits,
}
use rounds.Network.Replies.{ReplyFits, func_helper_msg-ReplyFits, ping_all-ReplyFits}
use rounds.Network.Acts.{ActFits}

-- What is queued and sent.
pub record Sound (s : RoundState) : Type 0 where
  pub rs : RsFits s.node.rs
  pub sent : MailFits s.sent

abbrev pub StageSound : Stage → Type 0
StageSound (goes s) = Sound s
StageSound (process_exits code out) = MailFits out
StageSound other = Unit {0}

reply-Sound : (s : RoundState) (r : Reply) → Sound s → ReplyFits r → StageSound (after_reply s r)
reply-Sound s (go_on n es) v (rs, all) = record {
  rs = rs;
  sent = append-MailFits s.sent _ v.sent all;
}
reply-Sound s (exits code out) v h = append-MailFits s.sent (deliveries out) v.sent h

module _ (s : RoundState) (v : Sound s) where
  learns-Sound : (rnd : RoundWorld) (g : GossipInformations) → StageSound (handle rnd (inf g) s)
  unfolding handle
  learns-Sound rnd g = go (func_helper_inf rnd.me g s.node.neighbours)
    where
      go :
          (o : Option BufferNeighbour)
          → StageSound (elim o [
            | some b ↦ goes (with_node s (record s.node { neighbours = b }))
            | none ↦ undefined
          ])
      go (some b) = record { rs = v.rs; sent = v.sent }
      go none = tt

  types-Sound :
      (md5 : List ℕ → List ℕ) (w : World) (parola : List ℕ) (th : List Bool)
      → id_m_partial ≤ length w.id_msg_const
      → StageSound
          (after_turn s th (process_in md5 w parola (record { node = s.node; th_out = th }))).0
  unfolding process_in
  types-Sound md5 w parola th partial =
      let c : Console = record { node = s.node; th_out = th } in
      elim (Bool-cases (is_exit parola)) [
        | inl stop ↦ rw stop v
        | inr more ↦ elim (Bool-cases (count_word max_stdin parola == 0)) [
          | inl nothing ↦ rw (more, nothing) v
          | inr word ↦
              let d = in_dati md5 w parola c in
              elim (Bool-cases (is_some d.index_th && ltb d.index max_evt)) [
                | inr none_free ↦ rw (more, word, none_free) tt
                | inl free ↦
                    rw (more, word, free)
                      (record {
                        rs =
                            insert_mymessage_rs-RsFits (asked md5 w parola c).1 s.node.rs
                              (length-asked md5 w parola c partial) v.rs;
                        sent = v.sent;
                      })
              ]
        ]
      ]

  departs-Sound :
      (w : World)
      → id_m_partial ≤ length w.id_msg_const
      → Sound (with_node s (proc_exit_all w s.node))
  unfolding proc_exit_all gossip_bye
  departs-Sound w partial = record {
    rs =
        insert_mymessage_rs-RsFits (gossip_bye w s.node.count).1 s.node.rs
          (length-get_id_message w.id_msg_const s.node.count partial) v.rs;
    sent = v.sent;
  }

  speeds-Sound : (rnd : RoundWorld) → StageSound (round_speed rnd s)
  unfolding round_speed
  speeds-Sound rnd =
      go (process_rs rnd.net s.node.bye_peers s.fanout s.node.rs)
        (process_rs-OutFits rnd.net s.node.bye_peers s.fanout s.node.rs v.rs)
    where
      go : (o : Outcome) → OutFits o → StageSound (after_rs rnd s o)
      go (ended b ds) (rs, all) = record { rs = rs; sent = append-MailFits s.sent ds v.sent all }
      go (Outcome.exits code ds) h = append-MailFits s.sent ds v.sent h
      go null_message h = tt
      go runs_out h = tt

  tells-Sound : (rnd : RoundWorld) (t : ℕ) → StageSound (func_helper_snd_rg rnd t s)
  unfolding func_helper_snd_rg
  tells-Sound rnd t =
      let p = get_or s.fanout.nodi t nobody in
      elim (Bool-cases (search_bye_peer p s.node.bye_peers)) [
        | inl gone ↦ rw gone v
        | inr here ↦
            rw here (go p (get_or s.rg.list_inf t reset_gossip_inf2) (rnd.net (inf_address rnd p)))
      ]
    where
      go :
          (p : Peer) (g : GossipInformations) (c : Connection)
          → StageSound (elim c [
            | connected ↦ goes (record s { told = s.told ++ ((inf_address rnd p, g) ∷ []) })
            | no_socket ↦ process_exits 3 s.sent
            | not_connected ↦ process_exits 4 s.sent
          ])
      go p g connected = record { rs = v.rs; sent = v.sent }
      go p g no_socket = v.sent
      go p g not_connected = v.sent

pub act-Sound :
    (md5 : List ℕ → List ℕ) (h : Host) (a : Act) (s : RoundState) (th : List Bool)
    → id_m_partial ≤ length h.id_msg_const
    → ActFits h s a
    → Sound s
    → StageSound (act md5 a s th).0
unfolding act my_gossip_ping process_out
act-Sound md5 h (receives w m) s th partial ((mine, same, pos), len) v =
    reply-Sound s (func_helper_msg w m s.node) v
      (func_helper_msg-ReplyFits w m len s.node (rw same partial) v.rs)
act-Sound md5 h (learns rnd g) s th partial fits v = learns-Sound s v rnd g
act-Sound md5 h (types w parola) s th partial ((mine, same, pos), can) v =
    types-Sound s v md5 w parola th (rw same partial)
act-Sound md5 h (shows index_th) s th partial inside v =
    rw (lt→ltb index_th max_evt inside) (record { rs = v.rs; sent = v.sent })
act-Sound md5 h (greets w ps) s th partial (mine, same, pos) v = reply-Sound s _ v (
    ping_all-ReplyFits w (my_gossip_ping w s.node.count).1 (length ps) ps
      (record s.node { count = (my_gossip_ping w s.node.count).0 })
      (length-get_id_message w.id_msg_const s.node.count (rw same partial)) v.rs)
act-Sound md5 h (departs w) s th partial (mine, same, pos) v = departs-Sound s v w (rw same partial)
act-Sound md5 h (chooses rnd) s th partial fits v = record { rs = v.rs; sent = v.sent }
act-Sound md5 h (speeds rnd) s th partial fits v = speeds-Sound s v rnd
act-Sound md5 h (composes rnd) s th partial fits v = record { rs = v.rs; sent = v.sent }
act-Sound md5 h (ages rnd) s th partial fits v = record { rs = v.rs; sent = v.sent }
act-Sound md5 h (tells rnd t) s th partial fits v = tells-Sound s v rnd t
act-Sound md5 h (forgets rnd) s th partial fits v = record { rs = v.rs; sent = v.sent }
act-Sound md5 h stops s th partial fits v = tt
