-- ===== src/Network.antt =====
-- Peers that send each other messages and information gossips: what the threads of two_rounds do, one
-- step of one peer at a time and in any order. The steps of a round of gossip and of the round speed
-- are those of two_rounds/process_RG_RS.c, and may come at any time here. What is on the way arrives
-- at any time later, or never.
pub mod Queue
pub mod Replies
pub mod Acts
pub mod Sends
pub mod Safety
use rounds.Base.{
  ℕ, zero, suc, ◌≡◌, ◌<◌, ◌≤◌, Bool, true, false, not, ◌&&◌, ltb, find_first, Option, none, some,
  List, [], ◌∷◌, ◌++◌, ◌==◌, if◌then◌else◌, length, get_or,
}
use rounds.Params.{id_m_partial, max_evt}
use rounds.Events.{is_free, is_some}
use rounds.Peer.{Peer, nobody}
use rounds.Wire.{GossipMessage}
use rounds.Fanout.{reset_buffer_fanout}
use rounds.Inform.{GossipInformations}
use rounds.Gossip.{reset_buffer_rg, reset_gossip_inf2}
use rounds.Handlers.{
  World, Node, Effect, sends, spawns_helper_msg, Reply, go_on, exits, func_helper_msg,
}
use rounds.OwnMessages.{my_gossip_ping, reset_gossip_message}
use rounds.Search.{
  Console, Turn, leaves_loop, nothing_typed, begins, process_in, process_out, init_th_out,
}
use rounds.Bootstrap.{init_node, ping_all}
use rounds.Leaving.{proc_exit_all}
use rounds.Rounds.{Delivery}
use rounds.RoundGossip.{
  InfDelivery, Arrival, RoundWorld, RoundState, Stage, goes, leaves, process_exits, undefined,
  with_node, inf, handle, choose_fanout, round_speed, compose, grow_older, func_helper_snd_rg,
  forget_dated, inf_address,
}

-- What a peer sends. The threads that `helper_query` creates send nothing.
unfoldable pub deliveries : List Effect → List Delivery
deliveries [] = []
deliveries (sends p m ∷ es) = (p, m) ∷ deliveries es
deliveries (spawns_helper_msg p ∷ es) = deliveries es

-- What one of the threads of a peer does: a helper of the dispatchers works off what came in; the user
-- types a line, or the results of a search are shown; the start greets the peers that the server
-- named; the exit begins; a step of a round; or the process ends.
pub data Act : Type 0 where
  receives : World → GossipMessage → Act
  learns : RoundWorld → GossipInformations → Act
  types : World → List ℕ → Act
  shows : ℕ → Act
  greets : World → List Peer → Act
  departs : World → Act
  chooses : RoundWorld → Act
  speeds : RoundWorld → Act
  composes : RoundWorld → Act
  ages : RoundWorld → Act
  tells : RoundWorld → ℕ → Act
  forgets : RoundWorld → Act
  stops : Act

-- A peer: its address, the constant part of its message ids, its buffers, and `th_out`. It acts while
-- its stage is `goes`.
pub record Host : Type 0 where
  pub me : Peer
  pub id_msg_const : List ℕ
  pub stage : Stage
  pub th_out : List Bool

abbrev pub after_reply : RoundState → Reply → Stage
after_reply s (go_on n es) = goes (record (with_node s n) { sent = s.sent ++ deliveries es })
after_reply s (exits code out) = process_exits code (s.sent ++ deliveries out)

-- A search begins with an element of `th_out` and an event: where none is free, the index of
-- `th_out` is unset, and that of the event lies behind the last one.
abbrev pub after_turn : RoundState → List Bool → Turn → Stage × List Bool
after_turn s th leaves_loop = (goes s, th)
after_turn s th nothing_typed = (goes s, th)
after_turn s th (begins c m d) =
    if is_some d.index_th && ltb d.index max_evt
    then (goes (with_node s c.node), c.th_out)
    else (undefined, th)

module _ (md5 : List ℕ → List ℕ) where
  -- What the act makes of the buffers and of `th_out`.
  unfoldable pub act : Act → RoundState → List Bool → Stage × List Bool
  act (receives w m) s th = (after_reply s (func_helper_msg w m s.node), th)
  act (learns rnd g) s th = (handle rnd (inf g) s, th)
  act (types w parola) s th =
      after_turn s th (process_in md5 w parola (record { node = s.node; th_out = th }))
  act (shows index_th) s th =
      let c = process_out index_th (record { node = s.node; th_out = th }) in
      if ltb index_th max_evt then (goes (with_node s c.node), c.th_out) else (undefined, th)
  act (greets w ps) s th =
      let (count', ping) = my_gossip_ping w s.node.count in
      (after_reply s (ping_all w ping (length ps) ps (record s.node { count = count' })), th)
  act (departs w) s th = (goes (with_node s (proc_exit_all w s.node)), th)
  act (chooses rnd) s th = (choose_fanout rnd s, th)
  act (speeds rnd) s th = (round_speed rnd s, th)
  act (composes rnd) s th = (compose rnd s, th)
  act (ages rnd) s th = (grow_older rnd s, th)
  act (tells rnd t) s th = (func_helper_snd_rg rnd t s, th)
  act (forgets rnd) s th = (forget_dated rnd s, th)
  act stops s th = (leaves s, th)

-- The peers, and the messages and the information gossips that are on the way.
pub record Net : Type 0 where
  pub hosts : ℕ → Host
  pub mail : List Delivery
  pub news : List InfDelivery

-- What an act has sent, also when the process ends in it.
abbrev pub sent_by : Stage → List Delivery
sent_by (goes s) = s.sent
sent_by (process_exits code out) = out
sent_by other = []

abbrev pub told_by : Stage → List InfDelivery
told_by (goes s) = s.told
told_by other = []

abbrev pub update : (ℕ → Host) → ℕ → Host → ℕ → Host
update hosts i h j = if j == i then h else hosts j

-- The peer `i` has come to the stage `r`.
abbrev pub reached : ℕ → Stage × List Bool → Net → Net
reached i r net = record {
  hosts = update net.hosts i (record (net.hosts i) { stage = r.0; th_out = r.1 });
  mail = net.mail ++ sent_by r.0;
  news = net.news ++ told_by r.0;
}

unfoldable pub remove {ℓ} : {A : Type ℓ} → ℕ → List A → List A
remove k [] = []
remove zero (x ∷ xs) = xs
remove (suc k) (x ∷ xs) = x ∷ remove k xs

-- The world of an act is that of the peer.
abbrev pub WorldOf : Host → World → Type 0
WorldOf h w = (w.me ≡ h.me) × (w.id_msg_const ≡ h.id_msg_const) × (0 < w.now)

-- An element of `th_out` and an event are free for a search. `sem_input` lets the next line in when the
-- event of the last search has been reset, just before its element of `th_out` is.
abbrev pub CanSearch : List Bool → RoundState → Type 0
CanSearch th s =
    (is_some (find_first not max_evt th) ≡ true)
    × (is_some (find_first is_free max_evt s.node.events) ≡ true)

-- The acts of a peer of its own accord. Its user begins a search when there is room for one.
abbrev pub OwnAct : Host → RoundState → Act → Type 0
OwnAct h s (receives w m) = ⊥
OwnAct h s (learns rnd g) = ⊥
OwnAct h s (types w parola) = WorldOf h w × CanSearch h.th_out s
OwnAct h s (shows index_th) = index_th < max_evt
OwnAct h s (greets w ps) = WorldOf h w
OwnAct h s (departs w) = WorldOf h w
OwnAct h s (chooses rnd) = rnd.me ≡ h.me
OwnAct h s (speeds rnd) = rnd.me ≡ h.me
OwnAct h s (composes rnd) = rnd.me ≡ h.me
OwnAct h s (ages rnd) = rnd.me ≡ h.me
OwnAct h s (tells rnd t) = rnd.me ≡ h.me
OwnAct h s (forgets rnd) = rnd.me ≡ h.me
OwnAct h s stops = Unit {0}

abbrev pub no_mail : Delivery
no_mail = (nobody, reset_gossip_message)

abbrev pub no_news : InfDelivery
no_news = (nobody, reset_gossip_inf2)

-- The buffers before an act, with nothing sent.
abbrev pub fresh : RoundState → RoundState
fresh s = record s { sent = []; told = [] }

-- One peer acts; or the message or the gossip `k` of those on the way arrives at the peer it is sent
-- to.
pub data Step (md5 : List ℕ → List ℕ) (net : Net) : Net → Type 0 where
  acts :
      (i : ℕ) (s : RoundState) (a : Act)
      → (net.hosts i).stage ≡ goes s
      → OwnAct (net.hosts i) s a
      → Step md5 net (reached i (act md5 a (fresh s) (net.hosts i).th_out) net)
  delivers :
      (i : ℕ) (s : RoundState) (k : ℕ) (w : World) (m : GossipMessage)
      → (net.hosts i).stage ≡ goes s
      → WorldOf (net.hosts i) w
      → k < length net.mail
      → get_or net.mail k no_mail ≡ ((net.hosts i).me, m)
      → Step md5 net (
          reached i
            (act md5 (receives w m) (fresh s) (net.hosts i).th_out)
            (record net { mail = remove k net.mail }))
  informs :
      (i : ℕ) (s : RoundState) (k : ℕ) (rnd : RoundWorld) (g : GossipInformations)
      → (net.hosts i).stage ≡ goes s
      → rnd.me ≡ (net.hosts i).me
      → k < length net.news
      → get_or net.news k no_news ≡ (inf_address rnd (net.hosts i).me, g)
      → Step md5 net (
          reached i
            (act md5 (learns rnd g) (fresh s) (net.hosts i).th_out)
            (record net { news = remove k net.news }))

-- The buffers as `bootstrap` makes them, and the local ones of `process_RG`.
abbrev pub at_start : RoundState
at_start = record {
  node = init_node;
  fanout = reset_buffer_fanout;
  rg = reset_buffer_rg;
  sent = [];
  told = [];
}

-- Peers that have just started, each with a constant part of 12 bytes at least; nothing is on the way.
pub record Starts (net : Net) : Type 0 where
  pub ready : (i : ℕ) → (net.hosts i).stage ≡ goes at_start
  pub id : (i : ℕ) → id_m_partial ≤ length (net.hosts i).id_msg_const
  pub no_mail : net.mail ≡ []
  pub no_news : net.news ≡ []

pub data Reach (md5 : List ℕ → List ℕ) (net : Net) : Net → Type 0 where
  here : Reach md5 net net
  later : {a b : Net} → Reach md5 net a → Step md5 a b → Reach md5 net b
