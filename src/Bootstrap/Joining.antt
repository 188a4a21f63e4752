-- ===== src/Bootstrap/Joining.antt =====
-- A peer that has entered the network has enough neighbours and valid buffers.
use rounds.Base.{
  ℕ, zero, suc, ◌≡◌, ◌<◌, ◌≤◌, refl, arith, List, [], ◌∷◌, ◌++◌, length, subst, sym, Bool-cases,
  inl, inr, ltb, false,
}
use rounds.Params.{fanout, id_m, id_m_partial}
use rounds.Peer.{Peer}
use rounds.Wire.{GossipMessage}
use rounds.Neighbour.{get_number_neighbour}
use rounds.Neighbour.Distinct
use rounds.MessageLog.Laws as LogLaws
use rounds.ByePeers.Laws as ByeLaws
use rounds.Events.{init_buffer_event}
use rounds.Events.Laws as EventLaws
use rounds.RoundSpeed.Fifo
use rounds.Handlers.{
  Connection, connected, no_socket, not_connected, World, Node, sends, Reply, go_on, exits,
  func_helper_msg,
}
use rounds.Handlers.Steps.{EndsWith, NodeInv, OnReply}
use rounds.Handlers.Invariant.{func_helper_msg-NodeInv}
use rounds.OwnMessages.{my_gossip_ping}
use rounds.OwnMessages.Laws.{length-get_id_message}
use rounds.MessageLog.{search_insert_id}
use rounds.Bootstrap.{
  servboot_min_nodi, init_node, ◌then_run◌, boot2_helper, ping_all, receive_all, Contact,
  greet_peers, when_greeted, Boot, joined, asking, boot_exits, out_of_bounds, when_asked,
  bootstrap2_ciclic,
}

-- What `bootstrap` makes satisfies the invariant of the buffers.
pub init_node-NodeInv : (me : Peer) → NodeInv me init_node
unfolding init_node init_buffer_event
init_node-NodeInv me = record {
  neighbours = Distinct.init-Inv me;
  messages = LogLaws.init-IsValid;
  bye_peers = ByeLaws.init-AllBlank;
  rs = Fifo.init-IsReady;
  one_event = refl;
  event = EventLaws.free_event-IsValid;
}

pub then_run-OnReply :
    (P : Node → Type 0) (r : Reply) (f : Node → Reply)
    → OnReply P r
    → ((n : Node) → P n → OnReply P (f n))
    → OnReply P (r then_run f)
then_run-OnReply P (exits code out) f v keep = v
then_run-OnReply P (go_on n es) f v keep = go (f n) (keep n v)
  where
    go :
        (r : Reply)
        → OnReply P r
        → OnReply P (elim r [
          | go_on n' es' ↦ go_on n' (es ++ es')
          | exits code out ↦ exits code (es ++ out)
        ])
    go (go_on n' es') h = h
    go (exits code out) h = h

-- Messages for this peer, with ids of 16 bytes and the clock past 0.
abbrev pub MessagesFit : Peer → List (World × GossipMessage) → Type 0
MessagesFit me [] = Unit {0}
MessagesFit me ((w, m) ∷ more) =
    ((w.me ≡ me) × (0 < w.now) × (length m.id ≡ id_m)) × MessagesFit me more

abbrev pub ContactFits : Peer → Contact → Type 0
ContactFits me c =
    (c.servboot_nodi.limit ≤ length c.servboot_nodi.boot_neighbour)
    × (c.world.me ≡ me)
    × (0 < c.world.now)
    × (id_m_partial ≤ length c.world.id_msg_const)
    × MessagesFit me c.incoming

abbrev pub ContactsFit : Peer → List Contact → Type 0
ContactsFit me [] = Unit {0}
ContactsFit me (c ∷ cs) = ContactFits me c × ContactsFit me cs

module _ (me : Peer) where
  boot2_helper-NodeInv :
      (w : World) (ping : GossipMessage) (p : Peer) (n : Node)
      → 0 < w.now
      → length ping.id ≡ id_m
      → NodeInv me n
      → OnReply (NodeInv me) (boot2_helper w ping p n)
  unfolding boot2_helper
  boot2_helper-NodeInv w ping p n pos len v = go (w.net p)
    where
      logged : NodeInv me (record n { messages = (search_insert_id w.now ping.id n.messages).0 })
      logged = record {
        neighbours = v.neighbours;
        messages = LogLaws.search_insert_id-IsValid w.now ping.id pos len n.messages v.messages;
        bye_peers = v.bye_peers;
        rs = v.rs;
        one_event = v.one_event;
        event = v.event;
      }

      go :
          (c : Connection)
          → OnReply (NodeInv me) (elim c [
            | connected ↦
                go_on
                  (record n { messages = (search_insert_id w.now ping.id n.messages).0 })
                  (sends p ping ∷ [])
            | no_socket ↦ exits 3 []
            | not_connected ↦ exits 4 []
          ])
      go connected = logged
      go no_socket = inl refl
      go not_connected = inr (inl refl)

  pub ping_all-NodeInv :
      (w : World) (ping : GossipMessage) (k : ℕ) (ps : List Peer) (n : Node)
      → 0 < w.now
      → length ping.id ≡ id_m
      → NodeInv me n
      → OnReply (NodeInv me) (ping_all w ping k ps n)
  unfolding ping_all
  ping_all-NodeInv w ping zero ps n pos len v = v
  ping_all-NodeInv w ping (suc k) [] n pos len v = v
  ping_all-NodeInv w ping (suc k) (p ∷ ps) n pos len v =
      then_run-OnReply (NodeInv me) (boot2_helper w ping p n) (ping_all w ping k ps)
        (boot2_helper-NodeInv w ping p n pos len v)
        (λ n' v'. ping_all-NodeInv w ping k ps n' pos len v')

  pub receive_all-NodeInv :
      (ms : List (World × GossipMessage)) (n : Node)
      → MessagesFit me ms
      → NodeInv me n
      → OnReply (NodeInv me) (receive_all ms n)
  unfolding receive_all
  receive_all-NodeInv [] n fit v = v
  receive_all-NodeInv ((w, m) ∷ more) n ((mine, pos, len), fit) v =
      then_run-OnReply (NodeInv me) (func_helper_msg w m n) (receive_all more)
        (subst (λ p. OnReply (NodeInv p) (func_helper_msg w m n)) mine
          (func_helper_msg-NodeInv w m n pos len (subst (λ p. NodeInv p n) (sym mine) v)))
        (λ n' v'. receive_all-NodeInv more n' fit v')

  pub greet_peers-NodeInv :
      (c : Contact) (n : Node)
      → ContactFits me c
      → NodeInv me n
      → OnReply (NodeInv me) (greet_peers c n)
  unfolding greet_peers my_gossip_ping
  greet_peers-NodeInv c n (_, mine, pos, len, fit) v =
      then_run-OnReply (NodeInv me) _ (receive_all c.incoming)
        (ping_all-NodeInv c.world (my_gossip_ping c.world n.count).1 c.servboot_nodi.limit
          c.servboot_nodi.boot_neighbour (record n { count = (my_gossip_ping c.world n.count).0 })
          pos (length-get_id_message c.world.id_msg_const n.count len)
          (record {
            neighbours = v.neighbours;
            messages = v.messages;
            bye_peers = v.bye_peers;
            rs = v.rs;
            one_event = v.one_event;
            event = v.event;
          }))
        (λ n' v'. receive_all-NodeInv c.incoming n' fit v')

-- The peer has joined with at least seven neighbours; it asks on; or the process has ended. No answer
-- is read behind its end.
abbrev pub OnBoot : Peer → Boot → Type 0
OnBoot me (joined n) = NodeInv me n × (fanout ≤ get_number_neighbour n.neighbours)
OnBoot me (asking n) = NodeInv me n
OnBoot me (boot_exits code) = EndsWith code
OnBoot me out_of_bounds = ⊥

when_greeted-OnBoot :
    (me : Peer) (rest : Node → Boot) (r : Reply)
    → OnReply (NodeInv me) r
    → ((n : Node) → NodeInv me n → OnBoot me (rest n))
    → OnBoot me (when_greeted rest r)
when_greeted-OnBoot me rest (exits code out) h later = h
when_greeted-OnBoot me rest (go_on n es) h later =
    elim (Bool-cases (ltb (get_number_neighbour n.neighbours) fanout)) [
      | inl few ↦ rw few (later n h)
      | inr enough ↦ rw enough (h, ground arith)
    ]

when_asked-OnBoot :
    (me : Peer) (rest : Node → Boot) (r : Reply)
    → OnReply (NodeInv me) r
    → ((n : Node) → NodeInv me n → OnBoot me (rest n))
    → OnBoot me (when_asked rest r)
when_asked-OnBoot me rest (exits code out) h later = h
when_asked-OnBoot me rest (go_on n es) h later = later n h

-- Whatever the server answers, each answer naming no more peers than it has room for, and with
-- messages for this peer that have ids of 16 bytes, behind each answer: from valid buffers, a peer
-- that has entered the network has at least seven neighbours and valid buffers; the buffers of one
-- that asks again are valid too; no answer is read behind its end; and the process ends with the code
-- 1, 3 or 4 only.
pub bootstrap2_ciclic-OnBoot :
    (me : Peer) (cs : List Contact) (n : Node)
    → ContactsFit me cs
    → NodeInv me n
    → OnBoot me (bootstrap2_ciclic cs n)
unfolding bootstrap2_ciclic
bootstrap2_ciclic-OnBoot me [] n fit v = v
bootstrap2_ciclic-OnBoot me (c ∷ cs) n ((size, mine, pos, len, come), fit) v =
    elim (Bool-cases (ltb c.servboot_nodi.limit servboot_min_nodi)) [
      | inl few ↦
          rw (few, bootstrap2_ciclic)
            (when_asked-OnBoot me (bootstrap2_ciclic cs) (receive_all c.incoming n)
              (receive_all-NodeInv me c.incoming n come v)
              (λ n' v'. bootstrap2_ciclic-OnBoot me cs n' fit v'))
      | inr enough ↦
          let inside : ltb (length c.servboot_nodi.boot_neighbour) c.servboot_nodi.limit ≡ false =
            ground (arith, size) in
          rw (enough, inside, bootstrap2_ciclic)
            (when_greeted-OnBoot me (bootstrap2_ciclic cs) (greet_peers c n)
              (greet_peers-NodeInv me c n (size, mine, pos, len, come) v)
              (λ n' v'. bootstrap2_ciclic-OnBoot me cs n' fit v'))
    ]
