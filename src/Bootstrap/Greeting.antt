-- ===== src/Bootstrap/Greeting.antt =====
-- The greeting of a newcomer, two_rounds/bootstrap.c with `helper_ping` and `helper_pong` of
-- two_rounds/dispatcher_msg.c: its pings, the pongs of the peers that get them, and its neighbours then.
use rounds.Base.{
  ℕ, zero, suc, ◌+◌, ◌*◌, ◌≡◌, ◌≤◌, ◌<◌, refl, ap, ◌∙◌, arith, true, if◌then◌else◌, ◌==◌, List, [],
  ◌∷◌, ◌++◌, length, bit, sum_of,
}
use rounds.Params.{id_m, max_age}
use rounds.Peer.{Peer, same_peer, same_peer_iff, same_peer_refl}
use rounds.Wire.{GossipMessage, boot_ping2, boot_pong2}
use rounds.Neighbour.{get_number_neighbour}
use rounds.Neighbour.Table.{count_peer}
use rounds.Neighbour.Distinct
use rounds.Neighbour.Arriving.{insert_peer-new}
use rounds.MessageLog.{search_insert_id}
use rounds.MessageLog.Laws.{count_id}
use rounds.Handlers.{
  World, Node, Effect, sends, spawns_helper_msg, Reply, go_on, exits, connected, gossip_pong, greet,
  as_neighbour, send_to, answer_ping, forget_bye, helper_ping, helper_pong, func_helper_msg,
}
use rounds.Handlers.Steps.{NodeInv}
use rounds.Handlers.Laws.{fresh, dispatch_ping}
use rounds.RoundSpeed.{insert_message_rs}
use rounds.Bootstrap.{boot2_helper, ping_all, receive_all}

ping_all-step :
    (w : World) (ping : GossipMessage) (k : ℕ) (p : Peer) (ps : List Peer) (n n' : Node)
    (es : List Effect)
    → w.net p ≡ connected
    → ping_all w ping k ps (record n { messages = (search_insert_id w.now ping.id n.messages).0 })
      ≡ go_on n' es
    → ping_all w ping (suc k) (p ∷ ps) n ≡ go_on n' (sends p ping ∷ es)
unfolding ping_all boot2_helper
ping_all-step w ping k p ps n n' es linked e = rw (ping_all, boot2_helper, linked, e) refl

-- When all named peers can be reached, the pings go out, and the neighbours stay as they are.
pub ping_all-connected :
    (w : World) (ping : GossipMessage) (k : ℕ) (ps : List Peer) (n : Node)
    → ((p : Peer) → 1 ≤ sum_of (λ q. bit (same_peer p q)) k ps → w.net p ≡ connected)
    → (n' : Node) × (es : List Effect) × (ping_all w ping k ps n ≡ go_on n' es)
      × (n'.neighbours ≡ n.neighbours)
unfolding ping_all sum_of
ping_all-connected w ping zero ps n linked = (n, [], refl, refl)
ping_all-connected w ping (suc k) [] n linked = (n, [], refl, refl)
ping_all-connected w ping (suc k) (p ∷ ps) n linked =
    let (n', es, e, same) =
      ping_all-connected w ping k ps
        (record n { messages = (search_insert_id w.now ping.id n.messages).0 })
        (λ q h. linked q (omega arith)) in
    (
      n',
      sends p ping ∷ es,
      ping_all-step w ping k p ps n n' es (linked p (omega (arith, ap bit (same_peer_refl p)))) e,
      same,
    )

-- A peer of the network and its buffers, which gets the ping.
abbrev pub Greeter : Type 0
Greeter = World × Node

-- What of the messages that a handler sends is for the peer `p`.
unfoldable pub sent_to : Peer → List Effect → List GossipMessage
sent_to p [] = []
sent_to p (sends q m ∷ es) = let rest = sent_to p es in if same_peer p q then m ∷ rest else rest
sent_to p (spawns_helper_msg q ∷ es) = sent_to p es

abbrev pub reply_to : Peer → Reply → List GossipMessage
reply_to p (go_on n es) = sent_to p es
reply_to p (exits code out) = []

abbrev pub at_world : World → List GossipMessage → List (World × GossipMessage)
at_world w [] = []
at_world w (m ∷ ms) = (w, m) ∷ at_world w ms

-- What comes back to the newcomer when each of the peers works off its ping.
unfoldable pub answers : World → GossipMessage → List Greeter → List (World × GossipMessage)
answers w ping [] = []
answers w ping ((q, n) ∷ qs) =
    at_world w (reply_to w.me (func_helper_msg q ping n)) ++ answers w ping qs

-- How many of the peers are `p`.
abbrev pub answered : Peer → List Greeter → ℕ
answered p [] = 0
answered p ((q, n) ∷ qs) = bit (same_peer p q.me) + answered p qs

-- A peer that can be reached with a ping that it has not seen, and that can reach the newcomer.
pub record CanGreet (ping : GossipMessage) (q : World) (n : Node) : Type 0 where
  pub pos : 0 < q.now
  pub valid : NodeInv q.me n
  pub new : count_id ping.id n.messages ≡ 0
  pub linked : q.net ping.peer ≡ connected

abbrev pub AllCanGreet : GossipMessage → List Greeter → Type 0
AllCanGreet ping [] = Unit {0}
AllCanGreet ping ((q, n) ∷ qs) = CanGreet ping q n × AllCanGreet ping qs

answer_ping-young :
    (w : World) (pong m : GossipMessage) (n : Node)
    → m.age ≡ 0
    → w.net m.peer ≡ connected
    → (n' : Node) × (answer_ping w pong m n ≡ go_on n' (sends m.peer pong ∷ []))
unfolding answer_ping send_to
answer_ping-young w pong m n young linked =
    let yes : (m.age == 0) ≡ true = ground arith in
    let n' = greet w m n in
    (record n' { rs = insert_message_rs m n'.rs }, rw (yes, send_to, linked) refl)

-- A ping that comes from its sender itself, of age 0, is answered with one pong.
pub ping-pong :
    (ping : GossipMessage) (q : World) (n : Node)
    → ping.pay_desc ≡ boot_ping2
    → ping.age ≡ 0
    → length ping.id ≡ id_m
    → CanGreet ping q n
    → (n' : Node) × (func_helper_msg q ping n
        ≡ go_on n' (sends ping.peer (gossip_pong q n.count).1 ∷ []))
unfolding helper_ping
ping-pong ping q n kind young len g =
    let logged : Node = record n {
      messages = (search_insert_id q.now ping.id n.messages).0;
      count = (gossip_pong q n.count).0;
    } in
    let (n', e) =
      answer_ping-young q (gossip_pong q n.count).1 ping (forget_bye ping.peer logged) young
        g.linked in
    (n', dispatch_ping q ping n kind ∙ rw (fresh q ping n g.pos len g.valid g.new) e)

-- What the newcomer gets back is the pong of each.
unfoldable pub pongs : World → List Greeter → List (World × GossipMessage)
pongs w [] = []
pongs w ((q, n) ∷ qs) = (w, (gossip_pong q n.count).1) ∷ pongs w qs

pub answers_eq :
    (w : World) (ping : GossipMessage) (qs : List Greeter)
    → ping.pay_desc ≡ boot_ping2
    → ping.age ≡ 0
    → ping.peer ≡ w.me
    → length ping.id ≡ id_m
    → AllCanGreet ping qs
    → answers w ping qs ≡ pongs w qs
unfolding answers sent_to pongs
answers_eq w ping [] kind young mine len g = refl
answers_eq w ping ((q, n) ∷ qs) kind young mine len (g, gs) =
    let (n', e) = ping-pong ping q n kind young len g in
    let rest = answers_eq w ping qs kind young mine len gs in
    rw (e, mine, same_peer_refl w.me, rest) refl

helper_pong-greets :
    (w : World) (m : GossipMessage) (n : Node)
    → m.pay_desc ≡ boot_pong2
    → func_helper_msg w m n ≡ go_on (greet w m n) []
unfolding func_helper_msg helper_pong
helper_pong-greets w m n e = ground arith

-- The pongs of peers that are neither held nor the own one make all of them neighbours.
pub receive_all-pongs :
    (w : World) (qs : List Greeter) (n : Node)
    → Distinct.Inv w.me n.neighbours
    → ((p : Peer) → count_peer p n.neighbours + answered p qs ≤ 1)
    → answered w.me qs ≡ 0
    → get_number_neighbour n.neighbours + length qs ≤ max_age * max_age
    → (n' : Node) × (receive_all (pongs w qs) n ≡ go_on n' [])
      × ((p : Peer) → count_peer p n'.neighbours ≡ count_peer p n.neighbours + answered p qs)
      × (get_number_neighbour n'.neighbours ≡ get_number_neighbour n.neighbours + length qs)
unfolding receive_all pongs
receive_all-pongs w [] n v once other room = (n, refl, (λ p. omega arith), omega arith)
receive_all-pongs w ((q, nq) ∷ qs) n v once other room =
    let pong = (gossip_pong q nq.count).1 in
    let self = ap bit (same_peer_refl q.me) in
    let (held, more) =
      insert_peer-new w.me (as_neighbour pong) n.neighbours v
        (λ e. absurd (omega (arith, ap bit ((same_peer_iff w.me q.me).1 e), other)))
        (omega (arith, once q.me, self)) (omega arith) in
    let (n', e, counts, number) =
      receive_all-pongs w qs (greet w pong n)
        (Distinct.insert_peer-Inv w.me (as_neighbour pong) n.neighbours v)
        (λ p. omega (arith, held p, once p)) (omega (arith, other)) (omega (arith, more)) in
    (
      n',
      rw (helper_pong-greets w pong n refl, e) refl,
      (λ p. omega (arith, counts p, held p)),
      omega (arith, number, more),
    )
