-- ===== src/Bootstrap/Success.antt =====
-- The entry of a newcomer from the request to the server until `bootstrap2_ciclic` returns: the server,
-- the newcomer and the peers that answer it.
use rounds.Base.{
  ℕ, ◌+◌, ◌≡◌, ◌≤◌, ◌<◌, inl, inr, refl, sym, subst, ap, ◌∙◌, arith, false, List, [], ◌∷◌, ◌++◌,
  length, Bool-cases, ltb,
}
use rounds.Params.{fanout, server_nodi, id_m_partial}
use rounds.Peer.{Peer, same_peer, same_peer_refl}
use rounds.Wire.{GossipMessage}
use rounds.Neighbour.{get_number_neighbour}
use rounds.Neighbour.Table.{count_peer}
use rounds.Neighbour.Distinct
use rounds.Neighbour.Arriving.{number_init}
use rounds.Handlers.{World, Node, Effect, Reply, go_on, connected}
use rounds.OwnMessages.{my_gossip_ping}
use rounds.OwnMessages.Laws.{length-get_id_message}
use rounds.BootServer.{BufferNodi, func_helper_servboot, set_gserver_nodi, init_gserver_nodi}
use rounds.BootServer.Laws as BootLaws
use rounds.BootServer.Answers.{
  offered, set_gserver_nodi-few, set_gserver_nodi-limit, set_gserver_nodi-room,
}
use rounds.Bootstrap.{
  servboot_min_nodi, init_node, Contact, greet_peers, joined, bootstrap2_ciclic, ◌then_run◌,
  receive_all,
}
use rounds.Bootstrap.Greeting.{
  Greeter, answers, answered, AllCanGreet, answers_eq, ping_all-connected, receive_all-pongs,
}

-- The ping of a newcomer that has just been started.
abbrev pub first_ping : World → GossipMessage
first_ping w = (my_gossip_ping w 0).1

-- The first contact: the server answers the request, and the peers `qs` answer the ping.
abbrev pub contact : World → List ℕ → BufferNodi → List Greeter → Contact
contact w rands b qs = record {
  world = w;
  servboot_nodi = (func_helper_servboot w.me rands b).1;
  incoming = answers w (first_ping w) qs;
}

-- What the server names to the newcomer when it holds at most ten peers.
named :
    (p : Peer) (rands : List ℕ) (b : BufferNodi)
    → BootLaws.IsValid b
    → (func_helper_servboot p rands b).0.limit ≤ server_nodi
    → ((q : Peer) → offered q (func_helper_servboot p rands b).1 ≤ 1)
      × (offered p (func_helper_servboot p rands b).1 ≡ 0)
      × ((func_helper_servboot p rands b).0.limit ≤ (func_helper_servboot p rands b).1.limit + 1)
      × ((func_helper_servboot p rands b).1.limit
          ≤ length (func_helper_servboot p rands b).1.boot_neighbour)
unfolding func_helper_servboot
named p rands b v few =
    let table = (func_helper_servboot p rands b).0 in
    let valid : BootLaws.IsValid table = BootLaws.func_helper_servboot-IsValid p rands b v in
    let answer = set_gserver_nodi p rands table init_gserver_nodi in
    (
      λ q. elim (Bool-cases (same_peer p q)) [
        | inl same ↦
            let none_offered : offered q answer ≡ 0 =
              set_gserver_nodi-few p rands table valid few q ∙ rw same refl in
            omega (arith, none_offered)
        | inr other ↦
            let as_table : offered q answer ≡ BootLaws.enrolled q table =
              set_gserver_nodi-few p rands table valid few q ∙ rw other refl in
            omega (arith, as_table, valid.distinct q)
      ],
      set_gserver_nodi-few p rands table valid few p ∙ rw (same_peer_refl p) refl,
      omega (arith, set_gserver_nodi-limit p rands table valid few, valid.distinct p),
      omega (
        arith,
        set_gserver_nodi-limit p rands table valid few,
        set_gserver_nodi-room p rands table few,
      ),
    )

go_on-then_run :
    (n n' : Node) (es es' : List Effect) (f : Node → Reply)
    → f n ≡ go_on n' es'
    → (go_on n es then_run f) ≡ go_on n' (es ++ es')
go_on-then_run n n' es es' f e = rw (◌then_run◌, e) refl

joins-at_once :
    (c : Contact) (cs : List Contact) (n n' : Node) (es : List Effect)
    → servboot_min_nodi ≤ c.servboot_nodi.limit
    → c.servboot_nodi.limit ≤ length c.servboot_nodi.boot_neighbour
    → greet_peers c n ≡ go_on n' es
    → fanout ≤ get_number_neighbour n'.neighbours
    → bootstrap2_ciclic (c ∷ cs) n ≡ joined n'
unfolding bootstrap2_ciclic
joins-at_once c cs n n' es named size e enough =
    let asked : ltb c.servboot_nodi.limit servboot_min_nodi ≡ false = ground arith in
    let has : ltb (get_number_neighbour n'.neighbours) fanout ≡ false = ground arith in
    let inside : ltb (length c.servboot_nodi.boot_neighbour) c.servboot_nodi.limit ≡ false =
      ground (arith, size) in
    rw (bootstrap2_ciclic, asked, inside, e, has) refl

-- What the newcomer has when the peers that it has greeted have answered.
module _ (w : World) (rands : List ℕ) (b : BufferNodi) (qs : List Greeter)
    (partial : id_m_partial ≤ length w.id_msg_const) (ready : AllCanGreet (first_ping w) qs) where
  greet_peers-pongs :
      ((p : Peer) → 1 ≤ offered p (func_helper_servboot w.me rands b).1 → w.net p ≡ connected)
      → ((p : Peer) → answered p qs ≤ 1)
      → answered w.me qs ≡ 0
      → length qs ≤ server_nodi
      → (n : Node) × (es : List Effect) × (greet_peers (contact w rands b qs) init_node
          ≡ go_on n es)
        × ((p : Peer) → count_peer p n.neighbours ≡ answered p qs)
        × (get_number_neighbour n.neighbours ≡ length qs)
  unfolding greet_peers init_node my_gossip_ping
  greet_peers-pongs linked once other room =
      let msg = (func_helper_servboot w.me rands b).1 in
      let counted : Node = record init_node { count = (my_gossip_ping w 0).0 } in
      let (n1, es, e1, same) =
        ping_all-connected w (first_ping w) msg.limit msg.boot_neighbour counted linked in
      let (n2, e2, counts, number) =
        receive_all-pongs w qs n1 (subst (Distinct.Inv w.me) (sym same) (Distinct.init-Inv w.me))
          (λ p. omega (arith, once p, ap (count_peer p) same, Distinct.count_init p)) other
          (omega (arith, ap get_number_neighbour same, number_init)) in
      let pong =
        answers_eq w (first_ping w) qs refl refl refl
          (length-get_id_message w.id_msg_const 0 partial) ready in
      (
        n2,
        es ++ [],
        rw e1 (
            go_on-then_run n1 n2 es [] (receive_all (answers w (first_ping w) qs))
              (ap (λ ms. receive_all ms n1) pong ∙ e2)),
        (λ p. omega (arith, counts p, ap (count_peer p) same, Distinct.count_init p)),
        omega (arith, number, ap get_number_neighbour same, number_init),
      )

-- A newcomer asks the server, whose table is valid and holds eight to ten peers, it among them. It
-- can reach all peers that the server names. Seven to ten of these answer its ping, none more than
-- once: they can reach it, have valid buffers and have not seen the ping. Then it asks once and
-- enters the network, and its neighbours are exactly the peers that have answered.
pub bootstrap2_ciclic-joins :
    (w : World) (rands : List ℕ) (b : BufferNodi) (qs : List Greeter) (cs : List Contact)
    → id_m_partial ≤ length w.id_msg_const
    → BootLaws.IsValid b
    → fanout < (func_helper_servboot w.me rands b).0.limit
    → (func_helper_servboot w.me rands b).0.limit ≤ server_nodi
    → ((p : Peer) → 1 ≤ offered p (func_helper_servboot w.me rands b).1 → w.net p ≡ connected)
    → AllCanGreet (first_ping w) qs
    → ((p : Peer) → answered p qs ≤ offered p (func_helper_servboot w.me rands b).1)
    → fanout ≤ length qs
    → length qs ≤ server_nodi
    → (n : Node) × (bootstrap2_ciclic (contact w rands b qs ∷ cs) init_node ≡ joined n)
      × ((p : Peer) → count_peer p n.neighbours ≡ answered p qs)
      × (get_number_neighbour n.neighbours ≡ length qs)
bootstrap2_ciclic-joins w rands b qs cs partial v many few linked ready among enough room =
    let (once, other, size, inside) = named w.me rands b v few in
    let (n, es, e, counts, number) =
      greet_peers-pongs w rands b qs partial ready linked (λ p. omega (arith, among p, once p))
        (omega (arith, among w.me, other)) room in
    (
      n,
      joins-at_once (contact w rands b qs) cs init_node n es (omega (arith, size)) inside e
          (omega (arith, number)),
      counts,
      number,
    )
