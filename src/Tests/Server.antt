-- ===== src/Tests/Server.antt =====
-- A newcomer that enters a network of seven peers.
use rounds.Base.{
  ℕ, zero, suc, ◌+◌, ◌≡◌, ◌≤◌, refl, ap, arith, List, [], ◌∷◌, replicate, length, get_or, sum_of,
  find_first,
}
use rounds.Peer.{Peer}
use rounds.Neighbour.{get_number_neighbour}
use rounds.Neighbour.Table.{count_peer}
use rounds.MessageLog.Laws as LogLaws
use rounds.Handlers.{World, Node}
use rounds.OwnMessages.{my_gossip_ping}
use rounds.OwnMessages.Laws.{length-get_id_message}
use rounds.BootServer.{
  BufferNodi, init_buffer_nodi, func_helper_servboot, search_nodo, iscrizione, set_gserver_nodi,
  copy_others,
}
use rounds.BootServer.Laws as BootLaws
use rounds.BootServer.Answers.{offered}
use rounds.Ident.{get_id_message}
use rounds.Bootstrap.{init_node, joined, bootstrap2_ciclic}
use rounds.Bootstrap.Joining.{init_node-NodeInv}
use rounds.Bootstrap.Greeting.{Greeter, AllCanGreet, answered}
use rounds.Bootstrap.Success.{first_ping, contact, bootstrap2_ciclic-joins}
use rounds.Tests.Messages.{world}

abbrev newcomer : World
newcomer = record world { id_msg_const = replicate 12 4 }

abbrev peer_of : ℕ → Peer
peer_of n = record { port = n + 20; ip = 7 }

-- The table of the server when the peers have enrolled one after the other, and these peers.
abbrev table : ℕ → BufferNodi
table zero = init_buffer_nodi
table (suc n) = (func_helper_servboot (peer_of n) [] (table n)).0

table-IsValid : (n : ℕ) → BootLaws.IsValid (table n)
table-IsValid zero = BootLaws.init-IsValid
table-IsValid (suc n) =
    BootLaws.func_helper_servboot-IsValid (peer_of n) [] (table n) (table-IsValid n)

abbrev greeters : ℕ → List Greeter
greeters zero = []
greeters (suc n) = (record newcomer { me = peer_of n }, init_node) ∷ greeters n

first_byte : get_or (first_ping newcomer).id 0 0 ≡ 4
unfolding my_gossip_ping get_id_message
first_byte = refl

unseen : LogLaws.count_id (first_ping newcomer).id init_node.messages ≡ 0
unfolding my_gossip_ping init_node
unseen =
    LogLaws.count_id-init (first_ping newcomer).id
      (length-get_id_message newcomer.id_msg_const 0 (omega arith))
      (λ e. absurd (omega (arith, ap (λ (l : List ℕ). get_or l 0 0) e, first_byte)))

greeters-AllCanGreet : (n : ℕ) → AllCanGreet (first_ping newcomer) (greeters n)
greeters-AllCanGreet zero = tt
greeters-AllCanGreet (suc n) = (
  record { pos = omega arith; valid = init_node-NodeInv (peer_of n); new = unseen; linked = refl },
  greeters-AllCanGreet n,
)

abbrev entered : BufferNodi
entered = (func_helper_servboot newcomer.me [] (table 7)).0

size : entered.limit ≡ 8
unfolding func_helper_servboot search_nodo iscrizione find_first
size = refl

all_named :
    (p : Peer)
    → answered p (greeters 7) ≤ offered p (func_helper_servboot newcomer.me [] (table 7)).1
unfolding func_helper_servboot search_nodo iscrizione find_first set_gserver_nodi copy_others sum_of
all_named p = omega arith

bootstrap2_ciclic-joins_example :
    (n : Node) × (bootstrap2_ciclic (contact newcomer [] (table 7) (greeters 7) ∷ []) init_node
      ≡ joined n)
    × ((p : Peer) → count_peer p n.neighbours ≡ answered p (greeters 7))
    × (get_number_neighbour n.neighbours ≡ length (greeters 7))
bootstrap2_ciclic-joins_example =
    bootstrap2_ciclic-joins newcomer [] (table 7) (greeters 7) [] (omega arith) (table-IsValid 7)
      (omega (arith, size)) (omega (arith, size)) (λ p h. refl) (greeters-AllCanGreet 7) all_named
      (omega arith) (omega arith)
