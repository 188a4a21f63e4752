-- ===== src/Tests/Neighbours.antt =====
-- The neighbour buffer, the information gossip and the fanout at concrete inputs.
use rounds.Base.{
  ℕ, zero, suc, ◌+◌, ◌≡◌, ◌≢◌, ◌≤◌, ◌<◌, ◌⊎◌, refl, arith, false, some, [], ◌∷◌, get_or, find_first,
}
use rounds.Peer.{Peer}
use rounds.Params.{fanout}
use rounds.Neighbour.{
  Neighbour, BufferNeighbour, blank_list, init_buffer_neighbour, find_peer, search_peer,
  delete_peer, insert_peer, insert_gossip, age_plus_one, get_number_neighbour, place, first_room,
  push_cell, shift_ages, reset_list,
}
use rounds.Neighbour.Lists.{list_weight}
use rounds.Neighbour.Table.{count_peer, total}
use rounds.Neighbour.Distinct.{Inv, init-Inv, delete_peer_lem, insert_gossip-Inv, insert_peer-Inv}
use rounds.Neighbour.Freshness.{insert_gossip-age, held_at}
use rounds.Neighbour.Aging.{age_plus_one_lem}
use rounds.Inform.{GossipInformations}
use rounds.Inform.Laws.{AgesFit}
use rounds.Random.{init_x}
use rounds.Fanout.{new_fanout}
use rounds.Fanout.Laws.{FanoutIsValid, new_fanout-FanoutIsValid}
use rounds.Tests.{me, anna, bruno, cell}

-- Anna came with a ping, and one round went by.
abbrev pub one_known : BufferNeighbour
one_known = insert_peer me (cell anna) init_buffer_neighbour

pub one_known-Inv : Inv me one_known
one_known-Inv = insert_peer-Inv me (cell anna) init_buffer_neighbour (init-Inv me)

abbrev pub one_older : BufferNeighbour
one_older = age_plus_one one_known

pub one_older-Inv : Inv me one_older
one_older-Inv = (age_plus_one_lem me one_known one_known-Inv).0

anna_at : find_peer anna one_older ≡ some (1, 0)
unfolding age_plus_one insert_peer init_buffer_neighbour find_peer place first_room push_cell
    shift_ages reset_list find_first
anna_at = refl

few_known : get_number_neighbour one_older ≤ fanout
unfolding get_number_neighbour age_plus_one insert_peer init_buffer_neighbour find_peer place
    first_room push_cell shift_ages reset_list find_first
few_known = omega arith

-- Peers with the ports from 2 on, more than a fanout holds when there are 8.
abbrev pub crowd : ℕ → BufferNeighbour
crowd zero = init_buffer_neighbour
crowd (suc n) = insert_peer me (cell (record { port = n + 2; ip = 7 })) (crowd n)

pub crowd-Inv : (n : ℕ) → Inv me (crowd n)
crowd-Inv zero = init-Inv me
crowd-Inv (suc n) =
    insert_peer-Inv me (cell (record { port = n + 2; ip = 7 })) (crowd n) (crowd-Inv n)

insert_gossip-Inv_example : Inv me (insert_gossip me 0 (cell anna) one_older)
insert_gossip-Inv_example = insert_gossip-Inv me 0 (cell anna) one_older one_older-Inv

delete_peer_example :
    Inv me (delete_peer one_known anna)
    × (search_peer (delete_peer one_known anna) anna ≡ false)
    × ((q : Peer) → q ≢ anna → count_peer q (delete_peer one_known anna) ≡ count_peer q one_known)
delete_peer_example = delete_peer_lem me anna one_known one_known-Inv

insert_gossip-age_example :
    ((1 ≤ 0) × (insert_gossip me 0 (cell anna) one_older ≡ one_older))
    ⊎ ((0 < 1)
        × ((k : ℕ) × (0 ≤ k)
            × (k ≤ 1)
            × (1 ≤ held_at anna k (insert_gossip me 0 (cell anna) one_older))))
insert_gossip-age_example = insert_gossip-age me 0 (cell anna) one_older 1 0 one_older-Inv anna_at

age_plus_one_example :
    Inv me (age_plus_one one_older)
    × (get_or (age_plus_one one_older) 0 blank_list ≡ blank_list)
    × ((i : ℕ)
        → i < 6
        → get_or (age_plus_one one_older) (suc i) blank_list ≡ get_or one_older i blank_list)
    × ((f : Neighbour → ℕ)
        → total f (age_plus_one one_older) + list_weight f (get_or one_older 6 blank_list)
          ≡ total f one_older)
age_plus_one_example = age_plus_one_lem me one_older one_older-Inv

abbrev news : GossipInformations
news = record {
  sender = cell bruno;
  list_neighbour =
      record { neighbour = cell anna; age = 0 } ∷ record { neighbour = cell me; age = 3 } ∷ [];
}

news-AgesFit : AgesFit news.list_neighbour
news-AgesFit zero h = omega arith
news-AgesFit (suc zero) h = omega arith
news-AgesFit (suc (suc i)) h = absurd (omega arith)

new_fanout-FanoutIsValid_example :
    FanoutIsValid (new_fanout init_x (5 ∷ 1_000_000_000 ∷ []) (crowd 8))
new_fanout-FanoutIsValid_example =
    new_fanout-FanoutIsValid me init_x (5 ∷ 1_000_000_000 ∷ []) (crowd 8) (crowd-Inv 8)
