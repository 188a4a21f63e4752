-- ===== src/Tests/Gossips.antt =====
-- The information gossips and a round of gossip at concrete inputs.
use rounds.Base.{
  ℕ, zero, suc, ◌+◌, ◌≡◌, ◌≤◌, ◌<◌, ◌⊎◌, inl, inr, refl, ap, arith, some, [], ◌∷◌, ◌++◌, get_or,
  take, ◌==◌, if◌then◌else◌, find_first, sum_of, Bool-cases,
}
use rounds.Params.{fanout, gossip_nodi}
use rounds.Peer.{Peer}
use rounds.Neighbour.{
  BufferNeighbour, blank_list, init_buffer_neighbour, find_peer, insert_peer, age_plus_one,
  get_number_neighbour, place, first_room, push_cell, shift_ages, reset_list,
}
use rounds.Neighbour.Lists.{list_weight}
use rounds.Neighbour.Table.{is_peer}
use rounds.Neighbour.Distinct.{Inv, init-Inv, insert_peer-Inv}
use rounds.Neighbour.Aging.{age_plus_one_lem}
use rounds.MyFiles.{BufferFile}
use rounds.Inform.{func_helper_inf}
use rounds.Random.{init_x}
use rounds.Fanout.{reset_buffer_fanout, new_fanout}
use rounds.Fanout.Laws.{reset-FanoutIsValid, new_fanout-FanoutIsValid}
use rounds.Gossip.{blank_inf, choose_inf, new_gossip_inf2, reset_buffer_rg, new_buffer_rg}
use rounds.Gossip.Copies.{told, new_gossip_inf2-few}
use rounds.Gossip.Stray.{IsStray, new_gossip_inf2-many}
use rounds.Gossip.Received.{new_gossip_inf2-received}
use rounds.Gossip.Starving.{young, choose_inf-starves}
use rounds.Handlers.{connected}
use rounds.RoundGossip.{msg, RoundWorld, RoundState, goes, tell_all, process_rg}
use rounds.RoundGossip.Arrivals.{RoundInv, OnStage, ArrivalsFit, none_told}
use rounds.RoundGossip.Sending.{reset_buffer_rg-RgFits, new_buffer_rg-RgFits, due, tell_all_lem}
use rounds.RoundGossip.Invariant.{process_rg-RoundInv}
use rounds.Tests.{me, anna, bruno, cell, anna_leaves}
use rounds.Tests.Neighbours.{one_known, one_known-Inv, one_older, one_older-Inv, crowd, crowd-Inv}
use rounds.Tests.Messages.{world, quiet, quiet-Inv}

abbrev no_files : BufferFile
no_files = record { index = 0; file = [] }

few_known : get_number_neighbour one_older ≤ gossip_nodi
unfolding get_number_neighbour age_plus_one insert_peer init_buffer_neighbour find_peer place
    first_room push_cell shift_ages reset_list find_first
few_known = omega arith

new_gossip_inf2-few_example :
    told anna 1 (new_gossip_inf2 me no_files 0 init_x [] one_older)
    ≡ list_weight (is_peer anna) (get_or one_older 1 blank_list)
new_gossip_inf2-few_example =
    new_gossip_inf2-few me no_files 0 init_x [] one_older one_older-Inv.valid few_known anna 1
      (λ e. absurd (omega (arith, ap (λ (p : Peer). p.port) e)))

many_known : gossip_nodi < get_number_neighbour (crowd 12)
unfolding get_number_neighbour insert_peer init_buffer_neighbour find_peer place first_room
    push_cell find_first
many_known = omega arith

new_gossip_inf2-many_example :
    let e =
      get_or
        (new_gossip_inf2 me no_files 9 init_x (5 ∷ 1_000_000_000 ∷ []) (crowd 12)).list_neighbour
        0
        blank_inf in
    (e ≡ blank_inf) ⊎ IsStray (crowd 12) 0 e
new_gossip_inf2-many_example =
    new_gossip_inf2-many me no_files 9 init_x (5 ∷ 1_000_000_000 ∷ []) (crowd 12) many_known
      (omega arith, (omega arith, tt)) 0

new_gossip_inf2-received_example :
    (b' : BufferNeighbour) × (func_helper_inf bruno
        (new_gossip_inf2 me no_files 0 init_x [] one_older)
        init_buffer_neighbour
      ≡ some b')
    × Inv bruno b'
new_gossip_inf2-received_example =
    new_gossip_inf2-received me bruno no_files 0 init_x [] one_older init_buffer_neighbour
      one_older-Inv.valid (init-Inv bruno)

-- Seven peers of the last age and four of the one before.
older : ℕ → BufferNeighbour → BufferNeighbour
older zero b = b
older (suc n) b = age_plus_one (older n b)

older-Inv : (n : ℕ) (b : BufferNeighbour) → Inv me b → Inv me (older n b)
unfolding older
older-Inv zero b v = v
older-Inv (suc n) b v = (age_plus_one_lem me (older n b) (older-Inv n b v)).0

abbrev newer : ℕ → BufferNeighbour → BufferNeighbour
newer zero b = b
newer (suc n) b = insert_peer me (cell (record { port = n + 2; ip = 8 })) (newer n b)

newer-Inv : (n : ℕ) (b : BufferNeighbour) → Inv me b → Inv me (newer n b)
newer-Inv zero b v = v
newer-Inv (suc n) b v =
    insert_peer-Inv me (cell (record { port = n + 2; ip = 8 })) (newer n b) (newer-Inv n b v)

abbrev old_crowd : BufferNeighbour
old_crowd = older 5 (newer 4 (older 1 (crowd 7)))

old_crowd-Inv : Inv me old_crowd
old_crowd-Inv = older-Inv 5 _ (newer-Inv 4 _ (older-Inv 1 _ (crowd-Inv 7)))

old_crowd_sizes : (gossip_nodi < get_number_neighbour old_crowd) × (young old_crowd ≤ 5)
unfolding older get_number_neighbour age_plus_one insert_peer init_buffer_neighbour find_peer place
    first_room push_cell shift_ages reset_list find_first sum_of
old_crowd_sizes = omega arith

choose_inf-starves_example : (choose_inf 9 init_x (5 ∷ 1_000_000_000 ∷ []) old_crowd).limit < fanout
choose_inf-starves_example =
    choose_inf-starves 9 init_x (5 ∷ 1_000_000_000 ∷ []) old_crowd old_crowd-Inv.valid
      old_crowd_sizes.0 old_crowd_sizes.1

-- Anna leaves while the round waits.
abbrev round_world : RoundWorld
round_world = record {
  me = me;
  files = no_files;
  net = λ p. connected;
  ntohs = λ n. n;
  htons = λ n. n;
  x = init_x;
  fanout_rands = [];
  draws = λ n. record { turns = 0; rands = [] };
  now = 100;
  exit_rg = λ n. n == 8;
  arrive = λ n. if n == 4 then msg world anna_leaves ∷ [] else [];
}

arrive-Fits : (n : ℕ) → ArrivalsFit me (round_world.arrive n)
arrive-Fits n = elim (Bool-cases (n == 4)) [
  | inl leaves ↦ rw leaves ((refl, omega arith, refl), tt)
  | inr other ↦ rw other tt
]

abbrev at_start : RoundState
at_start = record {
  node = quiet;
  fanout = reset_buffer_fanout;
  rg = reset_buffer_rg;
  sent = [];
  told = [];
}

process_rg-RoundInv_example : OnStage (RoundInv me) (process_rg round_world at_start)
process_rg-RoundInv_example = process_rg-RoundInv round_world at_start arrive-Fits (record {
  node = quiet-Inv;
  fanout = reset-FanoutIsValid;
  rg = reset_buffer_rg-RgFits;
  told = none_told;
})

-- The fanout has been chosen and the gossips are composed.
abbrev composed : RoundState
composed = record {
  node = quiet;
  fanout = new_fanout init_x [] one_known;
  rg = new_buffer_rg me no_files init_x one_known 1 round_world.draws;
  sent = [];
  told = [];
}

tell_all_example :
    tell_all round_world composed.fanout.limit 0 composed
    ≡ goes (record composed {
      told =
          []
          ++ due round_world quiet.bye_peers
              (take composed.fanout.limit composed.fanout.nodi)
              (take composed.fanout.limit composed.rg.list_inf);
    })
tell_all_example =
    tell_all_lem round_world composed (λ p. refl)
      (record {
        node = quiet-Inv;
        fanout = new_fanout-FanoutIsValid me init_x [] one_known one_known-Inv;
        rg =
            new_buffer_rg-RgFits me no_files init_x one_known 1 round_world.draws
              one_known-Inv.valid;
        told = none_told;
      })
