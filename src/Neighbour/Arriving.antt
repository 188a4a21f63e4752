-- ===== src/Neighbour/Arriving.antt =====
-- A new peer enters the neighbour buffer: `insert_peer_BNeighbour` of two_rounds/func_strutture.c.
use rounds.Base.{
  ◌+◌, ◌*◌, ◌≡◌, ◌≢◌, ◌≤◌, ◌<◌, inl, inr, refl, arith, none, [], ◌∷◌, length, Option-cases,
  Bool-cases,
}
use rounds.Params.{max_age}
use rounds.Peer.{Peer, same_peer, same_peer_iff}
use rounds.Neighbour.{
  Neighbour, BufferNeighbour, find_peer, first_room, place, insert_peer, get_number_neighbour,
  init_buffer_neighbour,
}
use rounds.Neighbour.Table.{is_peer, count_peer, find_peer-counted, total-place, place-IsValid}
use rounds.Neighbour.Distinct.{Inv}
use rounds.Neighbour.Aging.{get_number_neighbour_lem}

pub number_init : get_number_neighbour init_buffer_neighbour ≡ 0
unfolding get_number_neighbour init_buffer_neighbour
number_init = refl

-- Where no age has room, each holds seven peers at least.
no_room :
    (b : BufferNeighbour) → first_room 0 b ≡ none → max_age * length b ≤ get_number_neighbour b
unfolding first_room get_number_neighbour
no_room [] e = omega arith
no_room (l ∷ b) e = ground (arith, no_room b)

-- A peer that is neither held nor the own one is held afterwards, when fewer than 49 are.
pub insert_peer-new :
    (me : Peer) (c : Neighbour) (b : BufferNeighbour)
    → Inv me b
    → me ≢ c.peer
    → count_peer c.peer b ≡ 0
    → get_number_neighbour b < max_age * max_age
    → ((p : Peer) → count_peer p (insert_peer me c b) ≡ count_peer p b + is_peer p c)
      × (get_number_neighbour (insert_peer me c b) ≡ get_number_neighbour b + 1)
unfolding insert_peer
insert_peer-new me c b v ne new few = elim (Bool-cases (same_peer me c.peer)) [
  | inl same ↦ absurd (ne ((same_peer_iff me c.peer).0 same))
  | inr other ↦ elim (Option-cases (find_peer c.peer b)) [
    | inr ((i, j), hit) ↦ absurd (omega (arith, find_peer-counted c.peer b i j v.valid hit))
    | inl miss ↦ elim (Option-cases (first_room 0 b)) [
      | inl full ↦ absurd (omega (arith, no_room b full, v.valid.ages))
      | inr (i, room) ↦
          rw (other, miss, insert_peer)
            (
              (λ p. total-place b v.valid 0 c i room (is_peer p)),
              omega (
                arith,
                total-place b v.valid 0 c i room (λ _. 1),
                get_number_neighbour_lem b v.valid,
                get_number_neighbour_lem (place 0 c b) (place-IsValid b v.valid 0 c),
              ),
            )
    ]
  ]
]
