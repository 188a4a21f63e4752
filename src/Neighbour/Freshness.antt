-- ===== src/Neighbour/Freshness.antt =====
-- At which age `insert_peer_gossipInf` keeps a peer: the news of a younger sighting is taken over,
-- that of an older one is not, and no known peer is lost.
use rounds.Base.{
  ℕ, ◌-◌, dec_lt, le→leb, lt→leb, ◌≡◌, ◌≢◌, ◌⊎◌, inl, inr, ◌≤◌, ◌<◌, refl, arith, some, Bool-cases,
  get_or, get_or-set_self, length,
}
use rounds.Peer.{Peer, same_peer, same_peer_iff}
use rounds.Neighbour.{
  Neighbour, BufferNeighbour, blank_list, find_peer, delete_cell, delete_at, push_cell, place,
  insert_gossip, first_room,
}
use rounds.Neighbour.Lists.{list_weight, list_weight-push_cell}
use rounds.Neighbour.Table.{
  IsValid, is_peer, find_peer-hit, find_peer-counted, first_room-hit, first_room-some, place-room,
  delete_at-IsValid,
}
use rounds.Neighbour.Distinct.{Inv, is_peer_cases, delete_at-Inv}

-- How often the list of one age holds the peer.
abbrev pub held_at : Peer → ℕ → BufferNeighbour → ℕ
held_at p i b = list_weight (is_peer p) (get_or b i blank_list)

is_peer_self : (c : Neighbour) → is_peer c.peer c ≡ 1
is_peer_self c = elim (is_peer_cases c.peer c) [
  | inl (_, one) ↦ one
  | inr (ne, _) ↦ absurd (ne refl)
]

-- What is placed stands at the age that was found.
held_at-place :
    (age : ℕ) (c : Neighbour) (b : BufferNeighbour) (i : ℕ)
    → IsValid b
    → first_room age b ≡ some i
    → 1 ≤ held_at c.peer i (place age c b)
held_at-place age c b i v e =
    let (le, lt, room) = first_room-hit age b i e in
    rw (place-room age c b i e) (
      rw (get_or-set_self b i (push_cell c (get_or b i blank_list)) blank_list lt) (
        omega (
          arith,
          list_weight-push_cell c (get_or b i blank_list) (v.lists i) room (is_peer c.peer),
          is_peer_self c,
        )))

limit-delete_at :
    (b : BufferNeighbour) (i j : ℕ)
    → i < length b
    → (get_or (delete_at i j b) i blank_list).limit ≡ (get_or b i blank_list).limit - 1
unfolding delete_at delete_cell
limit-delete_at b i j h =
    rw (get_or-set_self b i (delete_cell j (get_or b i blank_list)) blank_list h)

insert_gossip-moves :
    (me : Peer) (age : ℕ) (c : Neighbour) (b : BufferNeighbour) (i j : ℕ)
    → me ≢ c.peer
    → find_peer c.peer b ≡ some (i, j)
    → age < i
    → insert_gossip me age c b ≡ place age c (delete_at i j b)
unfolding insert_gossip
insert_gossip-moves me age c b i j ne hit older = elim (Bool-cases (same_peer me c.peer)) [
  | inl same ↦ absurd (ne ((same_peer_iff me c.peer).0 same))
  | inr other ↦ rw (other, hit, insert_gossip) (rw (lt→leb i age older))
]

insert_gossip-known :
    (me : Peer) (age : ℕ) (c : Neighbour) (b : BufferNeighbour) (i j : ℕ)
    → find_peer c.peer b ≡ some (i, j)
    → i ≤ age
    → insert_gossip me age c b ≡ b
unfolding insert_gossip
insert_gossip-known me age c b i j hit le = elim (Bool-cases (same_peer me c.peer)) [
  | inl same ↦ rw same
  | inr other ↦ rw (other, hit, insert_gossip) (rw (le→leb i age le))
]

-- The list from which the peer was removed has room, so the search for room ends there at the latest.
delete_at-has_room :
    (age : ℕ) (b : BufferNeighbour) (i j : ℕ)
    → IsValid b
    → age ≤ i
    → i < length b
    → j < (get_or b i blank_list).limit
    → (k : ℕ) × (first_room age (delete_at i j b) ≡ some k) × (k ≤ i)
delete_at-has_room age b i j v le hi hj =
    first_room-some age (delete_at i j b) i le
      (omega (arith, (delete_at-IsValid b v i j (omega (arith, v.ages)) hj).ages, v.ages))
      (omega (arith, limit-delete_at b i j hi, (v.lists i).bounded))

-- From a buffer with the invariant, `insert_peer_gossipInf` of a peer that the buffer knows at
-- age `i`: news of the same or a higher age changes nothing; with news of a lower age the peer is
-- still held afterwards, at an age from that of the news up to `i`, whatever lists are full.
pub insert_gossip-age :
    (me : Peer) (age : ℕ) (c : Neighbour) (b : BufferNeighbour) (i j : ℕ)
    → Inv me b
    → find_peer c.peer b ≡ some (i, j)
    → ((i ≤ age) × (insert_gossip me age c b ≡ b))
      ⊎ ((age < i)
          × ((k : ℕ) × (age ≤ k) × (k ≤ i) × (1 ≤ held_at c.peer k (insert_gossip me age c b))))
insert_gossip-age me age c b i j v hit = elim (dec_lt age i) [
  | no known ↦ inl (omega arith, insert_gossip-known me age c b i j hit (omega arith))
  | yes older ↦
      let (hi, hj, same) = find_peer-hit c.peer b i j hit in
      let (k, room, le) = delete_at-has_room age b i j v.valid (omega arith) hi hj in
      let ne : me ≢ c.peer = λ e.
        absurd (omega (arith, rw (← e) at (find_peer-counted c.peer b i j v.valid hit), v.own)) in
      inr (
        older,
        (
          k,
          (first_room-hit age (delete_at i j b) k room).0,
          le,
          rw (insert_gossip-moves me age c b i j ne hit older) (
              held_at-place age c (delete_at i j b) k (delete_at-Inv b c.peer i j v hit).valid
                room),
        ),
      )
]
