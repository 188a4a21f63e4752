-- ===== src/Neighbour/Distinct.antt =====
-- No peer stands twice in the neighbour buffer, and the peer itself never does: what
-- `search_peer_buffer_neighbour`, the removal and the three insertions do to the peers held.
use rounds.Base.{
  ℕ, ◌≡◌, ◌≢◌, ◌⊎◌, inl, inr, ◌≤◌, ◌<◌, refl, sym, ◌∙◌, ap, arith, sum_of, true, false, none, some,
  Option-cases, Bool-cases, leb,
}
use rounds.Params.{max_age}
use rounds.Peer.{Peer, same_peer, same_peer_iff}
use rounds.Neighbour.{
  Neighbour, BufferNeighbour, find_peer, search_peer, delete_at, delete_peer, place, insert_peer,
  insert_sorgente, insert_gossip, init_buffer_neighbour,
}
use rounds.Neighbour.Table.{
  IsValid, init_buffer_neighbour-IsValid, is_peer, count_peer, cell_at, find_peer-hit,
  find_peer-miss, find_peer-counted, total-delete_at, delete_at-IsValid, total-place-le,
  place-IsValid,
}

-- The invariant of the buffer of the peer `me`.
pub record Inv (me : Peer) (b : BufferNeighbour) : Type 0 where
  pub valid : IsValid b
  pub distinct : (p : Peer) → count_peer p b ≤ 1
  pub own : count_peer me b ≡ 0

pub is_peer_cases :
    (p : Peer) (c : Neighbour)
    → ((p ≡ c.peer) × (is_peer p c ≡ 1)) ⊎ ((p ≢ c.peer) × (is_peer p c ≡ 0))
is_peer_cases p c = elim (Bool-cases (same_peer p c.peer)) [
  | inl same ↦ inl ((same_peer_iff p c.peer).0 same, ap (λ t. is_peer p c) same ∙ rw same)
  | inr other ↦ inr ((λ e. cc (other, (same_peer_iff p c.peer).1 e)), rw other)
]

pub count_init : (p : Peer) → count_peer p init_buffer_neighbour ≡ 0
unfolding init_buffer_neighbour sum_of
count_init p = refl

-- A peer found at `(i, j)` is dropped once by the removal, and no other peer is touched.
pub count-delete_at :
    {me : Peer} (b : BufferNeighbour) (p q : Peer) (i j : ℕ)
    → Inv me b
    → find_peer p b ≡ some (i, j)
    → ((q ≡ p) × (count_peer q (delete_at i j b) ≡ 0))
      ⊎ ((q ≢ p) × (count_peer q (delete_at i j b) ≡ count_peer q b))
count-delete_at b p q i j v e =
    let (hi, hj, same) = find_peer-hit p b i j e in
    let dropped = total-delete_at b v.valid i j (omega (arith, v.valid.ages)) hj (is_peer q) in
    elim (is_peer_cases q (cell_at b i j)) [
      | inl (eq, one) ↦ inl (eq ∙ same, omega (arith, dropped, one, v.distinct q))
      | inr (ne, none_there) ↦ inr ((λ eq. ne (eq ∙ sym same)), omega (arith, dropped, none_there))
    ]

pub count-delete_at_self :
    {me : Peer} (b : BufferNeighbour) (p : Peer) (i j : ℕ)
    → Inv me b
    → find_peer p b ≡ some (i, j)
    → count_peer p (delete_at i j b) ≡ 0
count-delete_at_self b p i j v hit = elim (count-delete_at b p p i j v hit) [
  | inl (_, gone) ↦ gone
  | inr (ne, _) ↦ absurd (ne refl)
]

pub count-delete_at_ne :
    {me : Peer} (b : BufferNeighbour) (p q : Peer) (i j : ℕ)
    → Inv me b
    → find_peer p b ≡ some (i, j)
    → q ≢ p
    → count_peer q (delete_at i j b) ≡ count_peer q b
count-delete_at_ne b p q i j v hit ne = elim (count-delete_at b p q i j v hit) [
  | inl (eq, _) ↦ absurd (ne eq)
  | inr (_, kept) ↦ kept
]

pub delete_at-Inv :
    {me : Peer} (b : BufferNeighbour) (p : Peer) (i j : ℕ)
    → Inv me b
    → find_peer p b ≡ some (i, j)
    → Inv me (delete_at i j b)
delete_at-Inv {me} b p i j v e = record {
  valid =
      let (hi, hj, same) = find_peer-hit p b i j e in
      delete_at-IsValid b v.valid i j (omega (arith, v.valid.ages)) hj;
  distinct = λ q. omega (arith, count-delete_at b p q i j v e, v.distinct q);
  own = omega (arith, count-delete_at b p me i j v e, v.own);
}

-- A peer that the buffer does not hold, and that is not the peer itself, is placed once.
place-Inv :
    {me : Peer} (age : ℕ) (c : Neighbour) (b : BufferNeighbour)
    → Inv me b
    → me ≢ c.peer
    → count_peer c.peer b ≡ 0
    → Inv me (place age c b)
place-Inv {me} age c b v ne new = record {
  valid = place-IsValid b v.valid age c;
  distinct = λ q. elim (is_peer_cases q c) [
    | inl (eq, one) ↦
        omega (arith, total-place-le b v.valid age c (is_peer q), one, rw (← eq) at new)
    | inr (_, no_more) ↦
        omega (arith, total-place-le b v.valid age c (is_peer q), no_more, v.distinct q)
  ];
  own = elim (is_peer_cases me c) [
    | inl (eq, _) ↦ absurd (ne eq)
    | inr (_, no_more) ↦ omega (arith, total-place-le b v.valid age c (is_peer me), no_more, v.own)
  ];
}

pub init-Inv : (me : Peer) → Inv me init_buffer_neighbour
init-Inv me = record {
  valid = init_buffer_neighbour-IsValid;
  distinct = λ p. omega (arith, count_init p);
  own = count_init me;
}

-- For a valid buffer, `search_peer_buffer_neighbour` answers 1 when the buffer holds the peer and
-- 0 when it does not.
pub search_peer_iff :
    (b : BufferNeighbour) (p : Peer)
    → IsValid b
    → ((search_peer b p ≡ true) × (1 ≤ count_peer p b))
      ⊎ ((search_peer b p ≡ false) × (count_peer p b ≡ 0))
unfolding search_peer
search_peer_iff b p v = elim (Option-cases (find_peer p b)) [
  | inl miss ↦ inr (rw (miss, search_peer), find_peer-miss p max_age b miss)
  | inr ((i, j), hit) ↦ inl (rw (hit, search_peer), find_peer-counted p b i j v hit)
]

search-absent :
    (b : BufferNeighbour) (p : Peer) → IsValid b → count_peer p b ≡ 0 → search_peer b p ≡ false
search-absent b p v e = elim (search_peer_iff b p v) [
  | inl (_, held) ↦ absurd (omega arith)
  | inr (no_hit, _) ↦ no_hit
]

-- From a buffer with the invariant, `delete_peer_buffer_neighbour` takes the peer out, so that a
-- search for it fails, keeps the count of every other peer, and keeps the invariant.
pub delete_peer_lem :
    (me p : Peer) (b : BufferNeighbour)
    → Inv me b
    → Inv me (delete_peer b p)
      × (search_peer (delete_peer b p) p ≡ false)
      × ((q : Peer) → q ≢ p → count_peer q (delete_peer b p) ≡ count_peer q b)
unfolding delete_peer
delete_peer_lem me p b v = elim (Option-cases (find_peer p b)) [
  | inl miss ↦
      rw (miss, delete_peer)
        (v, search-absent b p v.valid (find_peer-miss p max_age b miss), λ q ne. refl)
  | inr ((i, j), hit) ↦
      rw (hit, delete_peer)
        (
          delete_at-Inv b p i j v hit,
          search-absent (delete_at i j b) p (delete_at-Inv b p i j v hit).valid
              (count-delete_at_self b p i j v hit),
          λ q ne. count-delete_at_ne b p q i j v hit ne,
        )
]

-- The branches of `insert_peer_gossipInf`: the peer is `me`, or known at this age or a lower one; it
-- is new; it is known at a higher age.
pub insert_gossip_cases :
    (me : Peer) (age : ℕ) (c : Neighbour) (b : BufferNeighbour)
    → (insert_gossip me age c b ≡ b)
      ⊎ ((me ≢ c.peer)
          × (((find_peer c.peer b ≡ none) × (insert_gossip me age c b ≡ place age c b))
              ⊎ ((i : ℕ) × (j : ℕ) × (find_peer c.peer b ≡ some (i, j))
                  × (age < i)
                  × (insert_gossip me age c b ≡ place age c (delete_at i j b)))))
unfolding insert_gossip
insert_gossip_cases me age c b = elim (Bool-cases (same_peer me c.peer)) [
  | inl same ↦ inl (rw same)
  | inr other ↦ elim (Option-cases (find_peer c.peer b)) [
    | inl miss ↦ inr (ne other, inl (miss, rw (other, miss, insert_gossip)))
    | inr ((i, j), hit) ↦ elim (Bool-cases (leb i age)) [
      | inl known ↦ inl (rw (other, hit, insert_gossip) (rw known))
      | inr older ↦
          inr (ne other, inr (i, j, hit, ground arith, rw (other, hit, insert_gossip) (rw older)))
    ]
  ]
]
  where
    ne : same_peer me c.peer ≡ false → me ≢ c.peer
    ne other e = cc (other, (same_peer_iff me c.peer).1 e)

-- `insert_peer_gossipInf` keeps the invariant, at every age: the lists are within their bounds,
-- no peer is held twice, and the own peer is not held.
pub insert_gossip-Inv :
    (me : Peer) (age : ℕ) (c : Neighbour) (b : BufferNeighbour)
    → Inv me b
    → Inv me (insert_gossip me age c b)
insert_gossip-Inv me age c b v = elim (insert_gossip_cases me age c b) [
  | inl kept ↦ rw kept v
  | inr (ne, inl (new, e)) ↦ rw e (place-Inv age c b v ne (find_peer-miss c.peer max_age b new))
  | inr (ne, inr (i, j, hit, older, e)) ↦ rw e (
      place-Inv age c (delete_at i j b) (delete_at-Inv b c.peer i j v hit) ne
        (count-delete_at_self b c.peer i j v hit))
]

-- The insertion of the sender of a gossip is the insertion of a peer of age 0.
pub insert_sorgente-eq-insert_gossip :
    (me : Peer) (c : Neighbour) (b : BufferNeighbour)
    → insert_sorgente me c b ≡ insert_gossip me 0 c b
unfolding insert_sorgente insert_gossip
insert_sorgente-eq-insert_gossip me c b = ground arith

-- `insert_peer_BNeighbour` keeps the invariant: the lists are within their bounds, no peer is
-- held twice, and the own peer is not held.
pub insert_peer-Inv :
    (me : Peer) (c : Neighbour) (b : BufferNeighbour) → Inv me b → Inv me (insert_peer me c b)
unfolding insert_peer
insert_peer-Inv me c b v = elim (Bool-cases (same_peer me c.peer)) [
  | inl same ↦ rw same v
  | inr other ↦ elim (Option-cases (find_peer c.peer b)) [
    | inl miss ↦
        rw (other, miss, insert_peer)
          (place-Inv 0 c b v (λ e. cc (other, (same_peer_iff me c.peer).1 e))
            (find_peer-miss c.peer max_age b miss))
    | inr ((i, j), hit) ↦ rw (other, hit, insert_peer) v
  ]
]
