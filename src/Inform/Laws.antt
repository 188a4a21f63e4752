-- ===== src/Inform/Laws.antt =====
-- What a peer learns leaves its neighbour buffer valid.
use rounds.Base.{
  ℕ, zero, suc, ◌≡◌, ◌<◌, refl, arith, some, List, [], ◌∷◌, length, get_or, Bool-cases, inl, inr,
  lt→ltb,
}
use rounds.Params.{gossip_nodi}
use rounds.Peer.{Peer, same_peer, nobody}
use rounds.Wire.{next_char}
use rounds.Neighbour.{BufferNeighbour, insert_sorgente, insert_gossip, blank_cell}
use rounds.Neighbour.Distinct.{Inv, insert_gossip-Inv, insert_sorgente-eq-insert_gossip}
use rounds.Inform.{NeighbourInf, GossipInformations, learn, func_helper_inf}

-- No entry has an age that is negative after the increment: 127, or negative but for -1.
abbrev pub AgesFit : List NeighbourInf → Type 0
AgesFit es =
    (i : ℕ)
    → i < length es
    → next_char (get_or es i (record { neighbour = blank_cell; age = 0 })).age < 128

learn-Inv :
    (me : Peer) (n : ℕ) (es : List NeighbourInf) (b : BufferNeighbour)
    → AgesFit es
    → Inv me b
    → (b' : BufferNeighbour) × (learn me n es b ≡ some b') × Inv me b'
unfolding learn
learn-Inv me zero es b h v = (b, refl, v)
learn-Inv me (suc n) [] b h v = (b, refl, v)
learn-Inv me (suc n) (e ∷ es) b h v = elim (Bool-cases (same_peer e.neighbour.peer nobody)) [
  | inl last ↦ (b, rw last refl, v)
  | inr entry ↦
      let (b', same, v') =
        learn-Inv me n es (insert_gossip me (next_char e.age) e.neighbour b)
          (λ i lt. h (suc i) (omega arith))
          (insert_gossip-Inv me (next_char e.age) e.neighbour b v) in
      (b', rw (entry, lt→ltb (next_char e.age) 128 (h 0 (omega arith)), same) refl, v')
]

-- From a neighbour buffer with the invariant, an information gossip of which no age is negative
-- after the increment is worked off, and the invariant holds afterwards: no peer is held twice
-- nor the own one, and every list is within its bounds.
pub func_helper_inf-Inv :
    (me : Peer) (g : GossipInformations) (b : BufferNeighbour)
    → AgesFit g.list_neighbour
    → Inv me b
    → (b' : BufferNeighbour) × (func_helper_inf me g b ≡ some b') × Inv me b'
unfolding func_helper_inf
func_helper_inf-Inv me g b h v =
    learn-Inv me gossip_nodi g.list_neighbour (insert_sorgente me g.sender b) h
      (rw (insert_sorgente-eq-insert_gossip me g.sender b) (insert_gossip-Inv me 0 g.sender b v))
