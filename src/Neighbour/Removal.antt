-- ===== src/Neighbour/Removal.antt =====
-- The removal of a peer behind the search for it, as the handler of a bye does it.
use rounds.Base.{◌≡◌, refl, false, Bool-cases, inl, inr, if◌then◌else◌}
use rounds.Peer.{Peer}
use rounds.Neighbour.{BufferNeighbour, search_peer, delete_peer}
use rounds.Neighbour.Distinct.{Inv, delete_peer_lem}

pub left-Inv :
    (me p : Peer) (b : BufferNeighbour)
    → Inv me b
    → Inv me (if search_peer b p then delete_peer b p else b)
left-Inv me p b v = elim (Bool-cases (search_peer b p)) [
  | inl here ↦ rw here (delete_peer_lem me p b v).0
  | inr other ↦ rw other v
]

pub left-search_peer :
    (me p : Peer) (b : BufferNeighbour)
    → Inv me b
    → search_peer (if search_peer b p then delete_peer b p else b) p ≡ false
left-search_peer me p b v = elim (Bool-cases (search_peer b p)) [
  | inl here ↦ let (valid, left_out, others) = delete_peer_lem me p b v in rw here left_out
  | inr other ↦ rw (other, other) refl
]
