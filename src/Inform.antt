-- ===== src/Inform.antt =====
-- The dispatcher of the information gossips, two_rounds/dispatcher_inf.c: what a peer learns about
-- the neighbours of the sender.
pub mod Laws
use rounds.Base.{
  ℕ, zero, suc, ◌+◌, Bool, true, false, Option, none, some, List, [], ◌∷◌, ltb, ◌||◌, if◌then◌else◌,
}
use rounds.Params.{gossip_nodi}
use rounds.Peer.{Peer, same_peer, nobody}
use rounds.Wire.{next_char}
use rounds.Neighbour.{Neighbour, BufferNeighbour, insert_sorgente, insert_gossip}

-- `struct Neighbour_inf2`
pub record NeighbourInf : Type 0 where
  pub neighbour : Neighbour
  pub age : ℕ  -- char

-- `struct Gossip_informations2`, without its header, which the receiver does not read.
pub record GossipInformations : Type 0 where
  pub sender : Neighbour
  pub list_neighbour : List NeighbourInf

-- The loop over `list_neighbour`, up to the first entry without a peer. The age is a signed `char`
-- that the sender chooses. `none`: the age is negative after the increment, and for a peer other than
-- `me` the index that `insert_peer_gossipInf` starts from is out of bounds.
unfoldable pub learn : Peer → ℕ → List NeighbourInf → BufferNeighbour → Option BufferNeighbour
learn me zero es b = some b
learn me (suc n) [] b = some b
learn me (suc n) (e ∷ es) b =
    let age = next_char e.age in
    let rest = learn me n es (insert_gossip me age e.neighbour b) in
    if same_peer e.neighbour.peer nobody
    then some b
    else (if ltb age 128 || same_peer me e.neighbour.peer then rest else none)

-- The body of the loop of `func_helper_inf`, behind `recv`.
unfoldable pub func_helper_inf :
    Peer → GossipInformations → BufferNeighbour → Option BufferNeighbour
func_helper_inf me g b = learn me gossip_nodi g.list_neighbour (insert_sorgente me g.sender b)
