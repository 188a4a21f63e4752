-- ===== src/Tests.antt =====
-- Runs of the code and applications of the theorems at concrete inputs.
pub mod Neighbours
pub mod Buffers
pub mod Server
pub mod Messages
pub mod Gossips
pub mod Life
pub mod Files
pub mod Networks
pub mod Searching
pub mod Simulation
pub mod Simulations
pub mod Locks
use rounds.Base.{ℕ, List, ◌∷◌, [], replicate, ◌++◌}
use rounds.Peer.{Peer}
use rounds.Wire.{GossipMessage, zero_hashes, bye}
use rounds.Neighbour.{Neighbour}

abbrev pub me : Peer
me = record { port = 1; ip = 1 }

abbrev pub anna : Peer
anna = record { port = 2; ip = 2 }

abbrev pub bruno : Peer
bruno = record { port = 3; ip = 3 }

abbrev pub cell : Peer → Neighbour
cell p = record { peer = p; hash_file = zero_hashes }

abbrev pub first_id : List ℕ
first_id = 7 ∷ replicate 15 1

abbrev pub other_id : List ℕ
other_id = 8 ∷ replicate 15 1

abbrev pub anna_leaves : GossipMessage
anna_leaves = record {
  id = first_id;
  pay_desc = bye;
  age = 2;
  peer = anna;
  hash_file = zero_hashes;
}
