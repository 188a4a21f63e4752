-- ===== src/Gossip/Received.antt =====
-- A gossip that one peer composes is worked off by the peer that receives it.
use rounds.Base.{ℕ, ◌≡◌, arith, List, some}
use rounds.Peer.{Peer}
use rounds.Neighbour.{BufferNeighbour}
use rounds.Neighbour.Table.{IsValid}
use rounds.Neighbour.Distinct.{Inv}
use rounds.MyFiles.{BufferFile}
use rounds.Random.{RandomX}
use rounds.Inform.{func_helper_inf}
use rounds.Inform.Laws.{AgesFit, func_helper_inf-Inv}
use rounds.Gossip.{Draft, choose_inf, hashes_twice, new_gossip_inf2}
use rounds.Gossip.Copies.{DraftIsValid}
use rounds.Gossip.Choice.{choose_inf-IsValid}

draft-AgesFit : (d : Draft) → DraftIsValid d → AgesFit d.list
draft-AgesFit d v i h = omega (arith, v.ages i)

pub new_gossip_inf2-AgesFit :
    (me : Peer) (files : BufferFile) (turns : ℕ) (x : RandomX) (rs : List ℕ) (b : BufferNeighbour)
    → IsValid b
    → AgesFit (new_gossip_inf2 me files turns x rs b).list_neighbour
unfolding new_gossip_inf2
new_gossip_inf2-AgesFit me files turns x rs b v =
    draft-AgesFit (choose_inf turns x (hashes_twice files rs).1 b)
      (choose_inf-IsValid me files turns x (hashes_twice files rs).1 b v)

-- Whatever the sender draws: from valid neighbour buffers of both peers, the receiver works the
-- gossip off to its end and no index is out of bounds, and its buffer keeps the invariant.
pub new_gossip_inf2-received :
    (me you : Peer) (files : BufferFile) (turns : ℕ) (x : RandomX) (rs : List ℕ)
    (mine yours : BufferNeighbour)
    → IsValid mine
    → Inv you yours
    → (b' : BufferNeighbour) × (func_helper_inf you (new_gossip_inf2 me files turns x rs mine) yours
        ≡ some b')
      × Inv you b'
new_gossip_inf2-received me you files turns x rs mine yours v w =
    func_helper_inf-Inv you (new_gossip_inf2 me files turns x rs mine) yours
      (new_gossip_inf2-AgesFit me files turns x rs mine v) w
