-- ===== src/Gossip.antt =====
-- The information gossips that a peer sends, `Gossip_informations2` and `Buffer_rg` of
-- two_rounds/func_strutture.c. The lock `sem_neighbour` makes the composition of a gossip one step.
-- What `rand()` returns is a list; when it runs out, or the turns of the loop that are given do, the
-- loop stands where it is.
pub mod Copies
pub mod Choice
pub mod Received
pub mod Stray
pub mod Starving
use rounds.Base.{
  ℕ, zero, suc, ◌+◌, Bool, true, false, ◌&&◌, Option, none, some, List, [], ◌∷◌, ltb, leb,
  if◌then◌else◌, get_or, set, replicate, find_first,
}
use rounds.Params.{fanout, gossip_nodi, max_hash_vicino}
use rounds.Peer.{Peer, same_peer}
use rounds.Wire.{zero_hashes}
use rounds.Neighbour.{Neighbour, BufferNeighbour, blank_cell, blank_list, get_number_neighbour}
use rounds.MyFiles.{BufferFile, insert_random_hash_file}
use rounds.Random.{RandomX, num_random, random_age_buffer_rg}
use rounds.Inform.{NeighbourInf, GossipInformations}

abbrev pub blank_inf : NeighbourInf
blank_inf = record { neighbour = blank_cell; age = 0 }

-- `reset_gossip_inf2`, but for the header, which never changes.
abbrev pub reset_gossip_inf2 : GossipInformations
reset_gossip_inf2 = record { sender = blank_cell; list_neighbour = replicate gossip_nodi blank_inf }

-- `list_neighbour` and the local variable `limit`.
pub record Draft : Type 0 where
  pub limit : ℕ
  pub list : List NeighbourInf

abbrev pub empty_draft : Draft
empty_draft = record { limit = 0; list = replicate gossip_nodi blank_inf }

abbrev pub push_inf : NeighbourInf → Draft → Draft
push_inf e d = record { limit = d.limit + 1; list = set d.list d.limit e }

-- The two loops for at most ten neighbours: the first `n` cells of an age list, and all the lists.
unfoldable pub copy_cells : ℕ → ℕ → List Neighbour → Draft → Draft
copy_cells age zero cells d = d
copy_cells age (suc n) [] d = d
copy_cells age (suc n) (c ∷ cells) d =
    copy_cells age n cells (push_inf (record { neighbour = c; age = age }) d)

unfoldable pub copy_ages : ℕ → BufferNeighbour → Draft → Draft
copy_ages age [] d = d
copy_ages age (l ∷ b) d = copy_ages (age + 1) b (copy_cells age l.limit l.nodi_vicini d)

-- One turn of `while (limit < _FANOUT)` behind the draws. The loop that looks for the peer leaves
-- `limit` in `i`, and `j` is what the loop over the own hashes has left, `_MAX_HASH_VICINO`: the
-- hashes are those of that cell.
unfoldable pub add_drawn : ℕ → ℕ → BufferNeighbour → Draft → Draft
add_drawn age index b d =
    let p = (get_or (get_or b age blank_list).nodi_vicini index blank_cell).peer in
    let from = get_or (get_or b d.limit blank_list).nodi_vicini max_hash_vicino blank_cell in
    elim (find_first (λ e. same_peer e.neighbour.peer p) d.limit d.list) [
      | some _ ↦ d
      | none ↦
          push_inf
            (record { neighbour = record { peer = p; hash_file = from.hash_file }; age = age }) d
    ]

-- The draws of a turn: an age, and an index below the number of peers of that age.
unfoldable pub add_index : ℕ → List ℕ → BufferNeighbour → Draft → Option (Draft × List ℕ)
add_index age [] b d = none
add_index age (r ∷ rs) b d =
    some (add_drawn age (num_random (get_or b age blank_list).limit r) b d, rs)

unfoldable pub draw_turn : RandomX → List ℕ → BufferNeighbour → Draft → Option (Draft × List ℕ)
draw_turn x rs b d = elim (random_age_buffer_rg x rs) [
  | some (age, rest) ↦ add_index age rest b d
  | none ↦ none
]

unfoldable pub draw_loop : ℕ → RandomX → List ℕ → BufferNeighbour → Draft → Draft
draw_loop zero x rs b d = d
draw_loop (suc turns) x rs b d =
    if ltb d.limit fanout
    then elim (draw_turn x rs b d) [ some (d', rest) ↦ draw_loop turns x rest b d' | none ↦ d ]
    else d

unfoldable pub choose_inf : ℕ → RandomX → List ℕ → BufferNeighbour → Draft
choose_inf turns x rs b =
    if leb (get_number_neighbour b) gossip_nodi
    then copy_ages 0 b empty_draft
    else draw_loop turns x rs b empty_draft

-- The own hashes are chosen twice over; the second choice stays.
abbrev pub hashes_twice : BufferFile → List ℕ → List ℕ × List ℕ
hashes_twice files rs =
    let (hs, rs') = insert_random_hash_file files rs zero_hashes in
    insert_random_hash_file files rs' hs

-- `new_gossip_inf2` into a gossip that has been reset, for the peer `me`.
unfoldable pub new_gossip_inf2 :
    Peer → BufferFile → ℕ → RandomX → List ℕ → BufferNeighbour → GossipInformations
new_gossip_inf2 me files turns x rs b =
    let (hs, rs') = hashes_twice files rs in
    record {
      sender = record { peer = me; hash_file = hs };
      list_neighbour = (choose_inf turns x rs' b).list;
    }

-- What a thread needs for one gossip: the turns of its loop and the results of `rand()`.
pub record Draws : Type 0 where
  pub turns : ℕ
  pub rands : List ℕ

-- `struct Buffer_rg`; `new_buffer_rg` leaves `limit` at 0.
pub record BufferRg : Type 0 where
  pub limit : ℕ
  pub list_inf : List GossipInformations

-- `reset_buffer_rg`
abbrev pub reset_buffer_rg : BufferRg
reset_buffer_rg = record { limit = 0; list_inf = replicate fanout reset_gossip_inf2 }

module _ (me : Peer) (files : BufferFile) (x : RandomX) (b : BufferNeighbour) where
  -- The loop of `new_buffer_rg` from the index `i` on; `n` gossips are left.
  unfoldable pub fill_rg : ℕ → ℕ → (ℕ → Draws) → BufferRg → BufferRg
  fill_rg zero i draws g = g
  fill_rg (suc n) i draws g =
      let inf = new_gossip_inf2 me files (draws i).turns x (draws i).rands b in
      fill_rg n (i + 1) draws (record g { list_inf = set g.list_inf i inf })

  -- `new_buffer_rg`; the parameter `limit` is that of the fanout.
  abbrev pub new_buffer_rg : ℕ → (ℕ → Draws) → BufferRg
  new_buffer_rg limit draws = fill_rg limit 0 draws reset_buffer_rg
