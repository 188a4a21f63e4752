-- ===== src/Fanout.antt =====
-- The fanout buffer of two_rounds/func_strutture.c: the peers that a round of gossip is sent to. The
-- lock `sem_neighbour` makes the choice one step. What `rand()` returns is an argument, a list of
-- results; when it runs out the loop stands where it is.
pub mod Laws
use rounds.Base.{
  ℕ, zero, suc, ◌+◌, Bool, true, false, Option, none, some, List, [], ◌∷◌, ltb, leb, if◌then◌else◌,
  get_or, set, replicate, find_first,
}
use rounds.Params.{fanout}
use rounds.Peer.{Peer, same_peer, nobody}
use rounds.Neighbour.{
  Neighbour, ListaAge, BufferNeighbour, blank_cell, blank_list, get_number_neighbour,
}
use rounds.Random.{RandomX, num_random, random_age}

-- `struct Buffer_fanout`
pub record BufferFanout : Type 0 where
  pub limit : ℕ
  pub nodi : List Peer

-- `reset_buffer_fanout`
abbrev pub reset_buffer_fanout : BufferFanout
reset_buffer_fanout = record { limit = 0; nodi = replicate fanout nobody }

abbrev pub push_peer : Peer → BufferFanout → BufferFanout
push_peer p f = record { limit = f.limit + 1; nodi = set f.nodi f.limit p }

-- The first `n` cells of a list, and the cells of all the lists.
unfoldable pub copy_cells : ℕ → List Neighbour → BufferFanout → BufferFanout
copy_cells zero cells f = f
copy_cells (suc n) [] f = f
copy_cells (suc n) (c ∷ cells) f = copy_cells n cells (push_peer c.peer f)

unfoldable pub copy_ages : BufferNeighbour → BufferFanout → BufferFanout
copy_ages [] f = f
copy_ages (l ∷ b) f = copy_ages b (copy_cells l.limit l.nodi_vicini f)

-- A peer that was drawn, unless it has been drawn before.
unfoldable pub draw_peer : Peer → BufferFanout → BufferFanout
draw_peer p f = elim (find_first (λ q. same_peer q p) f.limit f.nodi) [
  | some _ ↦ f
  | none ↦ push_peer p f
]

-- The peer of one turn of `while (limit < _FANOUT)`: two results of `rand()`.
unfoldable pub drawn : RandomX → ℕ → ℕ → BufferNeighbour → Option Peer
drawn x r₁ r₂ b = elim (random_age x 0 r₁) [
  | some age ↦
      let l = get_or b age blank_list in
      some (get_or l.nodi_vicini (num_random l.limit r₂) blank_cell).peer
  | none ↦ none
]

unfoldable pub draw_loop : RandomX → List ℕ → BufferNeighbour → BufferFanout → BufferFanout
draw_loop x [] b f = f
draw_loop x (r₁ ∷ []) b f = f
draw_loop x (r₁ ∷ r₂ ∷ rs) b f =
    if ltb f.limit fanout
    then elim (drawn x r₁ r₂ b) [ some p ↦ draw_loop x rs b (draw_peer p f) | none ↦ f ]
    else f

unfoldable pub new_fanout : RandomX → List ℕ → BufferNeighbour → BufferFanout
new_fanout x rs b =
    if leb (get_number_neighbour b) fanout
    then copy_ages b reset_buffer_fanout
    else draw_loop x rs b reset_buffer_fanout
